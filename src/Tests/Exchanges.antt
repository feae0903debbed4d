-- ===== src/Tests/Exchanges.antt =====
-- A whole stream between ends that have just connected.
use echo_proxy_core.Base.{◌≡◌, refl, some, true, [], ◌∷◌, arith, Bytes, codes}
use echo_proxy_core.Frame.{IsFrame, open_stream}
use echo_proxy_core.Tests.{never}
use echo_proxy_core.Client.Http.{Request}
use echo_proxy_core.Client.Pool.{Job, resilient}
use echo_proxy_core.Client.Conn
use echo_proxy_core.Server.Session
use echo_proxy_core.Server.Ssrf.{is_dest_allowed}
use echo_proxy_core.Tunnel.{run}
use echo_proxy_core.Tunnel.Exchange.{level}
use echo_proxy_core.Tunnel.Exchange.Ends.{exchange, until_answer, Answered, Served}
use echo_proxy_core.Tunnel.Exchange.Whole.{run-exchange-Served}

abbrev target : Bytes
target = codes "1.1.1.1:80"

target-IsFrame : IsFrame (open_stream 1 target)
unfolding echo_proxy_core.Text.Utf8.is_utf8 echo_proxy_core.Text.Utf8.utf8_step
target-IsFrame = (omega arith, refl)

target_allowed : is_dest_allowed target ≡ true
unfolding is_dest_allowed echo_proxy_core.Net.Parse.parse_ip echo_proxy_core.Net.Parse.read_ip_addr
    echo_proxy_core.Net.Parse.read_ipv4_addr echo_proxy_core.Net.Parse.octet
    echo_proxy_core.Server.Ssrf.dest_host echo_proxy_core.Text.rsplit_once
    echo_proxy_core.Text.trim_matches echo_proxy_core.Server.Ssrf.is_public_ip
    echo_proxy_core.Net.is_loopback echo_proxy_core.Net.is_private echo_proxy_core.Net.is_link_local
    echo_proxy_core.Net.is_unspecified echo_proxy_core.Net.Parse.digit_value
    echo_proxy_core.Net.Parse.read_given_char echo_proxy_core.Net.Parse.read_ipv6_addr
    echo_proxy_core.Net.Parse.read_number echo_proxy_core.Net.Parse.span_digits
target_allowed = refl

abbrev request : Request
request = record {
  host = target;
  headers = codes "GET / HTTP/1.1\r\nHost: 1.1.1.1\r\n\r\n";
  body = [];
}

abbrev job : Job
job = resilient (some request) (codes "more" ∷ [])

run-exchange-Served_example :
    Answered 1 Conn.new_conn
      (run never (until_answer 1 job) (level [] Conn.new_conn Session.start []))
    × Served 1 job target
        (codes "answer" ∷ [])
        []
        Conn.new_conn
        Session.start
        (run never (exchange 1 job (codes "answer" ∷ [])) (level [] Conn.new_conn Session.start []))
unfolding Conn.new_conn Session.start
run-exchange-Served_example =
    run-exchange-Served never 1 job target (codes "answer" ∷ []) [] Conn.new_conn Session.start []
      refl target-IsFrame target_allowed refl refl refl refl
