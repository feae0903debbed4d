-- ===== src/Tests/ServerRuns.antt =====
-- Runs of the server on concrete events.
use echo_proxy_core.Base.{
  ℕ, ◌+◌, ◌≤◌, ◌≡◌, refl, ◌⊎◌, true, false, ◌&&◌, none, some, List, [], ◌∷◌, ◌++◌, Bytes, codes,
  bytes_eq,
}
use echo_proxy_core.Frame.{
  Frame, hello, open_stream, open_ack, data_frame, close, FrameError, encode, decode,
}
use echo_proxy_core.Text.Utf8.{is_utf8}
use echo_proxy_core.Session.Table.{lookup}
use echo_proxy_core.WebSocket.{Item, text, binary, ping}
use echo_proxy_core.Server.Ssrf.{is_dest_allowed}
use echo_proxy_core.Server.Session.{
  MuxSession, Reader, reading, acking, ended, Event, received, ack_sent, writer_ended, tcp_read,
  tcp_ended, relay_left, start, step, run,
}
use echo_proxy_core.Server.Session.Protocol.{
  follows, acks, closes, count_id, run-start-follows, run-start-balance,
}
use echo_proxy_core.Server.Session.Dialled.{AllAllowed, run-start-AllAllowed}
use echo_proxy_core.Server.Session.Replies.{run-open, open_acks, opened}
use echo_proxy_core.Server.Tokens.{holds, insert}
use echo_proxy_core.Text.{starts_with}
use echo_proxy_core.Server.Control.{process_control, send_text, is_user}
use echo_proxy_core.Server.Control.Outcome.{Granted, process_control-Granted}
use echo_proxy_core.Server.Serving.{
  Handshake, control, mux, handshakes, nothing_served, times, times-started-le-issued,
}
use echo_proxy_core.Client.Token.{hello_text, hello_frame, token_of_reply}
use echo_proxy_core.Client.Token.EndToEnd.{token-begins_session}
use echo_proxy_core.Server.Session.Hello.{begin_session}
use echo_proxy_core.Tests.{text_uuid, text_uuid-UuidLaws, text_semver}

abbrev public_host : Bytes
public_host = codes "1.1.1.1:80"

abbrev open_bytes : Bytes
open_bytes = encode (open_stream 1 public_host)

-- A stream is opened, its peer answers and closes, and the client leaves.
abbrev one_stream : List (Event ℕ)
one_stream =
    received (some (binary (encode (open_stream 1 (codes "10.0.0.1:80"))))) true 0
    ∷ ack_sent
    ∷ received (some (binary open_bytes)) true 0
    ∷ ack_sent
    ∷ tcp_read 1 (codes "x")
    ∷ received none false 0
    ∷ tcp_ended 1
    ∷ relay_left 1
    ∷ []

-- The whole run: the private address is refused, the other stream is opened and ends in order.
one_stream-outbox :
    ((run one_stream start).outbox
      ≡ open_ack 1 false ∷ open_ack 1 true ∷ data_frame 1 (codes "x") ∷ close 1 ∷ [])
    × ((run one_stream start).writer_up ≡ true)
    × ((run one_stream start).reader ≡ ended)
unfolding run step start decode encode is_utf8 echo_proxy_core.Server.Session.handle_open
    is_dest_allowed echo_proxy_core.Net.Parse.parse_ip echo_proxy_core.Net.Parse.read_ip_addr
    echo_proxy_core.Net.Parse.read_ipv4_addr echo_proxy_core.Net.Parse.octet
    echo_proxy_core.Server.Ssrf.dest_host echo_proxy_core.Text.rsplit_once
    echo_proxy_core.Text.trim_matches echo_proxy_core.Server.Ssrf.is_public_ip
    echo_proxy_core.Net.is_loopback echo_proxy_core.Net.is_private echo_proxy_core.Net.is_link_local
    echo_proxy_core.Net.is_unspecified echo_proxy_core.Frame.BigEndian.from_be_bytes
    echo_proxy_core.Frame.BigEndian.to_be_bytes echo_proxy_core.Net.Parse.digit_value
    echo_proxy_core.Net.Parse.read_given_char echo_proxy_core.Net.Parse.read_ipv6_addr
    echo_proxy_core.Net.Parse.read_number echo_proxy_core.Net.Parse.span_digits
    echo_proxy_core.Net.is_loopback_v6 echo_proxy_core.Net.is_multicast_v6
    echo_proxy_core.Net.is_unspecified_v6 echo_proxy_core.Server.Session.deliver
    echo_proxy_core.Server.Session.dispatch echo_proxy_core.Server.Session.finish_open
    echo_proxy_core.Server.Session.reader_turn echo_proxy_core.Server.Session.receive
    echo_proxy_core.Server.Session.relay_end echo_proxy_core.Server.Session.relay_read
    echo_proxy_core.Server.Session.send echo_proxy_core.Server.Session.stop_reading
    echo_proxy_core.Server.Session.unregister echo_proxy_core.Server.Session.without_id
    echo_proxy_core.Session.Table.empty echo_proxy_core.Session.Table.insert lookup
    echo_proxy_core.Session.Table.remove echo_proxy_core.Session.close
    echo_proxy_core.Session.close_all echo_proxy_core.Session.new echo_proxy_core.Session.register
    echo_proxy_core.Session.route echo_proxy_core.Text.Utf8.utf8_step
one_stream-outbox = (refl, refl, refl)

run-start-follows_example : follows [] (run one_stream start).outbox ≡ true
run-start-follows_example = run-start-follows one_stream

run-start-balance_example :
    acks 1 (run one_stream start).outbox
    ≡ closes 1 (run one_stream start).outbox + count_id 1 (run one_stream start).relays
run-start-balance_example = run-start-balance one_stream 1 one_stream-outbox.1

run-start-AllAllowed_example : AllAllowed (run one_stream start).dialled
run-start-AllAllowed_example = run-start-AllAllowed one_stream

abbrev other_reads : List (Event ℕ)
other_reads = tcp_read 3 (codes "y") ∷ []

abbrev fresh : MuxSession ℕ
fresh = start

run-open_example :
    ((step ack_sent (opened open_bytes true 5 other_reads fresh)).outbox
      ≡ (opened open_bytes true 5 other_reads fresh).outbox
        ++ open_ack 1 (is_dest_allowed public_host && true) ∷ [])
    × (open_acks 1 (step ack_sent (opened open_bytes true 5 other_reads fresh)).outbox
        ≡ open_acks 1 fresh.outbox ++ (is_dest_allowed public_host && true) ∷ [])
    × ((step ack_sent (opened open_bytes true 5 other_reads fresh)).reader ≡ reading)
unfolding start decode encode is_utf8
run-open_example =
    run-open open_bytes 1 1 public_host true 5 other_reads fresh refl refl refl (tt, tt)

abbrev users : List Bytes
users = codes "ann" ∷ []

abbrev token : Bytes
token = codes "tok"

abbrev greeting_items : List Item
greeting_items = text (codes "Hello:0.2.0:ann") ∷ []

-- The token is granted once and shown twice.
abbrev history : List (Handshake Bytes)
history =
    control greeting_items token
    ∷ mux (binary (hello_frame token) ∷ [])
    ∷ mux (binary (hello_frame token) ∷ [])
    ∷ []

times-started-le-issued_example :
    times text_semver text_uuid users token
      (handshakes text_semver text_uuid users history
        (nothing_served text_semver text_uuid users)).started
    ≤ times text_semver text_uuid users token
        (handshakes text_semver text_uuid users history
          (nothing_served text_semver text_uuid users)).issued
times-started-le-issued_example =
    times-started-le-issued text_semver text_uuid users text_uuid-UuidLaws history token

process_control-Granted_example :
    ((process_control text_semver text_uuid users [] token greeting_items).1 ≡ [])
    ⊎ ((msg : Bytes) × (rest : List Item) × (greeting_items ≡ text msg ∷ rest)
        × (starts_with (codes "Hello:") msg ≡ true)
        × Granted text_semver text_uuid users [] token msg
        × (process_control text_semver text_uuid users [] token greeting_items
            ≡ (send_text (codes "Hi:" ++ token) ∷ [], insert text_uuid token [])))
process_control-Granted_example =
    process_control-Granted text_semver text_uuid users [] token greeting_items

token-begins_session_example :
    (granted : Bytes) × (store' : List Bytes) × (process_control text_semver text_uuid users []
        token
        (text (hello_text (codes "0.2.0") (codes "ann")) ∷ [])
      ≡ (send_text granted ∷ [], store'))
    × (token_of_reply granted ≡ some token)
    × ((begin_session text_uuid (binary (hello_frame token) ∷ ping ∷ []) store').0
        ≡ some (ping ∷ []))
    × (holds text_uuid token
          (begin_session text_uuid (binary (hello_frame token) ∷ ping ∷ []) store').1
        ≡ false)
unfolding is_user is_utf8 bytes_eq
token-begins_session_example =
    token-begins_session text_semver text_uuid text_uuid-UuidLaws users [] token (codes "0.2.0")
      (codes "ann") (codes "0.2.0") [] (ping ∷ []) refl refl refl refl refl

abbrev peeked : Bytes
peeked = codes "GET /mux HTTP/1.1\r\nUpgrade: WebSocket\r\n\r\n"
