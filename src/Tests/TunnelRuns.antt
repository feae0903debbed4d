-- ===== src/Tests/TunnelRuns.antt =====
-- A run of both ends over one connection.
use echo_proxy_core.Base.{
  ◌≡◌, refl, sym, subst, true, some, List, [], ◌∷◌, ◌++◌, arith, codes, take, drop,
}
use mathlib.Core.List.{Sublist}
use echo_proxy_core.Frame.{Frame, IsFrame, open_stream, open_ack, data_frame, close}
use echo_proxy_core.Tests.{succeeds, never}
use echo_proxy_core.Client.Pool.{socks}
use echo_proxy_core.Client.Pool.Owned.{Quiet}
use echo_proxy_core.Tunnel.Typed.{IsTyped}
use echo_proxy_core.Tunnel.EndToEnd.{run-start-end_to_end}
use echo_proxy_core.Tunnel.Finished.{run-answer_dropped}
use echo_proxy_core.Tunnel.{
  Tunnel, Event, spawned, moves, up_taken, down_taken, ack_sent, tcp_read, run, start,
}
use echo_proxy_core.Tunnel.Flow.{payloads_to, payloads_of}
use echo_proxy_core.Tunnel.Steps.{down, IsOpen}
use echo_proxy_core.Tunnel.Complete.{run-all_arrive}

abbrev move : Event
move = moves 0 succeeds

-- A SOCKS5 client opens a stream and sends, and the answer comes back.
abbrev one_request : List Event
one_request =
    spawned 1 (socks (some (codes "1.1.1.1:80")) (codes "ask" ∷ []))
    ∷ move
    ∷ move
    ∷ move
    ∷ move
    ∷ up_taken true
    ∷ ack_sent
    ∷ down_taken
    ∷ move
    ∷ move
    ∷ move
    ∷ move
    ∷ up_taken true
    ∷ tcp_read 1 (codes "answer")
    ∷ []

abbrev asked : Tunnel
asked = run never one_request start

abbrev one_exchange : List Event
one_exchange = one_request ++ down_taken ∷ []

-- The SOCKS5 client ends its side before the answer is there.
abbrev half_closed : Tunnel
half_closed = run never (one_request ++ move ∷ move ∷ move ∷ []) start

abbrev after_half_close : Tunnel
after_half_close = run never (down_taken ∷ []) half_closed

abbrev sent_by_client : List Frame
sent_by_client = open_stream 1 (codes "1.1.1.1:80") ∷ data_frame 1 (codes "ask") ∷ []

abbrev sent_by_server : List Frame
sent_by_server = open_ack 1 true ∷ data_frame 1 (codes "answer") ∷ []

one_exchange-sent :
    ((run never one_exchange start).sent_up ≡ sent_by_client)
    × ((run never one_exchange start).server.outbox ≡ sent_by_server)
    × IsOpen down 1 asked
    × (half_closed.pool.running ≡ [])
unfolding run start echo_proxy_core.Tunnel.step echo_proxy_core.Tunnel.take_down
    echo_proxy_core.Tunnel.take_up echo_proxy_core.Server.Session.step
    echo_proxy_core.Server.Session.start echo_proxy_core.Client.Pool.call_of
    echo_proxy_core.Client.Pool.step echo_proxy_core.Client.Pool.start
    echo_proxy_core.Client.Pool.handler echo_proxy_core.Client.Pool.perform
    echo_proxy_core.Client.Pool.advance
    echo_proxy_core.Client.Handlers.handle_socks_connection_resilient
    echo_proxy_core.Client.Handlers.handle_socks_via_mux
    echo_proxy_core.Client.Handlers.do_mux_relay echo_proxy_core.Client.Handlers.upload
    echo_proxy_core.Client.Conn.step echo_proxy_core.Client.Conn.new_conn
    echo_proxy_core.Client.Conn.receive echo_proxy_core.Client.Conn.dispatch
    echo_proxy_core.Client.Conn.resolve echo_proxy_core.Client.Conn.deliver
    echo_proxy_core.Frame.decode echo_proxy_core.Frame.encode echo_proxy_core.Text.Utf8.is_utf8
    echo_proxy_core.Server.Session.handle_open echo_proxy_core.Server.Ssrf.is_dest_allowed
    echo_proxy_core.Net.Parse.parse_ip echo_proxy_core.Net.Parse.read_ip_addr
    echo_proxy_core.Net.Parse.read_ipv4_addr echo_proxy_core.Net.Parse.octet
    echo_proxy_core.Server.Ssrf.dest_host echo_proxy_core.Text.rsplit_once
    echo_proxy_core.Text.trim_matches echo_proxy_core.Server.Ssrf.is_public_ip
    echo_proxy_core.Net.is_loopback echo_proxy_core.Net.is_private echo_proxy_core.Net.is_link_local
    echo_proxy_core.Net.is_unspecified echo_proxy_core.Frame.BigEndian.from_be_bytes
    echo_proxy_core.Frame.BigEndian.to_be_bytes echo_proxy_core.Net.Parse.digit_value
    echo_proxy_core.Net.Parse.read_given_char echo_proxy_core.Net.Parse.read_ipv6_addr
    echo_proxy_core.Net.Parse.read_number echo_proxy_core.Net.Parse.span_digits
    echo_proxy_core.Net.is_loopback_v6 echo_proxy_core.Net.is_multicast_v6
    echo_proxy_core.Net.is_unspecified_v6 echo_proxy_core.Server.Session.deliver
    echo_proxy_core.Server.Session.dispatch echo_proxy_core.Server.Session.finish_open
    echo_proxy_core.Server.Session.reader_turn echo_proxy_core.Server.Session.receive
    echo_proxy_core.Server.Session.relay_end echo_proxy_core.Server.Session.relay_read
    echo_proxy_core.Server.Session.send echo_proxy_core.Server.Session.stop_reading
    echo_proxy_core.Server.Session.unregister echo_proxy_core.Server.Session.without_id
    echo_proxy_core.Session.Table.empty echo_proxy_core.Session.Table.insert
    echo_proxy_core.Session.Table.lookup echo_proxy_core.Session.Table.remove
    echo_proxy_core.Session.close echo_proxy_core.Session.close_all echo_proxy_core.Session.new
    echo_proxy_core.Session.register echo_proxy_core.Session.route
    echo_proxy_core.Text.Utf8.utf8_step
one_exchange-sent = (refl, refl, (refl, refl), refl)

one_exchange-IsTyped : IsTyped one_exchange
unfolding echo_proxy_core.Text.Utf8.is_utf8 echo_proxy_core.Text.Utf8.utf8_step
one_exchange-IsTyped = ((omega arith, refl), tt)

one_request-IsTyped : IsTyped one_request
unfolding echo_proxy_core.Text.Utf8.is_utf8 echo_proxy_core.Text.Utf8.utf8_step
one_request-IsTyped = ((omega arith, refl), tt)

half_close-IsTyped : IsTyped (one_request ++ move ∷ move ∷ move ∷ [])
unfolding echo_proxy_core.Text.Utf8.is_utf8 echo_proxy_core.Text.Utf8.utf8_step
half_close-IsTyped = ((omega arith, refl), tt)

run-all_arrive_example :
    payloads_to 1 (run never (down_taken ∷ []) asked).pool.conn.delivered
    ≡ payloads_to 1 asked.pool.conn.delivered
      ++ payloads_of 1 (
          drop asked.taken_down (
            take
              (run never (down_taken ∷ []) asked).taken_down
              (run never (down_taken ∷ []) asked).server.outbox))
run-all_arrive_example =
    run-all_arrive never down 1 one_request (down_taken ∷ []) one_request-IsTyped tt
      (one_exchange-sent.2, tt)

run-start-end_to_end_example :
    Sublist (payloads_to 1 (run never one_exchange start).server.delivered) (codes "ask" ∷ [])
    × Sublist
        (payloads_to 1 (run never one_exchange start).pool.conn.delivered)
        (codes "answer" ∷ [])
run-start-end_to_end_example =
    run-start-end_to_end never 1 (socks (some (codes "1.1.1.1:80")) (codes "ask" ∷ [])) one_exchange
      refl one_exchange-IsTyped

run-answer_dropped_example :
    payloads_to 1 after_half_close.pool.conn.delivered
    ≡ payloads_to 1 half_closed.pool.conn.delivered
run-answer_dropped_example =
    run-answer_dropped never 1 (one_request ++ move ∷ move ∷ move ∷ []) (down_taken ∷ []) refl
      (subst (Quiet 1) (sym one_exchange-sent.3) tt) half_close-IsTyped tt
