-- ===== src/Client/Handlers.antt =====
-- client/src/lib.rs: the request handlers. What a TCP read returns before `Ok(0)` or an error is the
-- list `reads`.
pub mod Protocol
pub mod Uploads
pub mod Frames
use echo_proxy_core.Base.{
  ℕ, zero, suc, ◌+◌, ◌-◌, ◌*◌, ◌/◌, ◌%◌, ◌^◌, ◌≤◌, ◌<◌, min, String, ◌≡◌, refl, sym, ap, ◌∙◌, subst,
  ◌≢◌, ◌↔◌, ◌⊎◌, inl, inr, Bool, true, false, not, ◌&&◌, ◌||◌, Option, none, some, List, [], ◌∷◌,
  ◌++◌, map, reverse, arith, Bytes, codes, ltb, leb, ◌==◌, if◌then◌else◌, within, leb→le, ltb→lt,
  lt→ltb, ==_iff, Bool-cases, Option-cases, bytes_eq, bytes_eq_sound, bytes_eq_refl, bytes_eq_iff,
  length, take, drop, any, all, All, length-append, take-append, drop-append, take-append-drop,
  length-take, length-drop, any-split, any-append, append_laws, Result, ok, err, guard, or_default,
  or_else, >>=-eq-some,
}
use echo_proxy_core.Frame.{Frame, open_stream, data_frame, close}
use echo_proxy_core.Text.{CaseMap, starts_with}
use echo_proxy_core.Client.Task.{
  Task, finish, ask, register, insert_ack, close_stream, send_frame, recv_ack, write_local,
  write_upstream, connect, spawn_writer, relay_tcp, snapshot_mux, ◌>>◌,
}
use echo_proxy_core.Client.Http.{Request}
use echo_proxy_core.Client.Socks.{socks5_reply, socks5_rep_success, socks5_rep_general_failure}
use echo_proxy_core.Client.Address.{bare_host_port, split_host_port}

abbrev pub open_ack_timeout_secs : ℕ
open_ack_timeout_secs = 10

abbrev pub bad_gateway : Bytes
bad_gateway = codes "HTTP/1.1 502 Bad Gateway\r\nContent-Length: 0\r\n\r\n"

abbrev pub established : Bytes
established = codes "HTTP/1.1 200 Connection established\r\n\r\n"

-- tcp read → ws DATA
unfoldable pub upload : ℕ → List Bytes → Task
upload id [] = finish
upload id (bytes ∷ reads) =
    ask (send_frame (data_frame id bytes))
      (λ sent. elim sent [ true ↦ upload id reads | false ↦ finish ])

-- `do_mux_relay`, and the end of `handle_via_mux`.
unfoldable pub do_mux_relay : ℕ → List Bytes → Task
do_mux_relay id reads =
    ask (spawn_writer id)
      λ _. upload id reads >> ask (send_frame (close id)) (λ _. ask (close_stream id) (λ _. finish))

-- The stream is given up before its relay starts.
abbrev pub abandon : ℕ → Task
abandon id = ask (close_stream id) (λ _. finish)

-- After OPEN_ACK: the success line of CONNECT, or the request itself as the first DATA.
unfoldable pub start_http : ℕ → Bool → Bytes → List Bytes → Task
unfolding do_mux_relay
start_http id is_connect request reads =
    if is_connect
    then ask (write_local established) (λ sent. if sent then do_mux_relay id reads else abandon id)
    else ask (send_frame (data_frame id request))
        (λ sent. if sent then do_mux_relay id reads else abandon id)

-- `handle_via_mux` without a timeout, `handle_via_mux_with_timeout` with one.
unfoldable pub handle_via_mux : Option ℕ → ℕ → Request → List Bytes → Task
unfolding start_http
handle_via_mux timeout id request reads = ask (register id) λ _. ask (insert_ack id) λ _.
    ask (send_frame (open_stream id request.host)) λ sent.
      if not sent
      then abandon id
      else ask (recv_ack id timeout) λ ack.
        if not (or_default ack false)
        then ask (close_stream id) (λ _. ask (write_local bad_gateway) (λ _. finish))
        else start_http id (starts_with (codes "CONNECT ") request.headers)
            (request.headers ++ request.body) reads

-- The same steps with a deadline for the OPEN_ACK, on a connection that may be gone.
abbrev pub handle_via_mux_with_timeout : ℕ → Request → List Bytes → Task
handle_via_mux_with_timeout id request reads =
    handle_via_mux (some open_ack_timeout_secs) id request reads

unfoldable pub handle_direct : Request → Task
handle_direct request = ask (connect request.host) λ connected.
    if not connected
    then ask (write_local bad_gateway) (λ _. finish)
    else if starts_with (codes "CONNECT ") request.headers
    then ask (write_local established)
        (λ sent. if sent then ask relay_tcp (λ _. finish) else finish)
    else ask (write_upstream (request.headers ++ request.body))
        (λ sent. if sent then ask relay_tcp (λ _. finish) else finish)

-- `handle_local_connection`: `should_bypass` is the routing decision on host and port.
unfoldable pub handle_local_connection : (Bytes → ℕ → Bool) → ℕ → Option Request → List Bytes → Task
unfolding handle_via_mux handle_direct
handle_local_connection should_bypass id none reads = finish
handle_local_connection should_bypass id (some request) reads =
    let (bare_host, port) = bare_host_port request.host in
    if should_bypass bare_host port
    then handle_direct request
    else handle_via_mux none id request reads

unfoldable pub handle_local_connection_resilient :
    (Bytes → ℕ → Bool) → ℕ → Option Request → List Bytes → Task
unfolding handle_via_mux handle_direct
handle_local_connection_resilient should_bypass id none reads = finish
handle_local_connection_resilient should_bypass id (some request) reads =
    let (bare_host, port) = bare_host_port request.host in
    if should_bypass bare_host port
    then handle_direct request
    else ask snapshot_mux (λ available.
      if not available
      then ask (write_local bad_gateway) (λ _. finish)
      else handle_via_mux_with_timeout id request reads)

unfoldable pub handle_socks_direct : Bytes → Task
handle_socks_direct host = ask (connect host) λ connected.
    if not connected
    then ask (write_local (socks5_reply socks5_rep_general_failure)) (λ _. finish)
    else ask (write_local (socks5_reply socks5_rep_success)) (λ _. ask relay_tcp (λ _. finish))

unfoldable pub handle_socks_via_mux : ℕ → Bytes → List Bytes → Task
unfolding do_mux_relay
handle_socks_via_mux id host reads = ask (register id) λ _. ask (insert_ack id) λ _.
    ask (send_frame (open_stream id host)) λ sent.
      if not sent
      then ask (close_stream id)
          (λ _. ask (write_local (socks5_reply socks5_rep_general_failure)) (λ _. finish))
      else ask (recv_ack id (some open_ack_timeout_secs)) λ ack.
        if not (or_default ack false)
        then ask (close_stream id)
            (λ _. ask (write_local (socks5_reply socks5_rep_general_failure)) (λ _. finish))
        else ask (write_local (socks5_reply socks5_rep_success))
            (λ wrote. if wrote then do_mux_relay id reads else abandon id)

-- `target` is what `parse_socks5_request` returns.
unfoldable pub handle_socks_connection_resilient :
    (Bytes → ℕ → Bool) → ℕ → Option Bytes → List Bytes → Task
unfolding handle_socks_via_mux handle_socks_direct
handle_socks_connection_resilient should_bypass id none reads = finish
handle_socks_connection_resilient should_bypass id (some host) reads =
    let (bare_host, port) = split_host_port host in
    if should_bypass bare_host port
    then handle_socks_direct host
    else ask snapshot_mux (λ available.
      if not available
      then ask (write_local (socks5_reply socks5_rep_general_failure)) (λ _. finish)
      else handle_socks_via_mux id host reads)
