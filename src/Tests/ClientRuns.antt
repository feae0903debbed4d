-- ===== src/Tests/ClientRuns.antt =====
-- Runs of the client on concrete events.
use echo_proxy_core.Base.{
  ℕ, ◌≤◌, ◌≡◌, refl, Bool, true, Option, none, some, List, [], ◌∷◌, ◌++◌, Bytes, codes, ◌==◌,
  bytes_eq,
}
use echo_proxy_core.WebSocket.{binary}
use echo_proxy_core.Client.Conn
use echo_proxy_core.Client.Conn.{received, registers, awaits, unregisters, keeper_closed}
use echo_proxy_core.Client.Keeper
use echo_proxy_core.Client.Keeper.{no_token, no_mux, connected, disconnected, shut_down}
use echo_proxy_core.Client.Keeper.Backoff.{
  failures, delays, mux_failures, same_delays, sleeps-failures, sleeps-mux_failures,
}
use echo_proxy_core.Client.Keeper.Published.{current, run-start-accounted}
use echo_proxy_core.Client.Conn.Acks.{answers, insertions, answers-le-insertions}
use echo_proxy_core.Client.Http.{Request}
use echo_proxy_core.Client.Handlers.{
  handle_local_connection, handle_local_connection_resilient, handle_socks_connection_resilient,
}
use echo_proxy_core.Client.Handlers.Protocol.{Settles, handlers-Settle}
use echo_proxy_core.Client.Handlers.Uploads.{Carries, data_of, handlers-Carry}
use echo_proxy_core.Client.Conn.Waiting.{run-Releases}
use echo_proxy_core.Client.Pool
use echo_proxy_core.Client.Pool.{socks, spawned, moves}
use echo_proxy_core.Client.Pool.Phases.{runs}
use echo_proxy_core.Client.Pool.Registered.{run-start-runs}
use echo_proxy_core.Session.Table.{lookup}
use echo_proxy_core.Tests.{succeeds, never}

-- A test of the routing: port 22 goes around the tunnel.
abbrev route : Bytes → ℕ → Bool
route host port = port == 22

abbrev request : Option Request
request = some (record {
  host = codes "a.org:443";
  headers = codes "CONNECT a.org:443 HTTP/1.1\r\n\r\n";
  body = [];
})

abbrev target : Option Bytes
target = some (codes "b.org:22")

abbrev reads : List Bytes
reads = codes "one" ∷ codes "two" ∷ []

handlers-Settle_example :
    Settles 7 (handle_local_connection route 7 request reads)
    × Settles 7 (handle_local_connection_resilient route 7 request reads)
    × Settles 7 (handle_socks_connection_resilient route 7 target reads)
handlers-Settle_example = handlers-Settle route 7 reads request target

-- Two streams, of which one is given up.
abbrev two_streams : List (Conn.Event ℕ Bytes)
two_streams =
    registers 1 100
    ∷ awaits 1 (codes "first")
    ∷ received (some (binary (2 ∷ 0 ∷ 0 ∷ 0 ∷ 1 ∷ 0 ∷ [])))
    ∷ registers 2 200
    ∷ unregisters 1
    ∷ []

-- A refused handshake, a connection, its loss, and a shutdown during the next one.
abbrev reconnects : List (Keeper.Event ℕ)
reconnects = no_token ∷ connected 1 ∷ disconnected ∷ no_mux ∷ connected 2 ∷ shut_down ∷ []

run-start-accounted_example :
    (Keeper.run reconnects Keeper.start).published
    ≡ current (Keeper.run reconnects Keeper.start).shared
      ++ (Keeper.run reconnects Keeper.start).closed
run-start-accounted_example = run-start-accounted reconnects

abbrev idle_keeper : Keeper.Keeper ℕ
idle_keeper = Keeper.start

sleeps-failures_example : (Keeper.run (failures 8) idle_keeper).sleeps ≡ delays 8 0 []
unfolding Keeper.start
sleeps-failures_example = sleeps-failures 8 idle_keeper refl refl refl

sleeps-mux_failures_example :
    (Keeper.run (mux_failures 8) idle_keeper).sleeps ≡ same_delays 8 500 []
unfolding Keeper.start
sleeps-mux_failures_example = sleeps-mux_failures 8 idle_keeper refl refl

abbrev is_first : Bytes → Bool
is_first ack = bytes_eq ack (codes "first")

answers-le-insertions_example :
    answers is_first (Conn.run two_streams Conn.new_conn).acked ≤ insertions is_first two_streams
answers-le-insertions_example = answers-le-insertions is_first two_streams

handlers-Carry_example :
    Carries (data_of request reads) (handle_local_connection route 7 request reads)
    × Carries (data_of request reads) (handle_local_connection_resilient route 7 request reads)
    × Carries reads (handle_socks_connection_resilient route 7 target reads)
handlers-Carry_example = handlers-Carry route 7 reads request target

-- A handler waits for stream 1, and the connection ends while another registers.
abbrev one_waits : Conn.MuxConn ℕ Bytes
one_waits = Conn.step (awaits 1 (codes "first")) Conn.new_conn

run-Releases_example :
    lookup 1 (Conn.run (registers 2 200 ∷ []) (Conn.step (received none) one_waits)).pending_acks
    ≡ none
unfolding Conn.step Conn.new_conn
run-Releases_example =
    run-Releases 1 (received none) (registers 2 200 ∷ []) one_waits (refl, tt) (tt, tt)

abbrev two_handlers : List (Pool.Event ℕ Bytes)
two_handlers =
    spawned 1 (socks (some (codes "a.org:80")) [])
    ∷ moves 0 succeeds 100 (codes "first")
    ∷ moves 0 succeeds 100 (codes "first")
    ∷ spawned 2 (socks target [])
    ∷ []

run-start-runs_example : runs 1 (Pool.run never two_handlers Pool.start).running ≡ true
unfolding Pool.run Pool.start Pool.step Pool.handler Pool.advance Pool.call_of Pool.perform lookup
    handle_socks_connection_resilient Conn.step echo_proxy_core.Session.register
run-start-runs_example = run-start-runs never two_handlers 1 100 refl
