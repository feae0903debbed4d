-- ===== src/Tunnel/Integrity.antt =====
-- Across the whole run: what a stream's channel gets, on either side, is what the other side sent for
-- that stream.
use echo_proxy_core.Base.{ℕ, Bool, List, [], ◌∷◌, Bytes, All}
use mathlib.Core.List.{Sublist}
use echo_proxy_core.Frame.{IsFrame}
use echo_proxy_core.Server.Session
use echo_proxy_core.Server.Session.{MuxSession, Reader, reading, acking, ended}
use echo_proxy_core.Client.Conn
use echo_proxy_core.Client.Conn.{MuxConn}
use echo_proxy_core.Client.Pool
use echo_proxy_core.Client.Pool.{Pool, call_of}
use echo_proxy_core.Tunnel.{Tunnel, Event, step, run, start}
use echo_proxy_core.Tunnel.Flow.{payloads_to, payloads_of, Flow-start, Flow-sublist, Keys-new}
use echo_proxy_core.Tunnel.Flowing.{Flowing, step-Flowing}
use echo_proxy_core.Tunnel.Growth.{All-Grown, run-Grows}

module _ (should_bypass : Bytes → ℕ → Bool) where
  pub run-Flowing :
      (es : List Event) (t : Tunnel)
      → All IsFrame (run should_bypass es t).sent_up
      → All IsFrame (run should_bypass es t).server.outbox
      → Flowing t
      → Flowing (run should_bypass es t)
  unfolding run
  run-Flowing [] t a b v = v
  run-Flowing (e ∷ es) t a b v =
      let (g, h) = run-Grows should_bypass (e ∷ es) t in
      run-Flowing es (step should_bypass e t) a b
        (step-Flowing should_bypass e t (All-Grown _ _ g a) (All-Grown _ _ h b) v)

  pub start-Flowing : Flowing start
  unfolding start Pool.start Session.start Conn.new_conn
  start-Flowing = record {
    up = record { flows = Flow-start; keys = Keys-new };
    down = record { flows = Flow-start; keys = Keys-new };
  }

  abbrev ended_by : List Event → Tunnel
  ended_by es = run should_bypass es start

  -- In every run of the client's handlers, the connection and the server's session, in any interleaving,
  -- if the frames sent fit the frame format, then what the server hands to a stream's TCP side is, in
  -- order, some of the payloads of that stream's DATA frames that the client's handlers sent, and what
  -- the client hands to a stream's handler is some of those that the server sent: nothing is invented,
  -- changed, duplicated, reordered or moved to another stream.
  pub run-start-payloads_sound :
      (es : List Event) (id : ℕ)
      → All IsFrame (ended_by es).sent_up
      → All IsFrame (ended_by es).server.outbox
      → Sublist
          (payloads_to id (ended_by es).server.delivered)
          (payloads_of id (ended_by es).sent_up)
        × Sublist
            (payloads_to id (ended_by es).pool.conn.delivered)
            (payloads_of id (ended_by es).server.outbox)
  run-start-payloads_sound es id a b =
      let v = run-Flowing es start a b start-Flowing in
      (Flow-sublist id _ _ _ (v.up.flows id), Flow-sublist id _ _ _ (v.down.flows id))
