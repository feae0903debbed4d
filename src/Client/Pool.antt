-- ===== src/Client/Pool.antt =====
-- client/src/lib.rs: the handlers that hold one connection, which run side by side with its reader,
-- its writer and the keeper. The listeners spawn the handlers; each of them moves by one call at a
-- time, and its calls on the connection are steps of the connection. A call is answered freely, also a
-- wait for the OPEN_ACK, so there are more runs here than in the source: what holds in each of these
-- runs holds in each of the source's.
pub mod Phases
pub mod Registered
pub mod Owned
use echo_proxy_core.Base.{
  ℕ, zero, suc, ◌+◌, ◌-◌, ◌*◌, ◌/◌, ◌%◌, ◌^◌, ◌≤◌, ◌<◌, min, String, ◌≡◌, refl, sym, ap, ◌∙◌, subst,
  ◌≢◌, ◌↔◌, ◌⊎◌, inl, inr, Bool, true, false, not, ◌&&◌, ◌||◌, Option, none, some, List, [], ◌∷◌,
  ◌++◌, map, reverse, arith, Bytes, codes, ltb, leb, ◌==◌, if◌then◌else◌, within, leb→le, ltb→lt,
  lt→ltb, ==_iff, Bool-cases, Option-cases, bytes_eq, bytes_eq_sound, bytes_eq_refl, bytes_eq_iff,
  length, take, drop, any, all, All, length-append, take-append, drop-append, take-append-drop,
  length-take, length-drop, any-split, any-append, append_laws, Result, ok, err, guard, or_default,
  or_else, >>=-eq-some,
}
use echo_proxy_core.WebSocket.{Item}
use echo_proxy_core.Client.Task.{Task, Call, Reply, finish, ask, register, insert_ack, close_stream}
use echo_proxy_core.Client.Http.{Request}
use echo_proxy_core.Client.Handlers.{
  handle_local_connection, handle_local_connection_resilient, handle_socks_connection_resilient,
}
use echo_proxy_core.Client.Conn
use echo_proxy_core.Client.Conn.{
  MuxConn, received, registers, awaits, unregisters, writer_ended, keeper_closed, acks_cleared,
}

-- What a listener spawns for an accepted connection: the parsed request, and what its peer sends.
pub data Job : Type 0 where
  local : Option Request → List Bytes → Job
  resilient : Option Request → List Bytes → Job
  socks : Option Bytes → List Bytes → Job

-- The running handlers with their stream ids, and the connection.
pub record Pool (Tx Ack : Type 0) : Type 0 where
  pub running : List (ℕ × Task)
  pub conn : MuxConn Tx Ack

-- A handler is spawned with an id; the n-th running handler makes its next call, answered by the
-- function, where `tx` and `ack` are the ends of a channel made by the call, or it returns; the reader
-- takes an item; the writer ends; the keeper closes the connection, or the one-shots
-- alone are cleared.
pub data Event (Tx Ack : Type 0) : Type 0 where
  spawned : ℕ → Job → Event Tx Ack
  moves : ℕ → ((c : Call) → Reply c) → Tx → Ack → Event Tx Ack
  arrives : Option Item → Event Tx Ack
  writer_stops : Event Tx Ack
  closes : Event Tx Ack
  clears_acks : Event Tx Ack

-- What is left of the handlers after the n-th moved.
unfoldable pub advance : ℕ → ((c : Call) → Reply c) → List (ℕ × Task) → List (ℕ × Task)
advance n answer [] = []
advance zero answer ((id, finish) ∷ ts) = ts
advance zero answer ((id, ask c k) ∷ ts) = (id, k (answer c)) ∷ ts
advance (suc n) answer (t ∷ ts) = t ∷ advance n answer ts

-- The call that the n-th handler makes.
unfoldable pub call_of : ℕ → List (ℕ × Task) → Option Call
call_of n [] = none
call_of zero ((id, finish) ∷ ts) = none
call_of zero ((id, ask c k) ∷ ts) = some c
call_of (suc n) (t ∷ ts) = call_of n ts

unfoldable pub handler : (Bytes → ℕ → Bool) → ℕ → Job → Task
handler should_bypass id (local request reads) =
    handle_local_connection should_bypass id request reads
handler should_bypass id (resilient request reads) =
    handle_local_connection_resilient should_bypass id request reads
handler should_bypass id (socks target reads) =
    handle_socks_connection_resilient should_bypass id target reads

module _ {Tx Ack : Type 0} where
  -- A call on the connection.
  unfoldable pub perform : Option Call → Tx → Ack → MuxConn Tx Ack → MuxConn Tx Ack
  perform (some (register id)) tx ack c = Conn.step (registers id tx) c
  perform (some (insert_ack id)) tx ack c = Conn.step (awaits id ack) c
  perform (some (close_stream id)) tx ack c = Conn.step (unregisters id) c
  perform _ tx ack c = c

  module _ (should_bypass : Bytes → ℕ → Bool) where
    unfoldable pub step : Event Tx Ack → Pool Tx Ack → Pool Tx Ack
    step (spawned id job) p = record p { running = (id, handler should_bypass id job) ∷ p.running }
    step (moves n answer tx ack) p = record {
      running = advance n answer p.running;
      conn = perform (call_of n p.running) tx ack p.conn;
    }
    step (arrives item) p = record p { conn = Conn.step (received item) p.conn }
    step writer_stops p = record p { conn = Conn.step writer_ended p.conn }
    step closes p = record p { conn = Conn.step keeper_closed p.conn }
    step clears_acks p = record p { conn = Conn.step acks_cleared p.conn }

    unfoldable pub run : List (Event Tx Ack) → Pool Tx Ack → Pool Tx Ack
    run [] p = p
    run (e ∷ es) p = run es (step e p)

  unfoldable pub start : Pool Tx Ack
  start = record { running = []; conn = Conn.new_conn }
