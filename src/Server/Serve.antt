-- ===== src/Server/Serve.antt =====
-- server/src/lib.rs: the accept loop of `serve`, with the tasks of `accept_connection` that it spawns
-- and the shutdown channel whose receivers they all hold. A task listens to the channel only behind its
-- peek and its handshake; the writer and the relays that a session spawns never do, and are not here. The channel is that of async-channel with room for one message: each
-- message goes to one receiver, and a closed, empty channel ends every `recv`.
pub mod Shutdown
use echo_proxy_core.Base.{
  ℕ, zero, suc, ◌+◌, ◌-◌, ◌*◌, ◌/◌, ◌%◌, ◌^◌, ◌≤◌, ◌<◌, min, String, ◌≡◌, refl, sym, ap, ◌∙◌, subst,
  ◌≢◌, ◌↔◌, ◌⊎◌, inl, inr, Bool, true, false, not, ◌&&◌, ◌||◌, Option, none, some, List, [], ◌∷◌,
  ◌++◌, map, reverse, arith, Bytes, codes, ltb, leb, ◌==◌, if◌then◌else◌, within, leb→le, ltb→lt,
  lt→ltb, ==_iff, Bool-cases, Option-cases, bytes_eq, bytes_eq_sound, bytes_eq_refl, bytes_eq_iff,
  length, take, drop, get_elem?, any, all, All, length-append, take-append, drop-append,
  take-append-drop, length-take, length-drop, any-split, any-append, append_laws, Result, ok, err,
  guard, or_default, or_else, >>=-eq-some,
}

-- A connection is accepted, or cannot be; `send(())` on the shutdown channel, or the last sender is
-- dropped; the loop's `recv` is chosen; a connection's task comes to its `select!`; its `recv` is
-- chosen there; the task ends by itself.
pub data Event (E : Type 0) : Type 0 where
  accepted : Event E
  accept_failed : E → Event E
  sent : Event E
  sender_dropped : Event E
  loop_hears : Event E
  task_listens : ℕ → Event E
  task_hears : ℕ → Event E
  task_ends : ℕ → Event E

-- Connections are numbered in the order of their acceptance; `live` are those whose task runs,
-- `listening` those past their handshake, and `stopped` those whose task heard the shutdown, latest
-- first.
pub record Service (E : Type 0) : Type 0 where
  pub next : ℕ
  pub live : List ℕ
  pub listening : List ℕ
  pub stopped : List ℕ
  pub is_serving : Bool
  pub returned : Option (Result E (Unit {0}))
  pub message : Bool
  pub closed : Bool

abbrev pub mem_id : ℕ → List ℕ → Bool
mem_id i [] = false
mem_id i (x ∷ xs) = x == i || mem_id i xs

abbrev pub without_id : ℕ → List ℕ → List ℕ
without_id i [] = []
without_id i (x ∷ xs) = if x == i then without_id i xs else x ∷ without_id i xs

module _ {E : Type 0} where
  unfoldable pub start : Service E
  start = record {
    next = 0;
    live = [];
    listening = [];
    stopped = [];
    is_serving = true;
    returned = none;
    message = false;
    closed = false;
  }

  abbrev pub has_signal : Service E → Bool
  has_signal s = s.message || s.closed

  -- `recv` takes the message, if there is one.
  unfoldable pub take_signal : Service E → Service E
  take_signal s = record s { message = false }

  unfoldable pub end_loop : Result E (Unit {0}) → Service E → Service E
  end_loop result s = record s { is_serving = false; returned = some result }

  abbrev leave : ℕ → Service E → Service E
  leave i s = record s { live = without_id i s.live; listening = without_id i s.listening }

  -- A task that is not at its `select!` hears nothing.
  unfoldable pub step : Event E → Service E → Service E
  unfolding take_signal end_loop
  step accepted s =
      if s.is_serving then record s { next = suc s.next; live = s.next ∷ s.live } else s
  step (accept_failed e) s = if s.is_serving then end_loop (err e) s else s
  step sent s = if s.closed then s else record s { message = true }
  step sender_dropped s = record s { closed = true }
  step loop_hears s = if s.is_serving && has_signal s then end_loop (ok tt) (take_signal s) else s
  step (task_listens i) s =
      if mem_id i s.live && not (mem_id i s.listening)
      then record s { listening = i ∷ s.listening }
      else s
  step (task_hears i) s =
      if mem_id i s.listening && has_signal s
      then record (leave i (take_signal s)) { stopped = i ∷ s.stopped }
      else s
  step (task_ends i) s = leave i s

  unfoldable pub run : List (Event E) → Service E → Service E
  run [] s = s
  run (e ∷ es) s = run es (step e s)
