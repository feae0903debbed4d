-- ===== src/Client/Conn/Acks.antt =====
-- The one-shot channels on which handlers wait for OPEN_ACK.
use echo_proxy_core.Base.{
  ℕ, ◌+◌, ◌≤◌, ◌≡◌, refl, inl, inr, Bool, Option, some, List, [], ◌∷◌, arith, if◌then◌else◌,
  Option-cases, Result, ok,
}
use echo_proxy_core.Frame.{Frame, open_ack, data_frame, close, FrameError, decode}
use echo_proxy_core.Session.Table.{empty, remove, total, total-remove, total-insert}
use echo_proxy_core.WebSocket.{Item, binary, ping}
use echo_proxy_core.Client.Conn.{
  MuxConn, Event, received, registers, awaits, unregisters, writer_ended, keeper_closed,
  acks_cleared, new_conn, close_conn, resolve, dispatch, deliver, receive, stop_reading, step, run,
}

-- How many of the answers went to a channel that satisfies `p`.
abbrev pub answers : {Ack : Type 0} → (Ack → Bool) → List (Ack × Bool) → ℕ
answers p [] = 0
answers p ((ack, is_ok) ∷ xs) = (if p ack then 1 else 0) + answers p xs

total-empty : {Ack : Type 0} (p : Ack → Bool) → total p (empty {V = Ack}) ≡ 0
unfolding empty
total-empty p = refl

module _ {Tx Ack : Type 0} (p : Ack → Bool) where
  -- How many such channels an event inserts, and a run.
  abbrev pub inserted : Event Tx Ack → ℕ
  inserted (awaits id ack) = if p ack then 1 else 0
  inserted _ = 0

  abbrev pub insertions : List (Event Tx Ack) → ℕ
  insertions [] = 0
  insertions (e ∷ es) = inserted e + insertions es

  -- The answers given and those that may still be given.
  abbrev used : MuxConn Tx Ack → ℕ
  used c = answers p c.acked + total p c.pending_acks

  resolve-used : (id : ℕ) (is_ok : Bool) (c : MuxConn Tx Ack) → used (resolve id is_ok c) ≤ used c
  unfolding resolve
  resolve-used id is_ok c = elim (Option-cases (remove id c.pending_acks).0) [
    | inl n ↦ rw (resolve, n) (omega (arith, total-remove p id c.pending_acks))
    | inr (ack, n) ↦
        rw (resolve, n) (let k = rw n at (total-remove p id c.pending_acks) in omega (arith, k))
  ]

  dispatch-used : (r : Result FrameError Frame) (c : MuxConn Tx Ack) → used (dispatch r c) ≤ used c
  unfolding dispatch deliver
  dispatch-used (ok (open_ack id is_ok)) c = resolve-used id is_ok c
  dispatch-used (ok (data_frame id bytes)) c = ground arith
  dispatch-used (ok (close id)) c = omega arith
  dispatch-used _ c = omega arith

  receive-used : (item : Option Item) (c : MuxConn Tx Ack) → used (receive item c) ≤ used c
  unfolding receive stop_reading
  receive-used (some (binary d)) c = dispatch-used (decode d) c
  receive-used (some ping) c = omega arith
  receive-used _ c = omega (arith, total-empty p)

  step-used : (e : Event Tx Ack) (c : MuxConn Tx Ack) → used (step e c) ≤ inserted e + used c
  unfolding step close_conn
  step-used (received item) c = ground (arith, receive-used item c)
  step-used (registers id tx) c = omega arith
  step-used (awaits id ack) c = omega (arith, total-insert p id ack c.pending_acks)
  step-used (unregisters id) c = omega arith
  step-used writer_ended c = omega arith
  step-used keeper_closed c = omega (arith, total-empty p)
  step-used acks_cleared c = omega (arith, total-empty p)

  run-used :
      (es : List (Event Tx Ack)) (c : MuxConn Tx Ack) → used (run es c) ≤ insertions es + used c
  unfolding run
  run-used [] c = omega arith
  run-used (e ∷ es) c = omega (arith, run-used es (step e c), step-used e c)

  -- In every interleaving from a new connection the one-shot channels that satisfy `p`, for any test
  -- `p` of a channel, are sent at most as many OPEN_ACKs as they were inserted: each insertion is
  -- answered at most once, however many OPEN_ACKs come for its id.
  pub answers-le-insertions :
      (es : List (Event Tx Ack)) → answers p (run es new_conn).acked ≤ insertions es
  unfolding new_conn
  answers-le-insertions es = omega (arith, run-used es new_conn, total-empty p)
