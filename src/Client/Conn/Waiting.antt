-- ===== src/Client/Conn/Waiting.antt =====
-- Until when a handler waits for its OPEN_ACK: as long as the sending end of its one-shot channel is
-- in `pending_acks`.
use echo_proxy_core.Base.{
  ℕ, ◌≡◌, refl, ap, ◌∙◌, ◌≢◌, Bool, true, false, Option, none, some, List, [], ◌∷◌, arith, ◌==◌,
  if◌then◌else◌, All, Result, ok,
}
use echo_proxy_core.Frame.{Frame, open_ack, data_frame, close, FrameError, decode}
use echo_proxy_core.Session.Table.{lookup, lookup-insert, lookup-remove, lookup-empty}
use echo_proxy_core.WebSocket.{Item, binary, ping}
use echo_proxy_core.Client.Conn.{
  MuxConn, Event, received, registers, awaits, unregisters, writer_ended, keeper_closed,
  acks_cleared, close_conn, resolve, dispatch, deliver, receive, stop_reading, step, run,
}
use echo_proxy_core.Client.Conn.Streams.{goes_on}

module _ {Ack : Type 0} where
  abbrev pub answered_by : ℕ → Result FrameError Frame → Option Ack → Option Ack
  answered_by id (ok (open_ack j is_ok)) w = if j == id then none else w
  answered_by id _ w = w

  abbrev pub told : ℕ → Option Item → Option Ack → Option Ack
  told id (some (binary d)) w = answered_by id (decode d) w
  told id (some ping) w = w
  told id _ w = none

-- An OPEN_ACK for `id`, or anything that ends the reader.
abbrev pub EndsWait : ℕ → Option Item → Type 0
EndsWait id (some (binary d)) = (is_ok : Bool) × (decode d ≡ ok (open_ack id is_ok))
EndsWait id (some ping) = ⊥
EndsWait id _ = Unit

told-EndsWait :
    {Ack : Type 0} (id : ℕ) (item : Option Item) (w : Option Ack)
    → EndsWait id item
    → told id item w ≡ none
told-EndsWait id (some (binary d)) w (is_ok, h) = ground arith
told-EndsWait id (some ping) w h = elim h [ ]
told-EndsWait id none w h = refl
told-EndsWait id (some _) w h = refl

answered_by-none :
    {Ack : Type 0} (id : ℕ) (r : Result FrameError Frame) → answered_by {Ack = Ack} id r none ≡ none
answered_by-none id (ok (open_ack j is_ok)) = ground arith
answered_by-none id _ = refl

module _ {Tx Ack : Type 0} where
  -- The one-shot that waits for `id` after one event, from the events alone, and whether the reader
  -- still reads: the last one inserted that no OPEN_ACK for `id` and no end of the connection followed.
  abbrev pub waiting_after : ℕ → Event Tx Ack → Bool × Option Ack → Bool × Option Ack
  waiting_after id (received item) (true, w) = (goes_on item, told id item w)
  waiting_after id (received item) (false, w) = (false, w)
  waiting_after id (registers j tx) (up, w) = (up, w)
  waiting_after id (awaits j ack) (up, w) = (up, if j == id then some ack else w)
  waiting_after id (unregisters j) (up, w) = (up, w)
  waiting_after id writer_ended (up, w) = (up, w)
  waiting_after id keeper_closed (up, w) = (up, none)
  waiting_after id acks_cleared (up, w) = (up, none)

  abbrev pub waiting : ℕ → List (Event Tx Ack) → Bool × Option Ack → Bool × Option Ack
  waiting id [] s = s
  waiting id (e ∷ es) s = waiting id es (waiting_after id e s)

  abbrev pub waits : ℕ → MuxConn Tx Ack → Bool × Option Ack
  waits id c = (c.reading, lookup id c.pending_acks)

  resolve-waits :
      (id j : ℕ) (is_ok : Bool) (c : MuxConn Tx Ack)
      → waits id (resolve j is_ok c)
        ≡ (c.reading, if j == id then none else lookup id c.pending_acks)
  unfolding resolve
  resolve-waits id j is_ok c = ground (arith, lookup-remove j id c.pending_acks)

  dispatch-waits :
      (id : ℕ) (r : Result FrameError Frame) (c : MuxConn Tx Ack)
      → waits id (dispatch r c) ≡ (c.reading, answered_by id r (lookup id c.pending_acks))
  unfolding dispatch deliver
  dispatch-waits id (ok (open_ack j is_ok)) c = resolve-waits id j is_ok c
  dispatch-waits id (ok (data_frame j bytes)) c = ground arith
  dispatch-waits id (ok (close j)) c = refl
  dispatch-waits id _ c = refl

  stop-waits : (id : ℕ) (c : MuxConn Tx Ack) → waits id (stop_reading c) ≡ (false, none)
  unfolding stop_reading
  stop-waits id c = ground (arith, lookup-empty {V = Ack} id)

  receive-waits :
      (id : ℕ) (item : Option Item) (c : MuxConn Tx Ack)
      → c.reading ≡ true
      → waits id (receive item c) ≡ (goes_on item, told id item (lookup id c.pending_acks))
  unfolding receive
  receive-waits id (some (binary d)) c h = ground (arith, dispatch-waits id (decode d) c)
  receive-waits id (some ping) c h = ground arith
  receive-waits id none c h = stop-waits id c
  receive-waits id (some _) c h = stop-waits id c

  step-waits :
      (id : ℕ) (e : Event Tx Ack) (c : MuxConn Tx Ack)
      → waits id (step e c) ≡ waiting_after id e (waits id c)
  unfolding step close_conn
  step-waits id (received item) c = ground (arith, receive-waits id item c)
  step-waits id (registers j tx) c = refl
  step-waits id (awaits j ack) c = ground (arith, lookup-insert j id ack c.pending_acks)
  step-waits id (unregisters j) c = refl
  step-waits id writer_ended c = refl
  step-waits id keeper_closed c = ground (arith, lookup-empty {V = Ack} id)
  step-waits id acks_cleared c = ground (arith, lookup-empty {V = Ack} id)

  -- In every interleaving the one-shot that `pending_acks` has for an id is the last one inserted,
  -- unless an OPEN_ACK for the id, the end of the reader, the keeper's close or a clearing came since.
  pub run-waits :
      (id : ℕ) (es : List (Event Tx Ack)) (c : MuxConn Tx Ack)
      → waits id (run es c) ≡ waiting id es (waits id c)
  unfolding run
  run-waits id [] c = refl
  run-waits id (e ∷ es) c = run-waits id es (step e c) ∙ ap (waiting id es) (step-waits id e c)

  -- What ends every wait for `id`, at a connection whose reader runs or not.
  abbrev pub Releases : ℕ → Event Tx Ack → Bool → Type 0
  Releases id (received item) up = (up ≡ true) × EndsWait id item
  Releases id keeper_closed up = Unit
  Releases id acks_cleared up = Unit
  Releases id _ up = ⊥

  abbrev pub IsNoWait : ℕ → Event Tx Ack → Type 0
  IsNoWait id (awaits j ack) = j ≢ id
  IsNoWait id _ = Unit

  after-Releases :
      (id : ℕ) (e : Event Tx Ack) (up : Bool) (w : Option Ack)
      → Releases id e up
      → (waiting_after id e (up, w)).1 ≡ none
  after-Releases id (received item) true w h = told-EndsWait id item w h.1
  after-Releases id (received item) false w h = absurd (ground (arith, h.0))
  after-Releases id keeper_closed up w h = refl
  after-Releases id acks_cleared up w h = refl
  after-Releases id (registers j tx) up w h = elim h [ ]
  after-Releases id (awaits j ack) up w h = elim h [ ]
  after-Releases id (unregisters j) up w h = elim h [ ]
  after-Releases id writer_ended up w h = elim h [ ]

  after-IsNoWait :
      (id : ℕ) (e : Event Tx Ack) (up : Bool)
      → IsNoWait id e
      → (waiting_after id e (up, none)).1 ≡ none
  after-IsNoWait id (received none) true h = refl
  after-IsNoWait id (received (some (binary d))) true h = answered_by-none id (decode d)
  after-IsNoWait id (received (some _)) true h = refl
  after-IsNoWait id (received item) false h = refl
  after-IsNoWait id (awaits j ack) up h = ground arith
  after-IsNoWait id _ up h = refl

  waiting-none :
      (id : ℕ) (es : List (Event Tx Ack)) (s : Bool × Option Ack)
      → s.1 ≡ none
      → All (IsNoWait id) es
      → (waiting id es s).1 ≡ none
  waiting-none id [] s n h = n
  waiting-none id (e ∷ es) (up, w) n h =
      waiting-none id es (waiting_after id e (up, w)) (rw n (after-IsNoWait id e up h.0)) h.1

  -- No wait outlives what ends it: after an OPEN_ACK for the id that the reader takes, the end of the
  -- reader, the keeper's close or a clearing of the table alone, no one-shot is left for the id until another is inserted, so a
  -- handler that waits there goes on.
  pub run-Releases :
      (id : ℕ) (e : Event Tx Ack) (es : List (Event Tx Ack)) (c : MuxConn Tx Ack)
      → Releases id e c.reading
      → All (IsNoWait id) es
      → lookup id (run es (step e c)).pending_acks ≡ none
  run-Releases id e es c r h =
      ap (λ s. s.1) (run-waits id es (step e c))
      ∙ waiting-none id es (waits id (step e c))
          (ap (λ s. s.1) (step-waits id e c)
            ∙ after-Releases id e c.reading (lookup id c.pending_acks) r)
          h
