-- ===== src/Client/Pool/Registered.antt =====
-- Which streams are registered while the handlers of a connection run.
use echo_proxy_core.Base.{
  ℕ, ◌≡◌, refl, ap, ◌∙◌, ◌⊎◌, inl, inr, Bool, true, false, Option, none, some, List, [], ◌∷◌, arith,
  Bytes, ◌==◌, Bool-cases, Result, ok,
}
use echo_proxy_core.WebSocket.{Item, binary}
use echo_proxy_core.Frame.{Frame, close, FrameError, decode}
use echo_proxy_core.Session
use echo_proxy_core.Session.Table.{lookup, lookup-empty}
use echo_proxy_core.Client.Task.{Call, Reply, register, insert_ack, close_stream}
use echo_proxy_core.Client.Handlers.Protocol.{Phase, idle, Settles, handlers-Settle}
use echo_proxy_core.Client.Conn
use echo_proxy_core.Client.Conn.{
  MuxConn, received, registers, awaits, unregisters, writer_ended, keeper_closed, acks_cleared,
}
use echo_proxy_core.Client.Conn.Streams.{step-seen, seen, channel_after, heard, closed_by}
use echo_proxy_core.Client.Pool.{
  Job, local, resilient, socks, Pool, Event, spawned, moves, arrives, writer_stops, closes,
  clears_acks, advance, call_of, perform, handler, step, run, start,
}
use echo_proxy_core.Client.Pool.Phases.{
  Tracked, open_in, runs, open_in-runs, phases, advance-Tracked, advance-open_in, advance-register,
}

handler-Settles :
    (route : Bytes → ℕ → Bool) (id : ℕ) (job : Job) → Settles id (handler route id job)
unfolding handler
handler-Settles route id (local request reads) = (handlers-Settle route id reads request none).0
handler-Settles route id (resilient request reads) = (handlers-Settle route id reads request none).1
handler-Settles route id (socks target reads) = (handlers-Settle route id reads none target).2

module _ {Tx : Type 0} where
  closed_by-none : (i : ℕ) (r : Result FrameError Frame) → closed_by {Tx = Tx} i r none ≡ none
  closed_by-none i (ok (close j)) = ground arith
  closed_by-none i _ = refl

  heard-none : (i : ℕ) (item : Option Item) → heard {Tx = Tx} i item none ≡ none
  heard-none i none = refl
  heard-none i (some (binary d)) = closed_by-none i (decode d)
  heard-none i (some _) = refl

module _ {Tx Ack : Type 0} where
  abbrev stream_of : ℕ → MuxConn Tx Ack → Option Tx
  stream_of i c = lookup i c.registry.inner

  step-stream_of :
      (i : ℕ) (e : Conn.Event Tx Ack) (c : MuxConn Tx Ack)
      → stream_of i (Conn.step e c) ≡ (channel_after i e (seen i c)).1
  step-stream_of i e c = ap (λ s. s.1) (step-seen i e c)

  -- Each registered stream belongs to a handler that has yet to unregister it.
  Inv : Pool Tx Ack → Type 0
  Inv p =
      (ps : List Phase) × Tracked p.running ps
      × ((i : ℕ) → (stream_of i p.conn ≡ none) ⊎ (open_in i p.running ps ≡ true))

  -- A connection event that registers nothing.
  abbrev IsQuiet : Conn.Event Tx Ack → Type 0
  IsQuiet (registers j tx) = ⊥
  IsQuiet _ = Unit

  quiet-stream_of :
      (i : ℕ) (e : Conn.Event Tx Ack) (c : MuxConn Tx Ack)
      → IsQuiet e
      → stream_of i c ≡ none
      → stream_of i (Conn.step e c) ≡ none
  quiet-stream_of i e c q n = step-stream_of i e c ∙ after e c.reading q
    where
      after :
          (e : Conn.Event Tx Ack) (up : Bool)
          → IsQuiet e
          → (channel_after i e (up, stream_of i c)).1 ≡ none
      after (received item) true q = rw n (heard-none i item)
      after (received item) false q = n
      after (registers j tx) up q = elim q [ ]
      after (awaits j ack) up q = n
      after (unregisters j) up q = ground (arith, n)
      after writer_ended up q = refl
      after keeper_closed up q = refl
      after acks_cleared up q = n

  perform-stream_of :
      (i : ℕ) (call : Option Call) (tx : Tx) (ack : Ack) (c : MuxConn Tx Ack)
      → stream_of i c ≡ none
      → (call ≡ some (register i)) ⊎ (stream_of i (perform call tx ack c) ≡ none)
  unfolding perform
  perform-stream_of i (some (register j)) tx ack c n = elim (Bool-cases (j == i)) [
    | inl e ↦ inl (let d : j ≡ i = ground arith in ap (λ k. some (register k)) d)
    | inr e ↦ inr (step-stream_of i (registers j tx) c ∙ ground (arith, n))
  ]
  perform-stream_of i (some (insert_ack j)) tx ack c n =
      inr (quiet-stream_of i (awaits j ack) c tt n)
  perform-stream_of i (some (close_stream j)) tx ack c n =
      inr (quiet-stream_of i (unregisters j) c tt n)
  perform-stream_of i none tx ack c n = inr n
  perform-stream_of i (some _) tx ack c n = inr n

  perform-close_stream :
      (i : ℕ) (tx : Tx) (ack : Ack) (c : MuxConn Tx Ack)
      → stream_of i (perform (some (close_stream i)) tx ack c) ≡ none
  unfolding perform
  perform-close_stream i tx ack c = step-stream_of i (unregisters i) c ∙ ground arith

  moves-open :
      (i n : ℕ) (answer : (c : Call) → Reply c) (tx : Tx) (ack : Ack) (p : Pool Tx Ack)
      (ps : List Phase)
      → Tracked p.running ps
      → (stream_of i p.conn ≡ none) ⊎ (open_in i p.running ps ≡ true)
      → (stream_of i (perform (call_of n p.running) tx ack p.conn) ≡ none)
        ⊎ (open_in i (advance n answer p.running) (phases answer n p.running ps) ≡ true)
  moves-open i n answer tx ack p ps t (inl h) =
      elim (perform-stream_of i (call_of n p.running) tx ack p.conn h) [
        | inl r ↦ inr (advance-register answer i n p.running ps t r)
        | inr k ↦ inl k
      ]
  moves-open i n answer tx ack p ps t (inr h) = elim (advance-open_in answer i n p.running ps t h) [
    | inl r ↦ inl (rw r (perform-close_stream i tx ack p.conn))
    | inr k ↦ inr k
  ]

  module _ (route : Bytes → ℕ → Bool) where
    connection-open :
        (e : Conn.Event Tx Ack) (p : Pool Tx Ack) (ps : List Phase)
        → IsQuiet e
        → ((i : ℕ) → (stream_of i p.conn ≡ none) ⊎ (open_in i p.running ps ≡ true))
        → (i : ℕ) → (stream_of i (Conn.step e p.conn) ≡ none) ⊎ (open_in i p.running ps ≡ true)
    connection-open e p ps q h i = elim (h i) [
      | inl n ↦ inl (quiet-stream_of i e p.conn q n)
      | inr o ↦ inr o
    ]

    step-Inv : (e : Event Tx Ack) (p : Pool Tx Ack) → Inv p → Inv (step route e p)
    unfolding step Inv
    step-Inv (spawned id job) p (ps, t, o) = (
      idle ∷ ps,
      (handler-Settles route id job, t),
      λ i. elim (o i) [ inl n ↦ inl n | inr h ↦ inr (ground (arith, h)) ],
    )
    step-Inv (moves n answer tx ack) p (ps, t, o) = (
      phases answer n p.running ps,
      advance-Tracked answer n p.running ps t,
      λ i. moves-open i n answer tx ack p ps t (o i),
    )
    step-Inv (arrives item) p (ps, t, o) = (ps, t, connection-open (received item) p ps tt o)
    step-Inv writer_stops p (ps, t, o) = (ps, t, connection-open writer_ended p ps tt o)
    step-Inv closes p (ps, t, o) = (ps, t, connection-open keeper_closed p ps tt o)
    step-Inv clears_acks p (ps, t, o) = (ps, t, connection-open acks_cleared p ps tt o)

    run-Inv : (es : List (Event Tx Ack)) (p : Pool Tx Ack) → Inv p → Inv (run route es p)
    unfolding run
    run-Inv [] p v = v
    run-Inv (e ∷ es) p v = run-Inv es (step route e p) (step-Inv e p v)

    -- In every interleaving of any handlers, of any ids, with the reader, the writer and the keeper of
    -- their connection, each stream that is registered has a handler of its id that still runs. So
    -- when no handler runs no stream is left.
    pub run-start-runs :
        (es : List (Event Tx Ack)) (i : ℕ) (tx : Tx)
        → lookup i (run route es start).conn.registry.inner ≡ some tx
        → runs i (run route es start).running ≡ true
    unfolding Inv start Conn.new_conn Session.new
    run-start-runs es i tx h =
        let (ps, t, o) = run-Inv es start ([], tt, λ i. inl (lookup-empty {V = Tx} i)) in
        elim (o i) [
          | inl n ↦ absurd (ground (arith, h, n))
          | inr k ↦ open_in-runs i (run route es start).running ps k
        ]
