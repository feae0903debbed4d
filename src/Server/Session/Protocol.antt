-- ===== src/Server/Session/Protocol.antt =====
-- The frames that a session sends, by stream.
use echo_proxy_core.Base.{
  ℕ, ◌+◌, ◌<◌, ◌≡◌, refl, sym, ◌∙◌, inl, inr, Bool, true, false, ◌&&◌, Option, List, [], ◌∷◌, ◌++◌,
  arith, Bytes, ltb, ◌==◌, if◌then◌else◌, Bool-cases,
}
use mathlib.Core.List.{append-nil, append_assoc}
use echo_proxy_core.Frame.{Frame, hello, open_stream, open_ack, data_frame, close}
use echo_proxy_core.WebSocket.{Item}
use echo_proxy_core.Server.Session.{
  MuxSession, Reader, reading, acking, ended, Event, received, ack_sent, writer_ended, tcp_read,
  tcp_ended, relay_left, mem_id, without_id, start, send, handle_open, finish_open, deliver,
  dispatch, stop_reading, receive, reader_turn, relay_read, relay_end, step, run,
}

-- How many streams `id` were acknowledged as open, and how many were closed, by the frames sent.
abbrev pub acks : ℕ → List Frame → ℕ
acks id [] = 0
acks id (open_ack j true ∷ fs) = (if j == id then 1 else 0) + acks id fs
acks id (_ ∷ fs) = acks id fs

abbrev pub closes : ℕ → List Frame → ℕ
closes id [] = 0
closes id (close j ∷ fs) = (if j == id then 1 else 0) + closes id fs
closes id (_ ∷ fs) = closes id fs

abbrev pub count_id : ℕ → List ℕ → ℕ
count_id id [] = 0
count_id id (x ∷ xs) = (if x == id then 1 else 0) + count_id id xs

-- Whether `f` may follow the frames `fs`: the server sends no HELLO and no OPEN, and DATA and CLOSE
-- only for a stream that is open, that is, acknowledged more often than closed.
abbrev pub may_follow : List Frame → Frame → Bool
may_follow fs (hello t) = false
may_follow fs (open_stream id dest) = false
may_follow fs (open_ack id is_ok) = true
may_follow fs (data_frame id bytes) = ltb (closes id fs) (acks id fs)
may_follow fs (close id) = ltb (closes id fs) (acks id fs)

-- Every frame may follow those before it.
abbrev pub follows : List Frame → List Frame → Bool
follows before [] = true
follows before (f ∷ fs) = may_follow before f && follows (before ++ f ∷ []) fs

acks-append : (id : ℕ) (xs ys : List Frame) → acks id (xs ++ ys) ≡ acks id xs + acks id ys
acks-append id [] ys = omega arith
acks-append id (open_ack j true ∷ xs) ys = omega (arith, acks-append id xs ys)
acks-append id (open_ack j false ∷ xs) ys = acks-append id xs ys
acks-append id (_ ∷ xs) ys = acks-append id xs ys

closes-append : (id : ℕ) (xs ys : List Frame) → closes id (xs ++ ys) ≡ closes id xs + closes id ys
closes-append id [] ys = omega arith
closes-append id (close j ∷ xs) ys = omega (arith, closes-append id xs ys)
closes-append id (_ ∷ xs) ys = closes-append id xs ys

follows-concat :
    (before xs : List Frame) (f : Frame)
    → follows before xs ≡ true
    → may_follow (before ++ xs) f ≡ true
    → follows before (xs ++ f ∷ []) ≡ true
follows-concat before [] f h k = let k' = rw append-nil at k in ground arith
follows-concat before (x ∷ xs) f h k =
    let k' = rw (← append_assoc before (x ∷ []) xs) at k in
    ground (arith, follows-concat (before ++ x ∷ []) xs f (ground arith) k')

count-without_id :
    (id j : ℕ) (xs : List ℕ)
    → mem_id j xs ≡ true
    → count_id id (without_id j xs) + (if j == id then 1 else 0) ≡ count_id id xs
unfolding without_id
count-without_id id j [] h = absurd cc
count-without_id id j (x ∷ xs) h = ground (arith, count-without_id id j xs)

count-mem_id : (id : ℕ) (xs : List ℕ) → mem_id id xs ≡ true → 0 < count_id id xs
count-mem_id id [] h = absurd cc
count-mem_id id (x ∷ xs) h = ground (arith, count-mem_id id xs)

module _ {Tx : Type 0} where
  -- While the writer is up the open streams are those with a relay.
  pub record Inv (s : MuxSession Tx) : Type 0 where
    pub in_order : follows [] s.outbox ≡ true
    pub balance :
        s.writer_up ≡ true → (id : ℕ) → acks id s.outbox ≡ closes id s.outbox + count_id id s.relays

  Inv-same :
      {s t : MuxSession Tx}
      → t.outbox ≡ s.outbox
      → t.writer_up ≡ s.writer_up
      → t.relays ≡ s.relays
      → Inv s
      → Inv t
  Inv-same o w r v = record {
    in_order = rw o v.in_order;
    balance = λ up id. rw (o, r) (v.balance (sym w ∙ up) id);
  }

  -- The reader's turns send nothing and touch no relay.
  receive-Inv :
      (item : Option Item) (connected : Bool) (tx : Tx) (s : MuxSession Tx)
      → Inv s
      → Inv (receive item connected tx s)
  unfolding receive dispatch handle_open deliver stop_reading
  receive-Inv item connected tx s v = Inv-same (ground arith) (ground arith) (ground arith) v

  -- One send, with the relays `t.relays` after it.
  send-Inv :
      (f : Frame) {s t : MuxSession Tx}
      → t.outbox ≡ (send f s).outbox
      → t.writer_up ≡ s.writer_up
      → (s.writer_up ≡ true → may_follow s.outbox f ≡ true)
      → (s.writer_up ≡ true
          → (id : ℕ)
          → acks id s.outbox + acks id (f ∷ [])
            ≡ closes id s.outbox + closes id (f ∷ []) + count_id id t.relays)
      → Inv s
      → Inv t
  unfolding send
  send-Inv f {s} {t} o w m b v = elim (Bool-cases s.writer_up) [
    | inl up ↦
        let sent : t.outbox ≡ s.outbox ++ f ∷ [] = ground arith in
        record {
          in_order = rw sent (follows-concat [] s.outbox f v.in_order (m up));
          balance = λ _ id.
              rw (sent, acks-append id s.outbox (f ∷ []), closes-append id s.outbox (f ∷ []))
                (b up id);
        }
    | inr down ↦ record {
      in_order = let same : t.outbox ≡ s.outbox = ground arith in rw same v.in_order;
      balance = λ up id. absurd (ground arith);
    }
  ]

  relays-send : (f : Frame) (s : MuxSession Tx) → (send f s).relays ≡ s.relays
  unfolding send
  relays-send f s = ground arith

  finish_open-Inv : (r : Reader) (s : MuxSession Tx) → Inv s → Inv (finish_open r s)
  unfolding finish_open send
  finish_open-Inv reading s v = v
  finish_open-Inv ended s v = v
  finish_open-Inv (acking id true) s v =
      send-Inv (open_ack id true) refl (ground arith) (λ _. refl)
        (λ up j. rw (relays-send (open_ack id true) s) (omega (arith, v.balance up j))) v
  finish_open-Inv (acking id false) s v =
      send-Inv (open_ack id false) refl (ground arith) (λ _. refl)
        (λ up j. rw (relays-send (open_ack id false) s) (omega (arith, v.balance up j))) v

  relay_read-Inv :
      (id : ℕ) (bytes : Bytes) (s : MuxSession Tx)
      → mem_id id s.relays ≡ true
      → Inv s
      → Inv (relay_read id bytes s)
  unfolding relay_read send
  relay_read-Inv id bytes s h v = elim (Bool-cases s.writer_up) [
    | inl up ↦
        send-Inv (data_frame id bytes) (ground arith) (ground arith)
          (λ up. ground (arith, v.balance up id, count-mem_id id s.relays h))
          (λ up j.
            let e : (relay_read id bytes s).relays ≡ s.relays = ground arith in
            rw e (omega (arith, v.balance up j)))
          v
    | inr down ↦ record {
      in_order =
          let e : (relay_read id bytes s).outbox ≡ s.outbox = ground arith in rw e v.in_order;
      balance = λ up j. absurd (ground arith);
    }
  ]

  relay_end-Inv :
      (id : ℕ) (s : MuxSession Tx) → mem_id id s.relays ≡ true → Inv s → Inv (relay_end id s)
  unfolding relay_end send
  relay_end-Inv id s h v =
      send-Inv (close id) refl (ground arith)
        (λ up. ground (arith, v.balance up id, count-mem_id id s.relays h))
        (λ up j.
          rw (relays-send (close id) s)
            (omega (arith, v.balance up j, count-without_id j id s.relays h)))
        v

  reader_turn-Inv :
      (r : Reader) (item : Option Item) (connected : Bool) (tx : Tx) (s : MuxSession Tx)
      → Inv s
      → Inv (reader_turn r item connected tx s)
  unfolding reader_turn
  reader_turn-Inv reading item connected tx s v = receive-Inv item connected tx s v
  reader_turn-Inv _ item connected tx s v = v

  step-Inv : (e : Event Tx) (s : MuxSession Tx) → Inv s → Inv (step e s)
  unfolding step
  step-Inv (received item connected tx) s v = reader_turn-Inv s.reader item connected tx s v
  step-Inv ack_sent s v = finish_open-Inv s.reader s v
  step-Inv writer_ended s v = record { in_order = v.in_order; balance = λ up id. absurd cc }
  step-Inv (tcp_read id bytes) s v = elim (Bool-cases (mem_id id s.relays)) [
    | inl h ↦ rw (step, h) (relay_read-Inv id bytes s h v)
    | inr h ↦ rw (step, h) v
  ]
  step-Inv (tcp_ended id) s v = elim (Bool-cases (mem_id id s.relays)) [
    | inl h ↦ rw (step, h) (relay_end-Inv id s h v)
    | inr h ↦ rw (step, h) v
  ]
  step-Inv (relay_left id) s v = Inv-same (ground arith) (ground arith) (ground arith) v

  run-Inv : (es : List (Event Tx)) (s : MuxSession Tx) → Inv s → Inv (run es s)
  unfolding run
  run-Inv [] s v = v
  run-Inv (e ∷ es) s v = run-Inv es (step e s) (step-Inv e s v)

  start-Inv : Inv start
  unfolding start
  start-Inv = record { in_order = refl; balance = λ _ id. refl }

  -- In every interleaving of a session the server sends no HELLO and no OPEN, and it sends DATA and
  -- CLOSE for a stream only while that stream is acknowledged more often than closed.
  pub run-start-follows : (es : List (Event Tx)) → follows [] (run es start).outbox ≡ true
  run-start-follows es = (run-Inv es start start-Inv).in_order

  -- In every interleaving of a session, while the writer is up, each id has as many acknowledged
  -- streams as it has closed ones and running relays.
  pub run-start-balance :
      (es : List (Event Tx)) (id : ℕ)
      → (run es start).writer_up ≡ true
      → acks id (run es start).outbox
        ≡ closes id (run es start).outbox + count_id id (run es start).relays
  run-start-balance es id up = (run-Inv es start start-Inv).balance up id
