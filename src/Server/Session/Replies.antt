-- ===== src/Server/Session/Replies.antt =====
-- How a session answers an OPEN, and what is left of it once the stream has ended.
use echo_proxy_core.Base.{
  ℕ, ◌≡◌, refl, sym, ap, ◌∙◌, ◌≢◌, Bool, true, false, ◌&&◌, Option, none, some, List, [], ◌∷◌, ◌++◌,
  arith, Bytes, ◌==◌, if◌then◌else◌, All, Result, ok,
}
use mathlib.Core.List.{append-nil}
use echo_proxy_core.Frame.{Frame, open_stream, open_ack, data_frame, close, FrameError, decode}
use echo_proxy_core.Session
use echo_proxy_core.Session.{StreamRegistry, Delivery}
use echo_proxy_core.Session.Table.{lookup, lookup-remove, lookup-empty}
use echo_proxy_core.WebSocket.{Item, binary, ping}
use echo_proxy_core.Server.Ssrf.{is_dest_allowed}
use echo_proxy_core.Server.Session.{
  MuxSession, Reader, reading, acking, ended, Event, received, ack_sent, writer_ended, tcp_read,
  tcp_ended, relay_left, start, send, handle_open, finish_open, deliver, dispatch, stop_reading,
  receive, reader_turn, step, run,
}

-- What the OPEN_ACKs for stream `j` say, in their order.
abbrev pub open_acks : ℕ → List Frame → List Bool
open_acks j [] = []
open_acks j (open_ack id is_ok ∷ fs) =
    let rest = open_acks j fs in if id == j then is_ok ∷ rest else rest
open_acks j (_ ∷ fs) = open_acks j fs

open_acks-append :
    (j : ℕ) (xs ys : List Frame) → open_acks j (xs ++ ys) ≡ open_acks j xs ++ open_acks j ys
open_acks-append j [] ys = refl
open_acks-append j (open_ack id is_ok ∷ xs) ys = ground (arith, open_acks-append j xs ys)
open_acks-append j (_ ∷ xs) ys = open_acks-append j xs ys

module _ {Tx : Type 0} where
  -- After the reader loop no stream is registered.
  abbrev pub IsClosed : MuxSession Tx → Type 0
  IsClosed s = s.reader ≡ ended → (id : ℕ) → lookup id s.registry.inner ≡ none

  lookup-close :
      (id j : ℕ) (r : StreamRegistry Tx)
      → lookup j r.inner ≡ none
      → lookup j (Session.close id r).inner ≡ none
  unfolding Session.close
  lookup-close id j r h = rw (lookup-remove id j r.inner) (ground arith)

  lookup-close_all : (j : ℕ) (r : StreamRegistry Tx) → lookup j (Session.close_all r).inner ≡ none
  unfolding Session.close_all
  lookup-close_all j r = lookup-empty j

  dispatch-reader :
      (r : Result FrameError Frame) (connected : Bool) (tx : Tx) (s : MuxSession Tx)
      → s.reader ≡ reading
      → (dispatch r connected tx s).reader ≢ ended
  unfolding dispatch handle_open deliver
  dispatch-reader (ok (open_stream id dest)) connected tx s h e = ground arith
  dispatch-reader (ok (data_frame id bytes)) connected tx s h e = ground arith
  dispatch-reader (ok (close id)) connected tx s h e = cc
  dispatch-reader _ connected tx s h e = cc

  turn-IsClosed :
      (r : Reader) (item : Option Item) (connected : Bool) (tx : Tx) (s : MuxSession Tx)
      → s.reader ≡ r
      → IsClosed s
      → IsClosed (reader_turn r item connected tx s)
  unfolding reader_turn receive stop_reading
  turn-IsClosed reading none connected tx s e v = λ _ id. lookup-close_all id s.registry
  turn-IsClosed reading (some (binary d)) connected tx s e v =
      λ x id. absurd (dispatch-reader (decode d) connected tx s e x)
  turn-IsClosed reading (some ping) connected tx s e v = v
  turn-IsClosed reading (some _) connected tx s e v = λ _ id. lookup-close_all id s.registry
  turn-IsClosed _ item connected tx s e v = v

  finish-IsClosed :
      (r : Reader) (s : MuxSession Tx) → s.reader ≡ r → IsClosed s → IsClosed (finish_open r s)
  unfolding finish_open send
  finish-IsClosed (acking id true) s e v = λ x. absurd (ground arith)
  finish-IsClosed (acking id false) s e v = λ x. absurd (ground arith)
  finish-IsClosed _ s e v = v

  -- A step that leaves the reader alone and registers nothing.
  IsClosed-mono :
      (s t : MuxSession Tx)
      → t.reader ≡ s.reader
      → ((j : ℕ) → lookup j s.registry.inner ≡ none → lookup j t.registry.inner ≡ none)
      → IsClosed s
      → IsClosed t
  IsClosed-mono s t r k v = λ x id. k id (v (sym r ∙ x) id)

  step-IsClosed : (e : Event Tx) (s : MuxSession Tx) → IsClosed s → IsClosed (step e s)
  unfolding step send
  step-IsClosed (received item connected tx) s v = turn-IsClosed s.reader item connected tx s refl v
  step-IsClosed ack_sent s v = finish-IsClosed s.reader s refl v
  step-IsClosed writer_ended s v = λ x id. lookup-close_all id s.registry
  step-IsClosed (tcp_read id bytes) s v =
      IsClosed-mono s (step (tcp_read id bytes) s) (ground arith) (λ j h. ground arith) v
  step-IsClosed (tcp_ended id) s v =
      IsClosed-mono s (step (tcp_ended id) s) (ground arith) (λ j h. ground arith) v
  step-IsClosed (relay_left id) s v =
      IsClosed-mono s (step (relay_left id) s) (ground arith)
        (λ j h. ground (arith, lookup-close id j s.registry)) v

  run-IsClosed : (es : List (Event Tx)) (s : MuxSession Tx) → IsClosed s → IsClosed (run es s)
  unfolding run
  run-IsClosed [] s v = v
  run-IsClosed (e ∷ es) s v = run-IsClosed es (step e s) (step-IsClosed e s v)

  start-IsClosed : IsClosed start
  unfolding start
  start-IsClosed = λ x id. absurd cc

  -- In every interleaving of a session, once the reader loop has ended no stream is registered, and
  -- none is registered again.
  pub run-start-lookup :
      (es : List (Event Tx)) (id : ℕ)
      → (run es start).reader ≡ ended
      → lookup id (run es start).registry.inner ≡ none
  run-start-lookup es id h = run-IsClosed es start start-IsClosed h id

  -- The events of the other tasks, while an OPEN is being handled and the writer is up.
  abbrev pub IsRelayEvent : Event Tx → Type 0
  IsRelayEvent (tcp_read id bytes) = Unit
  IsRelayEvent (tcp_ended id) = Unit
  IsRelayEvent (relay_left id) = Unit
  IsRelayEvent _ = ⊥

  step-relay :
      (e : Event Tx) (s : MuxSession Tx)
      → IsRelayEvent e
      → ((step e s).reader ≡ s.reader) × ((step e s).writer_up ≡ s.writer_up)
  unfolding step send
  step-relay (tcp_read id bytes) s h = ground arith
  step-relay (tcp_ended id) s h = ground arith
  step-relay (relay_left id) s h = ground arith
  step-relay (received item connected tx) s h = elim h [ ]
  step-relay ack_sent s h = elim h [ ]
  step-relay writer_ended s h = elim h [ ]

  run-relay :
      (es : List (Event Tx)) (s : MuxSession Tx)
      → All IsRelayEvent es
      → ((run es s).reader ≡ s.reader) × ((run es s).writer_up ≡ s.writer_up)
  unfolding run
  run-relay [] s h = (refl, refl)
  run-relay (e ∷ es) s h = ground (arith, step-relay e s h.0, run-relay es (step e s) h.1)

  open-reader :
      (d : Bytes) (id : ℕ) (dest : Bytes) (connected : Bool) (tx : Tx) (s : MuxSession Tx)
      → s.reader ≡ reading
      → decode d ≡ ok (open_stream id dest)
      → ((step (received (some (binary d)) connected tx) s).reader
          ≡ acking id (is_dest_allowed dest && connected))
        × ((step (received (some (binary d)) connected tx) s).writer_up ≡ s.writer_up)
  unfolding step handle_open
  open-reader d id dest connected tx s r e = ground arith

  ack-outbox :
      (id : ℕ) (is_ok : Bool) (s : MuxSession Tx)
      → s.reader ≡ acking id is_ok
      → s.writer_up ≡ true
      → ((step ack_sent s).outbox ≡ s.outbox ++ open_ack id is_ok ∷ [])
        × ((step ack_sent s).reader ≡ reading)
  unfolding step send
  ack-outbox id true s r up = ground arith
  ack-outbox id false s r up = ground arith

  -- The session after an OPEN in `d` was taken and the other tasks made the steps `es`.
  abbrev pub opened : Bytes → Bool → Tx → List (Event Tx) → MuxSession Tx → MuxSession Tx
  opened d connected tx es s = run es (step (received (some (binary d)) connected tx) s)

  step-open_acks :
      (j : ℕ) (e : Event Tx) (s : MuxSession Tx)
      → IsRelayEvent e
      → open_acks j (step e s).outbox ≡ open_acks j s.outbox
  unfolding step send
  step-open_acks j (tcp_read id bytes) s h =
      grind (arith, open_acks-append j s.outbox (data_frame id bytes ∷ []), append-nil)
  step-open_acks j (tcp_ended id) s h =
      grind (arith, open_acks-append j s.outbox (close id ∷ []), append-nil)
  step-open_acks j (relay_left id) s h = ground arith
  step-open_acks j (received item connected tx) s h = elim h [ ]
  step-open_acks j ack_sent s h = elim h [ ]
  step-open_acks j writer_ended s h = elim h [ ]

  run-open_acks :
      (j : ℕ) (es : List (Event Tx)) (s : MuxSession Tx)
      → All IsRelayEvent es
      → open_acks j (run es s).outbox ≡ open_acks j s.outbox
  unfolding run
  run-open_acks j [] s h = refl
  run-open_acks j (e ∷ es) s h = run-open_acks j es (step e s) h.1 ∙ step-open_acks j e s h.0

  open-outbox :
      (d : Bytes) (id : ℕ) (dest : Bytes) (connected : Bool) (tx : Tx) (s : MuxSession Tx)
      → s.reader ≡ reading
      → decode d ≡ ok (open_stream id dest)
      → (step (received (some (binary d)) connected tx) s).outbox ≡ s.outbox
  unfolding step handle_open
  open-outbox d id dest connected tx s r e = ground arith

  -- An OPEN that the reader takes while the writer is up is answered by one OPEN_ACK for its id, the
  -- last frame then, whatever the relays do in between, with success exactly if the destination is
  -- allowed and the connection was made; no other OPEN_ACK is sent for any id, and the reader goes on.
  pub run-open :
      (d : Bytes) (id j : ℕ) (dest : Bytes) (connected : Bool) (tx : Tx) (es : List (Event Tx))
      (s : MuxSession Tx)
      → s.reader ≡ reading
      → s.writer_up ≡ true
      → decode d ≡ ok (open_stream id dest)
      → All IsRelayEvent es
      → ((step ack_sent (opened d connected tx es s)).outbox
          ≡ (opened d connected tx es s).outbox
            ++ open_ack id (is_dest_allowed dest && connected) ∷ [])
        × (open_acks j (step ack_sent (opened d connected tx es s)).outbox
            ≡ open_acks j s.outbox
              ++ (if id == j then (is_dest_allowed dest && connected) ∷ [] else []))
        × ((step ack_sent (opened d connected tx es s)).reader ≡ reading)
  run-open d id j dest connected tx es s r up e h =
      let o = open-reader d id dest connected tx s r e in
      let k = run-relay es (step (received (some (binary d)) connected tx) s) h in
      let q =
        ack-outbox id (is_dest_allowed dest && connected) (opened d connected tx es s) (k.0 ∙ o.0)
          (k.1 ∙ o.1 ∙ up) in
      let before =
        run-open_acks j es (step (received (some (binary d)) connected tx) s) h
        ∙ ap (open_acks j) (open-outbox d id dest connected tx s r e) in
      (
        q.0,
        ap (open_acks j) q.0
            ∙ open_acks-append j (opened d connected tx es s).outbox _
            ∙ ap (λ l. l ++ (if id == j then (is_dest_allowed dest && connected) ∷ [] else []))
                before,
        q.1,
      )
