-- ===== src/Tunnel/Downloads.antt =====
-- What the server's relays put on the wire for one stream.
use echo_proxy_core.Base.{
  ℕ, ◌≡◌, refl, sym, ap, ◌∙◌, subst, ◌⊎◌, inl, inr, Bool, true, false, ◌&&◌, List, [], ◌∷◌, ◌++◌,
  arith, Bytes, ◌==◌, if◌then◌else◌, Bool-cases, Option-cases, get_elem?,
}
use mathlib.Core.List.{Sublist, append_assoc, append-nil, sublist-append_left}
use mathlib.Core.List
use echo_proxy_core.Frame.{Frame, open_ack, data_frame, close}
use echo_proxy_core.Server.Session.{
  MuxSession, Reader, acking, received, ack_sent, writer_ended, tcp_read, tcp_ended, relay_left,
  reader_turn, finish_open, relay_read, relay_end, unregister, send, mem_id,
}
use echo_proxy_core.Server.Session as Mux
use echo_proxy_core.Tunnel
use echo_proxy_core.Tunnel.{Tunnel, Event, is_reading, take_up, serve, take_down, step, run, start}
use echo_proxy_core.Tunnel.Flow.{payloads_of, payloads_of-append}
use echo_proxy_core.Tunnel.ServerEnd.{turn-outbox}

-- The payloads that the server's TCP peer of the stream sent.
abbrev pub reads_of : ℕ → List Event → List Bytes
reads_of id [] = []
reads_of id (Tunnel.tcp_read j bytes ∷ es) = (if j == id then bytes ∷ [] else []) ++ reads_of id es
reads_of id (_ ∷ es) = reads_of id es

abbrev sent_by : ℕ → MuxSession ℕ → List Bytes
sent_by id s = payloads_of id s.outbox

send-sent_by :
    (id : ℕ) (f : Frame) (s : MuxSession ℕ)
    → payloads_of id (f ∷ []) ≡ []
    → sent_by id (send f s) ≡ sent_by id s
unfolding send
send-sent_by id f s h = elim (Bool-cases s.writer_up) [
  | inl u ↦
      rw (send, u, payloads_of-append id s.outbox (f ∷ []), h)
        (append-nil (payloads_of id s.outbox))
  | inr u ↦ rw (send, u) refl
]

finish-sent_by :
    (id : ℕ) (r : Reader) (s : MuxSession ℕ) → sent_by id (finish_open r s) ≡ sent_by id s
unfolding finish_open
finish-sent_by id (acking i true) s = send-sent_by id (open_ack i true) s refl
finish-sent_by id (acking i false) s = send-sent_by id (open_ack i false) s refl
finish-sent_by id _ s = refl

-- The events of a session that read from no TCP peer.
abbrev IsNoRead : Mux.Event ℕ → Type 0
IsNoRead (tcp_read j bytes) = ⊥
IsNoRead _ = Unit

step-sent_by :
    (id : ℕ) (e : Mux.Event ℕ) (s : MuxSession ℕ)
    → IsNoRead e
    → sent_by id (Mux.step e s) ≡ sent_by id s
unfolding Mux.step relay_end unregister
step-sent_by id (received item connected tx) s h =
    ap (payloads_of id) (turn-outbox s.reader item connected tx s)
step-sent_by id ack_sent s h = finish-sent_by id s.reader s
step-sent_by id writer_ended s h = refl
step-sent_by id (tcp_read j bytes) s h = elim h [ ]
step-sent_by id (tcp_ended j) s h = elim (Bool-cases (mem_id j s.relays)) [
  | inl m ↦ rw (Mux.step, m) (send-sent_by id (close j) s refl)
  | inr m ↦ rw (Mux.step, m) refl
]
step-sent_by id (relay_left j) s h = ground arith

-- A read is sent, or not.
read-sent_by :
    (id j : ℕ) (bytes : Bytes) (s : MuxSession ℕ)
    → (sent_by id (Mux.step (tcp_read j bytes) s) ≡ sent_by id s)
      ⊎ (sent_by id (Mux.step (tcp_read j bytes) s)
          ≡ sent_by id s ++ (if j == id then bytes ∷ [] else []))
unfolding Mux.step relay_read send
read-sent_by id j bytes s = elim (Bool-cases (mem_id j s.relays && s.writer_up)) [
  | inl m ↦ inr (
      let q : (Mux.step (tcp_read j bytes) s).outbox ≡ s.outbox ++ data_frame j bytes ∷ [] =
        ground arith in
      ap (payloads_of id) q
      ∙ payloads_of-append id s.outbox (data_frame j bytes ∷ [])
      ∙ ap (λ l. sent_by id s ++ l) (append-nil (if j == id then bytes ∷ [] else [])))
  | inr m ↦ inl (ground arith)
]

take_up-sent_by :
    (id : ℕ) (connected : Bool) (t : Tunnel)
    → sent_by id (take_up connected t).server ≡ sent_by id t.server
unfolding take_up
take_up-sent_by id connected t = elim (Option-cases (get_elem? t.sent_up t.taken_up)) [
  | inl e ↦ rw (take_up, e) refl
  | inr (f, e) ↦ elim (Bool-cases (is_reading t.server.reader)) [
    | inl r ↦ rw (take_up, e, r) (step-sent_by id _ t.server tt)
    | inr r ↦ rw (take_up, e, r) refl
  ]
]

kept : (xs ys zs : List Bytes) → ys ≡ xs → Sublist ys (xs ++ zs)
kept xs ys zs h = subst (λ l. Sublist l (xs ++ zs)) (sym h) (sublist-append_left xs zs)

reads_of-cons :
    (id : ℕ) (e : Event) (es : List Event)
    → reads_of id (e ∷ es) ≡ reads_of id (e ∷ []) ++ reads_of id es
reads_of-cons id (Tunnel.tcp_read j bytes) es =
    ap (λ l. l ++ reads_of id es) (sym (append-nil (if j == id then bytes ∷ [] else [])))
reads_of-cons id _ es = refl

module _ (should_bypass : Bytes → ℕ → Bool) where
  pub down_taken-server : (t : Tunnel) → (take_down should_bypass t).server ≡ t.server
  unfolding take_down
  down_taken-server t = elim (Option-cases (get_elem? t.server.outbox t.taken_down)) [
    | inl e ↦ rw (take_down, e) refl
    | inr (f, e) ↦ rw (take_down, e) refl
  ]

  step-reads :
      (id : ℕ) (e : Event) (t : Tunnel)
      → Sublist
          (sent_by id (step should_bypass e t).server)
          (sent_by id t.server ++ reads_of id (e ∷ []))
  unfolding step
  step-reads id (Tunnel.up_taken connected) t = kept _ _ _ (take_up-sent_by id connected t)
  step-reads id Tunnel.down_taken t = kept _ _ _ (ap (sent_by id) (down_taken-server t))
  step-reads id Tunnel.up_ends t = kept _ _ _ (step-sent_by id _ t.server tt)
  step-reads id Tunnel.ack_sent t = kept _ _ _ (step-sent_by id _ t.server tt)
  step-reads id Tunnel.server_writer_ended t = kept _ _ _ (step-sent_by id _ t.server tt)
  step-reads id (Tunnel.tcp_read j bytes) t = elim (read-sent_by id j bytes t.server) [
    | inl q ↦ kept _ _ _ q
    | inr q ↦ rw (q, append-nil) (List.Sublist.refl _)
  ]
  step-reads id (Tunnel.tcp_ended j) t = kept _ _ _ (step-sent_by id _ t.server tt)
  step-reads id (Tunnel.relay_left j) t = kept _ _ _ (step-sent_by id _ t.server tt)
  step-reads id _ t = kept _ _ _ refl

  run-reads :
      (id : ℕ) (es : List Event) (t : Tunnel)
      → Sublist (sent_by id (run should_bypass es t).server) (sent_by id t.server ++ reads_of id es)
  unfolding run
  run-reads id [] t = kept _ _ _ refl
  run-reads id (e ∷ es) t =
      let p = List.Sublist.append (step-reads id e t) (List.Sublist.refl (reads_of id es)) in
      rw (reads_of-cons id e es, ← append_assoc (sent_by id t.server))
        (List.Sublist.trans (run-reads id es (step should_bypass e t)) p)

  -- The payloads of the DATA frames that the server sends for an id are, in order, some of what that
  -- stream's TCP peer sent.
  pub run-start-reads :
      (id : ℕ) (es : List Event)
      → Sublist (payloads_of id (run should_bypass es start).server.outbox) (reads_of id es)
  unfolding start Mux.start
  run-start-reads id es = run-reads id es start
