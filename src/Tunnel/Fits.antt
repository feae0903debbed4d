-- ===== src/Tunnel/Fits.antt =====
-- Every frame that the server sends fits the frame format, if those that it takes do.
use echo_proxy_core.Base.{
  ℕ, ◌^◌, ◌<◌, ◌≡◌, refl, sym, subst, inl, inr, Bool, true, false, none, some, List, [], ◌∷◌, ◌++◌,
  arith, Bytes, ◌==◌, if◌then◌else◌, ==_iff, Bool-cases, All, ok,
}
use echo_proxy_core.Frame.{Frame, IsFrame, hello, open_stream, open_ack, data_frame, close}
use echo_proxy_core.Session
use echo_proxy_core.Server.Session as Mux
use echo_proxy_core.Server.Session.{MuxSession, Reader, reading, acking, mem_id, without_id}
use echo_proxy_core.Server.Ssrf.{is_dest_allowed}
use echo_proxy_core.Tunnel.{stream_id}

abbrev pub IsId : ℕ → Type 0
IsId id = id < 2 ^ 32

abbrev pub AcksId : Reader → Type 0
AcksId (acking id is_ok) = IsId id
AcksId _ = Unit

pub record Fits (s : MuxSession ℕ) : Type 0 where
  pub reader : AcksId s.reader
  pub relays : All IsId s.relays
  pub outbox : All IsFrame s.outbox

pub All-append : (xs ys : List Frame) → All IsFrame xs → All IsFrame ys → All IsFrame (xs ++ ys)
All-append [] ys h k = k
All-append (x ∷ xs) ys (h, hs) k = (h, All-append xs ys hs k)

All-mem_id : (id : ℕ) (xs : List ℕ) → All IsId xs → mem_id id xs ≡ true → IsId id
All-mem_id id [] h m = absurd cc
All-mem_id id (x ∷ xs) (h, hs) m = elim (Bool-cases (x == id)) [
  | inl e ↦ subst IsId ((==_iff x id).0 e) h
  | inr e ↦ All-mem_id id xs hs (ground (arith, m, e))
]

All-without_id : (id : ℕ) (xs : List ℕ) → All IsId xs → All IsId (without_id id xs)
unfolding without_id
All-without_id id [] h = tt
All-without_id id (x ∷ xs) (h, hs) = elim (Bool-cases (x == id)) [
  | inl e ↦ rw (without_id, e) hs
  | inr e ↦ rw (without_id, e) (h, All-without_id id xs hs)
]

-- A session whose reader, relays and outbox are the same.
kept-Fits :
    (s s' : MuxSession ℕ)
    → AcksId s'.reader
    → s'.relays ≡ s.relays
    → s'.outbox ≡ s.outbox
    → Fits s
    → Fits s'
kept-Fits s s' p r q v = record {
  reader = p;
  relays = subst (All IsId) (sym r) v.relays;
  outbox = subst (All IsFrame) (sym q) v.outbox;
}

-- One send of the server.
send-Fits : (f : Frame) (s : MuxSession ℕ) → IsFrame f → Fits s → Fits (Mux.send f s)
unfolding Mux.send
send-Fits f s w v = elim (Bool-cases s.writer_up) [
  | inl u ↦
      rw (Mux.send, u)
        (record {
          reader = v.reader;
          relays = v.relays;
          outbox = All-append s.outbox (f ∷ []) v.outbox (w, tt);
        })
  | inr u ↦ rw (Mux.send, u) (kept-Fits s _ v.reader refl refl v)
]

leave-Fits :
    (id : ℕ) (s s' : MuxSession ℕ)
    → s'.reader ≡ s.reader
    → s'.outbox ≡ s.outbox
    → s'.relays ≡ without_id id s.relays
    → Fits s
    → Fits s'
leave-Fits id s s' p q r v = record {
  reader = subst AcksId (sym p) v.reader;
  relays = subst (All IsId) (sym r) (All-without_id id s.relays v.relays);
  outbox = subst (All IsFrame) (sym q) v.outbox;
}

handle_open-Fits :
    (id : ℕ) (dest : Bytes) (connected : Bool) (s : MuxSession ℕ)
    → IsId id
    → Fits s
    → Fits (Mux.handle_open id dest connected id s)
unfolding Mux.handle_open
handle_open-Fits id dest connected s w v = elim (Bool-cases (is_dest_allowed dest)) [
  | inr a ↦ rw (Mux.handle_open, a) (kept-Fits s _ w refl refl v)
  | inl a ↦ elim (Bool-cases connected) [
    | inl c ↦ rw (Mux.handle_open, a, c) (kept-Fits s _ w refl refl v)
    | inr c ↦ rw (Mux.handle_open, a, c) (kept-Fits s _ w refl refl v)
  ]
]

pub dispatch-Fits :
    (f : Frame) (connected : Bool) (s : MuxSession ℕ)
    → IsFrame f
    → Fits s
    → Fits (Mux.dispatch (ok f) connected (stream_id f) s)
unfolding Mux.dispatch Mux.deliver
dispatch-Fits (open_stream id dest) connected s w v = handle_open-Fits id dest connected s w.0 v
dispatch-Fits (data_frame id bytes) connected s w v =
    elim (Session.route id bytes s.registry)
      as (λ o. Fits (elim o [ none ↦ s | some d ↦ record s { delivered = d ∷ s.delivered } ])) [
        | none ↦ v
        | some d ↦ kept-Fits s _ v.reader refl refl v
      ]
dispatch-Fits (close id) connected s w v = kept-Fits s _ v.reader refl refl v
dispatch-Fits (hello t) connected s w v = v
dispatch-Fits (open_ack id is_ok) connected s w v = v

finish-Fits : (r : Reader) (s : MuxSession ℕ) → AcksId r → Fits s → Fits (Mux.finish_open r s)
unfolding Mux.finish_open
finish-Fits (acking id true) s w v =
    let sent = send-Fits (open_ack id true) s w v in
    record { reader = tt; relays = (w, sent.relays); outbox = sent.outbox }
finish-Fits (acking id false) s w v =
    let sent = send-Fits (open_ack id false) s w v in
    record { reader = tt; relays = sent.relays; outbox = sent.outbox }
finish-Fits reading s w v = v
finish-Fits Mux.ended s w v = v

pub turn-Fits :
    (r : Reader) (s : MuxSession ℕ)
    → r ≡ s.reader
    → Fits s
    → Fits (Mux.reader_turn r none false 0 s)
unfolding Mux.reader_turn Mux.receive Mux.stop_reading
turn-Fits reading s e v = kept-Fits s _ tt refl refl v
turn-Fits (acking id is_ok) s e v = v
turn-Fits Mux.ended s e v = v

read-Fits :
    (up : Bool) (id : ℕ) (bytes : Bytes) (s : MuxSession ℕ)
    → IsId id
    → Fits s
    → Fits (
        if up
        then Mux.send (data_frame id bytes) s
        else record s { relays = without_id id s.relays; leaving = id ∷ s.leaving })
read-Fits true id bytes s w v = send-Fits (data_frame id bytes) s w v
read-Fits false id bytes s w v = leave-Fits id s _ refl refl refl v

-- The events of the session but for the frames that it takes.
abbrev pub IsQuiet : Mux.Event ℕ → Type 0
IsQuiet (Mux.received item connected tx) = ⊥
IsQuiet _ = Unit

pub step-Fits : (e : Mux.Event ℕ) (s : MuxSession ℕ) → IsQuiet e → Fits s → Fits (Mux.step e s)
unfolding Mux.step Mux.relay_read Mux.relay_end Mux.unregister
step-Fits (Mux.received item connected tx) s q v = elim q [ ]
step-Fits Mux.ack_sent s q v = finish-Fits s.reader s v.reader v
step-Fits Mux.writer_ended s q v = kept-Fits s _ v.reader refl refl v
step-Fits (Mux.tcp_read id bytes) s q v = elim (Bool-cases (mem_id id s.relays)) [
  | inr m ↦ rw (Mux.step, m) v
  | inl m ↦
      rw (Mux.step, m) (read-Fits s.writer_up id bytes s (All-mem_id id s.relays v.relays m) v)
]
step-Fits (Mux.tcp_ended id) s q v = elim (Bool-cases (mem_id id s.relays)) [
  | inr m ↦ rw (Mux.step, m) v
  | inl m ↦
      rw (Mux.step, m)
        (leave-Fits id (Mux.send (close id) s) _ refl refl refl
          (send-Fits (close id) s (All-mem_id id s.relays v.relays m) v))
]
step-Fits (Mux.relay_left id) s q v = elim (Bool-cases (mem_id id s.leaving)) [
  | inl m ↦ rw (Mux.step, m) (kept-Fits s _ v.reader refl refl v)
  | inr m ↦ rw (Mux.step, m) v
]
