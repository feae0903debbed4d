-- ===== src/Tunnel/ServerEnd.antt =====
-- The server's end of the wire.
use echo_proxy_core.Base.{
  ℕ, suc, ◌≡◌, refl, sym, ap, ◌∙◌, inl, inr, Bool, true, false, Option, none, some, List, [], ◌∷◌,
  ◌++◌, arith, Bytes, Bool-cases, get_elem?, Result, ok,
}
use mathlib.Core.List.{append-nil}
use echo_proxy_core.Frame.{
  Frame, hello, open_stream, open_ack, data_frame, close, FrameError, encode, decode, IsFrame,
}
use echo_proxy_core.Frame.RoundTrip.{decode-encode}
use echo_proxy_core.Session
use echo_proxy_core.Session.{StreamRegistry, Delivery}
use echo_proxy_core.Session.Table.{lookup}
use echo_proxy_core.WebSocket.{Item, binary}
use echo_proxy_core.Server.Ssrf.{is_dest_allowed}
use echo_proxy_core.Server.Session.{
  MuxSession, Reader, reading, acking, ended, received, ack_sent, writer_ended, tcp_read, tcp_ended,
  relay_left, start, handle_open, deliver, dispatch, stop_reading, receive, reader_turn,
  finish_open, relay_read, relay_end, unregister, send, step, mem_id,
}
use echo_proxy_core.Server.Session as Mux
use echo_proxy_core.Tunnel.{stream_id}
use echo_proxy_core.Tunnel.Flow.{
  Flow, Flow-skip, Flow-data, brought, Keys, Keys-close, Keys-close_all, Keys-register,
}

handle_open-Keys :
    (id : ℕ) (dest : Bytes) (connected : Bool) (s : MuxSession ℕ)
    → Keys s.registry
    → Keys (handle_open id dest connected id s).registry
unfolding handle_open
handle_open-Keys id dest connected s h = elim (Bool-cases (is_dest_allowed dest)) [
  | inr a ↦ rw (handle_open, a) h
  | inl a ↦ elim (Bool-cases connected) [
    | inl c ↦ rw (handle_open, a, c) (Keys-register id s.registry h)
    | inr c ↦ rw (handle_open, a, c) (Keys-close id s.registry h)
  ]
]

deliver-registry :
    (id : ℕ) (bytes : Bytes) (s : MuxSession ℕ) → (deliver id bytes s).registry ≡ s.registry
unfolding deliver
deliver-registry id bytes s = ground arith

pub deliver-delivered :
    (id : ℕ) (bytes : Bytes) (s : MuxSession ℕ)
    → (deliver id bytes s).delivered ≡ brought (lookup id s.registry.inner) bytes s.delivered
unfolding deliver Session.route
deliver-delivered id bytes s = ground arith

pub handle_open-delivered :
    (id : ℕ) (dest : Bytes) (connected : Bool) (tx : ℕ) (s : MuxSession ℕ)
    → (handle_open id dest connected tx s).delivered ≡ s.delivered
unfolding handle_open
handle_open-delivered id dest connected tx s = ground arith

pub dispatch-Keys :
    (f : Frame) (connected : Bool) (s : MuxSession ℕ)
    → Keys s.registry
    → Keys (dispatch (ok f) connected (stream_id f) s).registry
unfolding dispatch
dispatch-Keys (open_stream id dest) connected s h = handle_open-Keys id dest connected s h
dispatch-Keys (data_frame id bytes) connected s h = rw (deliver-registry id bytes s) h
dispatch-Keys (close id) connected s h = Keys-close id s.registry h
dispatch-Keys (hello t) connected s h = h
dispatch-Keys (open_ack id is_ok) connected s h = h

-- What the session delivers of the frame that it takes.
pub dispatch-Flow :
    (id k : ℕ) (sent : List Frame) (f : Frame) (connected : Bool) (s : MuxSession ℕ)
    → get_elem? sent k ≡ some f
    → Keys s.registry
    → Flow id s.delivered sent k
    → Flow id (dispatch (ok f) connected (stream_id f) s).delivered sent (suc k)
unfolding dispatch
dispatch-Flow id k sent (data_frame j bytes) connected s e h v =
    rw (deliver-delivered j bytes s)
      (Flow-data id j bytes (lookup j s.registry.inner) s.delivered sent k e (h j) v)
dispatch-Flow id k sent (open_stream j dest) connected s e h v =
    rw (handle_open-delivered j dest connected j s) (Flow-skip id s.delivered sent k _ e v)
dispatch-Flow id k sent (close j) connected s e h v = Flow-skip id s.delivered sent k _ e v
dispatch-Flow id k sent (hello t) connected s e h v = Flow-skip id s.delivered sent k _ e v
dispatch-Flow id k sent (open_ack j is_ok) connected s e h v = Flow-skip id s.delivered sent k _ e v

-- A session at its reading point takes a frame from its bytes.
pub step-taken :
    (f : Frame) (connected : Bool) (s : MuxSession ℕ)
    → s.reader ≡ reading
    → IsFrame f
    → step (received (some (binary (encode f))) connected (stream_id f)) s
      ≡ dispatch (ok f) connected (stream_id f) s
unfolding step receive
step-taken f connected s r w =
    ap (λ r. reader_turn r (some (binary (encode f))) connected (stream_id f) s) r
    ∙ ap (λ d. dispatch d connected (stream_id f) s) (decode-encode f w)

-- The events of a session that take no frame.
abbrev pub IsOther : Mux.Event ℕ → Type 0
IsOther (received none connected tx) = Unit
IsOther (received _ connected tx) = ⊥
IsOther _ = Unit

pub step-delivered :
    (e : Mux.Event ℕ) (s : MuxSession ℕ) → IsOther e → (step e s).delivered ≡ s.delivered
unfolding step receive stop_reading send
step-delivered (received none connected tx) s h = ground arith
step-delivered (received (some i) connected tx) s h = elim h [ ]
step-delivered ack_sent s h = ground arith
step-delivered writer_ended s h = refl
step-delivered (tcp_read id bytes) s h = ground arith
step-delivered (tcp_ended id) s h = ground arith
step-delivered (relay_left id) s h = ground arith

turn-Keys :
    (r : Reader) (connected : Bool) (tx : ℕ) (s : MuxSession ℕ)
    → Keys s.registry
    → Keys (reader_turn r none connected tx s).registry
unfolding reader_turn receive stop_reading
turn-Keys reading connected tx s h = Keys-close_all s.registry
turn-Keys _ connected tx s h = h

pub step-Keys :
    (e : Mux.Event ℕ) (s : MuxSession ℕ) → IsOther e → Keys s.registry → Keys (step e s).registry
unfolding step send
step-Keys (received none connected tx) s o h = turn-Keys s.reader connected tx s h
step-Keys (received (some i) connected tx) s o h = elim o [ ]
step-Keys ack_sent s o h = let e : (step ack_sent s).registry ≡ s.registry = ground arith in rw e h
step-Keys writer_ended s o h = Keys-close_all s.registry
step-Keys (tcp_read id bytes) s o h =
    let e : (step (tcp_read id bytes) s).registry ≡ s.registry = ground arith in rw e h
step-Keys (tcp_ended id) s o h =
    let e : (step (tcp_ended id) s).registry ≡ s.registry = ground arith in rw e h
step-Keys (relay_left id) s o h = elim (Bool-cases (mem_id id s.leaving)) [
  | inl m ↦ rw (step, m) (Keys-close id s.registry h)
  | inr m ↦ rw (step, m) h
]

-- What an outbox gained.
abbrev pub Grown : List Frame → List Frame → Type 0
Grown xs ys = (new : List Frame) × (ys ≡ xs ++ new)

pub same-Grown : (xs ys : List Frame) → ys ≡ xs → Grown xs ys
same-Grown xs ys h = ([], h ∙ sym (append-nil xs))

send-Grown : (f : Frame) (s : MuxSession ℕ) → Grown s.outbox (send f s).outbox
unfolding send
send-Grown f s = elim (Bool-cases s.writer_up) [
  | inl u ↦ (f ∷ [], rw (send, u) refl)
  | inr u ↦ same-Grown s.outbox _ (rw (send, u) refl)
]

pub dispatch-outbox :
    (r : Result FrameError Frame) (connected : Bool) (tx : ℕ) (s : MuxSession ℕ)
    → (dispatch r connected tx s).outbox ≡ s.outbox
unfolding dispatch handle_open deliver
dispatch-outbox (ok (open_stream id dest)) connected tx s = ground arith
dispatch-outbox (ok (data_frame id bytes)) connected tx s = ground arith
dispatch-outbox _ connected tx s = refl

pub turn-outbox :
    (r : Reader) (item : Option Item) (connected : Bool) (tx : ℕ) (s : MuxSession ℕ)
    → (reader_turn r item connected tx s).outbox ≡ s.outbox
unfolding reader_turn receive stop_reading
turn-outbox reading (some (binary d)) connected tx s = dispatch-outbox (decode d) connected tx s
turn-outbox reading _ connected tx s = ground arith
turn-outbox _ item connected tx s = refl

finish-Grown : (r : Reader) (s : MuxSession ℕ) → Grown s.outbox (finish_open r s).outbox
unfolding finish_open
finish-Grown (acking id true) s = send-Grown (open_ack id true) s
finish-Grown (acking id false) s = send-Grown (open_ack id false) s
finish-Grown _ s = same-Grown s.outbox _ refl

-- The server's outbox only grows.
pub step-Grown : (e : Mux.Event ℕ) (s : MuxSession ℕ) → Grown s.outbox (step e s).outbox
unfolding step relay_read relay_end unregister send
step-Grown (received item connected tx) s =
    same-Grown s.outbox _ (turn-outbox s.reader item connected tx s)
step-Grown ack_sent s = finish-Grown s.reader s
step-Grown writer_ended s = same-Grown s.outbox _ refl
step-Grown (tcp_read id bytes) s = elim (Bool-cases (mem_id id s.relays)) [
  | inr m ↦ same-Grown s.outbox _ (rw (step, m) refl)
  | inl m ↦ elim (Bool-cases s.writer_up) [
    | inr u ↦ same-Grown s.outbox _ (ground arith)
    | inl u ↦ (data_frame id bytes ∷ [], ground arith)
  ]
]
step-Grown (tcp_ended id) s = elim (Bool-cases (mem_id id s.relays)) [
  | inr m ↦ same-Grown s.outbox _ (rw (step, m) refl)
  | inl m ↦ let (new, e) = send-Grown (close id) s in (new, rw (step, m) e)
]
step-Grown (relay_left id) s = same-Grown s.outbox _ (ground arith)
