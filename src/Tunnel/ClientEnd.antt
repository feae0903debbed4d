-- ===== src/Tunnel/ClientEnd.antt =====
-- The client's end of the wire.
use echo_proxy_core.Base.{
  ℕ, suc, ◌≡◌, refl, ◌⊎◌, inl, inr, Bool, true, Option, none, some, List, arith, Bytes, Bool-cases,
  get_elem?, ok,
}
use echo_proxy_core.Frame.{Frame, hello, open_stream, open_ack, data_frame, close, encode, IsFrame}
use echo_proxy_core.Frame.RoundTrip.{decode-encode}
use echo_proxy_core.Session
use echo_proxy_core.Session.{StreamRegistry, Delivery}
use echo_proxy_core.Session.Table.{lookup}
use echo_proxy_core.WebSocket.{binary}
use echo_proxy_core.Client.Task.{Call, register, insert_ack, close_stream}
use echo_proxy_core.Client.Conn.{
  MuxConn, received, writer_ended, keeper_closed, acks_cleared, resolve, deliver, dispatch,
  stop_reading, receive, close_conn, step,
}
use echo_proxy_core.Client.Pool.{perform}
use echo_proxy_core.Tunnel.{channel_of}
use echo_proxy_core.Tunnel.Flow.{
  Flow, Flow-skip, Flow-data, brought, Keys, Keys-close, Keys-close_all, Keys-register,
}

-- What one end delivered, and its registry.
abbrev pub IsSame : MuxConn ℕ ℕ → MuxConn ℕ ℕ → Type 0
IsSame c c' = (c'.delivered ≡ c.delivered) × (Keys c.registry → Keys c'.registry)

resolve-registry :
    (id : ℕ) (is_ok : Bool) (c : MuxConn ℕ ℕ) → (resolve id is_ok c).registry ≡ c.registry
unfolding resolve
resolve-registry id is_ok c = ground arith

pub resolve-delivered :
    (id : ℕ) (is_ok : Bool) (c : MuxConn ℕ ℕ) → (resolve id is_ok c).delivered ≡ c.delivered
unfolding resolve
resolve-delivered id is_ok c = ground arith

deliver-registry :
    (id : ℕ) (bytes : Bytes) (c : MuxConn ℕ ℕ) → (deliver id bytes c).registry ≡ c.registry
unfolding deliver
deliver-registry id bytes c = ground arith

pub deliver-delivered :
    (id : ℕ) (bytes : Bytes) (c : MuxConn ℕ ℕ)
    → (deliver id bytes c).delivered ≡ brought (lookup id c.registry.inner) bytes c.delivered
unfolding deliver Session.route
deliver-delivered id bytes c = ground arith

dispatch-Keys : (f : Frame) (c : MuxConn ℕ ℕ) → Keys c.registry → Keys (dispatch (ok f) c).registry
unfolding dispatch
dispatch-Keys (open_ack id is_ok) c h = rw (resolve-registry id is_ok c) h
dispatch-Keys (data_frame id bytes) c h = rw (deliver-registry id bytes c) h
dispatch-Keys (close id) c h = Keys-close id c.registry h
dispatch-Keys (hello t) c h = h
dispatch-Keys (open_stream id dest) c h = h

dispatch-Flow :
    (id k : ℕ) (sent : List Frame) (f : Frame) (c : MuxConn ℕ ℕ)
    → get_elem? sent k ≡ some f
    → Keys c.registry
    → Flow id c.delivered sent k
    → Flow id (dispatch (ok f) c).delivered sent (suc k)
unfolding dispatch
dispatch-Flow id k sent (data_frame j bytes) c e h v =
    rw (deliver-delivered j bytes c)
      (Flow-data id j bytes (lookup j c.registry.inner) c.delivered sent k e (h j) v)
dispatch-Flow id k sent (open_ack j is_ok) c e h v =
    rw (resolve-delivered j is_ok c) (Flow-skip id c.delivered sent k _ e v)
dispatch-Flow id k sent (close j) c e h v = Flow-skip id c.delivered sent k _ e v
dispatch-Flow id k sent (hello t) c e h v = Flow-skip id c.delivered sent k _ e v
dispatch-Flow id k sent (open_stream j dest) c e h v = Flow-skip id c.delivered sent k _ e v

-- While the reader runs it takes a frame from its bytes.
pub step-taken :
    (f : Frame) (c : MuxConn ℕ ℕ)
    → c.reading ≡ true
    → IsFrame f
    → step (received (some (binary (encode f)))) c ≡ dispatch (ok f) c
unfolding step receive
step-taken f c r w = ground (arith, decode-encode f w)

pub taken_cases :
    (f : Frame) (c : MuxConn ℕ ℕ)
    → IsFrame f
    → (step (received (some (binary (encode f)))) c ≡ c)
      ⊎ (step (received (some (binary (encode f)))) c ≡ dispatch (ok f) c)
unfolding step
taken_cases f c w = elim (Bool-cases c.reading) [
  | inl r ↦ inr (step-taken f c r w)
  | inr r ↦ inl (ground arith)
]

pub taken-Keys :
    (f : Frame) (c : MuxConn ℕ ℕ)
    → IsFrame f
    → Keys c.registry
    → Keys (step (received (some (binary (encode f)))) c).registry
taken-Keys f c w h = elim (taken_cases f c w) [
  | inl e ↦ rw e h
  | inr e ↦ rw e (dispatch-Keys f c h)
]

pub taken-Flow :
    (id k : ℕ) (sent : List Frame) (f : Frame) (c : MuxConn ℕ ℕ)
    → IsFrame f
    → get_elem? sent k ≡ some f
    → Keys c.registry
    → Flow id c.delivered sent k
    → Flow id (step (received (some (binary (encode f)))) c).delivered sent (suc k)
taken-Flow id k sent f c w e h v = elim (taken_cases f c w) [
  | inl q ↦ rw q (Flow-skip id c.delivered sent k f e v)
  | inr q ↦ rw q (dispatch-Flow id k sent f c e h v)
]

pub ends-IsSame : (c : MuxConn ℕ ℕ) → IsSame c (step (received none) c)
unfolding step receive stop_reading
ends-IsSame c = elim (Bool-cases c.reading) [
  | inl r ↦ (ground arith, λ h. rw (step, r) (Keys-close_all c.registry))
  | inr r ↦ (ground arith, λ h. rw (step, r) h)
]

pub writer_ended-IsSame : (c : MuxConn ℕ ℕ) → IsSame c (step writer_ended c)
unfolding step
writer_ended-IsSame c = (refl, λ h. Keys-close_all c.registry)

pub keeper_closed-IsSame : (c : MuxConn ℕ ℕ) → IsSame c (step keeper_closed c)
unfolding step close_conn
keeper_closed-IsSame c = (refl, λ h. Keys-close_all c.registry)

pub acks_cleared-IsSame : (c : MuxConn ℕ ℕ) → IsSame c (step acks_cleared c)
unfolding step
acks_cleared-IsSame c = (refl, λ h. h)

pub perform-IsSame :
    (call : Option Call) (c : MuxConn ℕ ℕ)
    → IsSame c (perform call (channel_of call) (channel_of call) c)
unfolding perform step
perform-IsSame (some (register id)) c = (refl, λ h. Keys-register id c.registry h)
perform-IsSame (some (insert_ack id)) c = (refl, λ h. h)
perform-IsSame (some (close_stream id)) c = (refl, λ h. Keys-close id c.registry h)
perform-IsSame _ c = (refl, λ h. h)
