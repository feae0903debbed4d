-- ===== src/Tunnel/Uploads.antt =====
-- What the client's handlers put on the wire for one stream.
use echo_proxy_core.Base.{
  ℕ, zero, suc, ◌≡◌, refl, sym, subst, ◌≢◌, ◌⊎◌, inl, inr, Option, some, List, [], ◌∷◌, ◌++◌, arith,
  Bytes, Bool-cases,
}
use mathlib.Core.List.{append-nil}
use echo_proxy_core.Frame.{hello, open_stream, open_ack, data_frame, close}
use echo_proxy_core.Client.Task.{Task, Call, Reply, finish, ask, send_frame}
use echo_proxy_core.Client.Handlers.Uploads
use echo_proxy_core.Client.Handlers.Uploads.{Upload, Carried, FromUpload, nothing_sent}
use echo_proxy_core.Client.Pool.{advance, call_of}
use echo_proxy_core.Client.Pool.Owned.{IsOwn, Owned, Quiet, Live, advance-Quiet}
use echo_proxy_core.Tunnel.{put_on_wire}
use echo_proxy_core.Tunnel.Flow.{payloads_of}

-- The handler of stream `id` runs, or it has returned.
abbrev pub Sending : ℕ → List Bytes → Upload → List (ℕ × Task) → Type 0
Sending id expected s ts = Live id expected s ts ⊎ (Quiet id ts × Carried expected s)

module _ (answer : (c : Call) → Reply c) (id : ℕ) where
  abbrev pub carried_by : Option Call → List Bytes
  carried_by call = payloads_of id (put_on_wire answer call)

  foreign_call : (j : ℕ) (c : Call) → IsOwn j c → j ≢ id → carried_by (some c) ≡ []
  foreign_call j (send_frame (data_frame i bytes)) h n = ground arith
  foreign_call j (send_frame (hello t)) h n = ground arith
  foreign_call j (send_frame (open_stream i d)) h n = ground arith
  foreign_call j (send_frame (open_ack i b)) h n = ground arith
  foreign_call j (send_frame (close i)) h n = ground arith
  foreign_call j _ h n = refl

  own_call :
      (s : Upload) (c : Call)
      → IsOwn id c
      → (Uploads.next s c (answer c)).sent ≡ s.sent ++ carried_by (some c)
  own_call s (send_frame (data_frame i bytes)) h =
      elim (Bool-cases (answer (send_frame (data_frame i bytes)))) [
        | inl e ↦ ground (arith, e)
        | inr e ↦ rw (e, append-nil) refl
      ]
  own_call s (send_frame f) h = ground (arith, append-nil s.sent)
  own_call s _ h = sym (append-nil s.sent)

  pub silent_call :
      (n : ℕ) (ts : List (ℕ × Task)) → Owned ts → Quiet id ts → carried_by (call_of n ts) ≡ []
  unfolding call_of
  silent_call n [] o q = refl
  silent_call zero ((j, finish) ∷ ts) o q = refl
  silent_call zero ((j, ask c k) ∷ ts) o q = foreign_call j c o.0.0 q.0
  silent_call (suc n) ((j, t) ∷ ts) o q = silent_call n ts o.1 q.1

  advance-Live :
      (expected : List Bytes) (s : Upload) (n : ℕ) (ts : List (ℕ × Task))
      → Owned ts
      → Live id expected s ts
      → (s' : Upload) × (s'.sent ≡ s.sent ++ carried_by (call_of n ts))
        × Sending id expected s' (advance n answer ts)
  unfolding advance call_of
  advance-Live expected s n [] o l = elim l [ ]
  advance-Live expected s zero ((j, finish) ∷ ts) o (inl (e, u, q)) =
      (s, sym (append-nil s.sent), inr (q, u))
  advance-Live expected s zero ((j, finish) ∷ ts) o (inr (ne, l)) =
      (s, sym (append-nil s.sent), inl l)
  advance-Live expected s zero ((j, ask c k) ∷ ts) o (inl (e, u, q)) = (
    Uploads.next s c (answer c),
    own_call s c (subst (λ i. IsOwn i c) e o.0.0),
    inl (inl (e, u (answer c), q)),
  )
  advance-Live expected s zero ((j, ask c k) ∷ ts) o (inr (ne, l)) =
      (s, rw (foreign_call j c o.0.0 ne) (sym (append-nil s.sent)), inl (inr (ne, l)))
  advance-Live expected s (suc n) ((j, t) ∷ ts) o (inl (e, u, q)) = (
    s,
    rw (silent_call n ts o.1 q) (sym (append-nil s.sent)),
    inl (inl (e, u, advance-Quiet answer id n ts q)),
  )
  advance-Live expected s (suc n) ((j, t) ∷ ts) o (inr (ne, l)) =
      let (s', g, r) = advance-Live expected s n ts o.1 l in
      (s', g, elim r [ inl m ↦ inl (inr (ne, m)) | inr (q, c) ↦ inr ((ne, q), c) ])

  -- A move of the handlers, and what it puts on the wire.
  pub advance-Sending :
      (expected : List Bytes) (s : Upload) (n : ℕ) (ts : List (ℕ × Task))
      → Owned ts
      → Sending id expected s ts
      → (s' : Upload) × (s'.sent ≡ s.sent ++ carried_by (call_of n ts))
        × Sending id expected s' (advance n answer ts)
  advance-Sending expected s n ts o (inl l) = advance-Live expected s n ts o l
  advance-Sending expected s n ts o (inr (q, c)) = (
    s,
    rw (silent_call n ts o q) (sym (append-nil s.sent)),
    inr (advance-Quiet answer id n ts q, c),
  )
