-- ===== src/Client/Pool/Owned.antt =====
-- Which handler sends the data of a stream.
use echo_proxy_core.Base.{
  ℕ, zero, suc, ◌≡◌, refl, sym, ap, ◌∙◌, ◌≢◌, ◌⊎◌, inl, inr, true, false, List, [], ◌∷◌, ◌++◌,
  arith, Bytes,
}
use mathlib.Core.List.{append_assoc, append-nil}
use echo_proxy_core.Frame.{data_frame}
use echo_proxy_core.Client.Task.{Task, Call, Reply, finish, ask, send_frame}
use echo_proxy_core.Client.Handlers.Protocol
use echo_proxy_core.Client.Handlers.Protocol.{Phase, idle, bad, same_id, Settles}
use echo_proxy_core.Client.Handlers.Uploads
use echo_proxy_core.Client.Handlers.Uploads.{Upload, Carried, FromUpload, nothing_sent}
use echo_proxy_core.Client.Pool.{advance}
use echo_proxy_core.Client.Pool.Phases.{At, At-bad, some_reply}

-- A call that sends no DATA but for stream `id`.
abbrev pub IsOwn : ℕ → Call → Type 0
IsOwn id (send_frame (data_frame j bytes)) = j ≡ id
IsOwn id _ = Unit

-- All DATA of the task is for stream `id`, whatever its calls answer.
abbrev pub Owns : ℕ → Task → Type 0
Owns id finish = Unit
Owns id (ask c k) = IsOwn id c × ((r : Reply c) → Owns id (k r))

next-data :
    (id j : ℕ) (bytes : Bytes) (p : Phase)
    → (Protocol.next id p (send_frame (data_frame j bytes)) true ≡ bad) ⊎ (j ≡ id)
unfolding same_id
next-data id j bytes Protocol.granted = ground arith
next-data id j bytes Protocol.relaying = ground arith
next-data id j bytes _ = inl refl

At-IsOwn : (id : ℕ) (p : Phase) (c : Call) (k : Reply c → Task) → At id p (ask c k) → IsOwn id c
At-IsOwn id p (send_frame (data_frame j bytes)) k h = elim (next-data id j bytes p) [
  | inl b ↦ absurd (At-bad id _ (k true) b (h true))
  | inr e ↦ e
]
At-IsOwn id p _ k h = tt

pub At-Owns : (id : ℕ) (p : Phase) (t : Task) → At id p t → Owns id t
At-Owns id p finish h = tt
At-Owns id p (ask c k) h =
    (At-IsOwn id p c k h, λ r. At-Owns id (Protocol.next id p c r) (k r) (h r))

-- What was sent only grows.
next-sent :
    (s : Upload) (c : Call) (r : Reply c)
    → (more : List Bytes) × ((Uploads.next s c r).sent ≡ s.sent ++ more)
next-sent s (send_frame (data_frame j bytes)) true = (bytes ∷ [], refl)
next-sent s (send_frame f) true = ([], sym (append-nil s.sent))
next-sent s (send_frame f) false = ([], sym (append-nil s.sent))
next-sent s _ r = ([], sym (append-nil s.sent))

-- Also before a handler returns, what it sent is a first part of its data.
pub FromUpload-prefix :
    (expected : List Bytes) (s : Upload) (t : Task)
    → FromUpload expected s t
    → (rest : List Bytes) × (expected ≡ s.sent ++ rest)
FromUpload-prefix expected s finish h = h.0
FromUpload-prefix expected s (ask c k) h =
    let r = some_reply c in
    let (rest, e) = FromUpload-prefix expected (Uploads.next s c r) (k r) (h r) in
    let (more, g) = next-sent s c r in
    (more ++ rest, e ∙ ap (λ l. l ++ rest) g ∙ append_assoc s.sent more rest)

-- Every running handler sends for its own stream.
abbrev pub Owned : List (ℕ × Task) → Type 0
Owned [] = Unit
Owned ((j, t) ∷ ts) = Owns j t × Owned ts

-- No handler of stream `id` runs.
abbrev pub Quiet : ℕ → List (ℕ × Task) → Type 0
Quiet id [] = Unit
Quiet id ((j, t) ∷ ts) = (j ≢ id) × Quiet id ts

-- One handler of stream `id` runs; it has sent what `s` has, and carries on to `expected`.
abbrev pub Live : ℕ → List Bytes → Upload → List (ℕ × Task) → Type 0
Live id expected s [] = ⊥
Live id expected s ((j, t) ∷ ts) =
    ((j ≡ id) × FromUpload expected s t × Quiet id ts) ⊎ ((j ≢ id) × Live id expected s ts)

module _ (answer : (c : Call) → Reply c) where
  pub advance-Owned : (n : ℕ) (ts : List (ℕ × Task)) → Owned ts → Owned (advance n answer ts)
  unfolding advance
  advance-Owned n [] h = tt
  advance-Owned zero ((j, finish) ∷ ts) h = h.1
  advance-Owned zero ((j, ask c k) ∷ ts) h = (h.0.1 (answer c), h.1)
  advance-Owned (suc n) ((j, t) ∷ ts) h = (h.0, advance-Owned n ts h.1)

  pub advance-Quiet :
      (id n : ℕ) (ts : List (ℕ × Task)) → Quiet id ts → Quiet id (advance n answer ts)
  unfolding advance
  advance-Quiet id n [] h = tt
  advance-Quiet id zero ((j, finish) ∷ ts) h = h.1
  advance-Quiet id zero ((j, ask c k) ∷ ts) h = h
  advance-Quiet id (suc n) ((j, t) ∷ ts) h = (h.0, advance-Quiet id n ts h.1)
