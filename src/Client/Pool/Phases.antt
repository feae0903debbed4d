-- ===== src/Client/Pool/Phases.antt =====
-- The phases of the handlers that run, and what a move does to them.
use echo_proxy_core.Base.{
  ℕ, zero, suc, ◌≡◌, refl, sym, ap, ◌∙◌, ◌≢◌, ◌⊎◌, inl, inr, Bool, true, false, not, ◌&&◌, ◌||◌,
  none, some, List, [], ◌∷◌, arith, ◌==◌, Bool-cases,
}
use echo_proxy_core.Frame.{hello, open_stream, open_ack, data_frame, close}
use echo_proxy_core.Client.Task.{
  Task, Call, Reply, finish, ask, register, insert_ack, close_stream, send_frame, recv_ack,
  write_local, write_upstream, connect, spawn_writer, relay_tcp, snapshot_mux, Ends,
}
use echo_proxy_core.Client.Handlers.Protocol.{
  Phase, idle, closing, failing, bad, same_id, next, is_settled,
}
use echo_proxy_core.Client.Pool.{advance, call_of}

-- A handler of stream `id` that is in phase `p`.
abbrev pub At : ℕ → Phase → Task → Type 0
At id p t = Ends (next id) (λ q. is_settled q ≡ true) p t

pub some_reply : (c : Call) → Reply c
some_reply (send_frame f) = true
some_reply (recv_ack id t) = none
some_reply (write_local b) = true
some_reply (write_upstream b) = true
some_reply (connect h) = true
some_reply snapshot_mux = true
some_reply (register id) = tt
some_reply (insert_ack id) = tt
some_reply (close_stream id) = tt
some_reply (spawn_writer id) = tt
some_reply relay_tcp = tt

next-bad : (id : ℕ) (c : Call) (r : Reply c) → next id bad c r ≡ bad
next-bad id (send_frame (hello t)) r = refl
next-bad id (send_frame (open_stream j d)) r = refl
next-bad id (send_frame _) r = refl
next-bad id (register j) r = refl
next-bad id _ r = refl

-- No handler is ever in the phase of a call out of order.
pub At-bad : (id : ℕ) (p : Phase) (t : Task) → p ≡ bad → ¬ At id p t
At-bad id p finish e h = ground (arith, e)
At-bad id p (ask c k) e h =
    At-bad id (next id p c (some_reply c)) (k (some_reply c)) (rw e (next-bad id c (some_reply c)))
      (h (some_reply c))

-- The phase after a call on the registry, and the others.
abbrev keeps_registry : Call → Bool
keeps_registry (register j) = false
keeps_registry (close_stream j) = false
keeps_registry _ = true

next-register :
    (id j : ℕ) (p : Phase) (r : Reply (register j))
    → (next id p (register j) r ≡ bad)
      ⊎ ((j ≡ id) × (is_settled (next id p (register j) r) ≡ false))
unfolding same_id
next-register id j idle r = ground arith
next-register id j _ r = inl refl

next-close_stream :
    (id j : ℕ) (p : Phase) (r : Reply (close_stream j))
    → (next id p (close_stream j) r ≡ bad) ⊎ (j ≡ id)
unfolding same_id
next-close_stream id j failing r = ground arith
next-close_stream id j closing r = ground arith
next-close_stream id j _ r = inl refl

-- A handler whose stream may be registered stays so until it unregisters it.
next-open :
    (id : ℕ) (p : Phase) (c : Call) (r : Reply c)
    → keeps_registry c ≡ true
    → is_settled p ≡ false
    → is_settled (next id p c r) ≡ false
unfolding same_id
next-open id p (register j) r k h = absurd cc
next-open id p (close_stream j) r k h = absurd cc
next-open id p (insert_ack j) r k h = ground arith
next-open id p (send_frame (hello t)) r k h = ground arith
next-open id p (send_frame (open_stream j d)) r k h = ground arith
next-open id p (send_frame (open_ack j b)) r k h = ground arith
next-open id p (send_frame (data_frame j b)) r k h = ground arith
next-open id p (send_frame (close j)) r k h = ground arith
next-open id p (recv_ack j t) r k h = ground arith
next-open id p (write_local b) r k h = ground arith
next-open id p (write_upstream b) r k h = ground arith
next-open id p (connect b) r k h = ground arith
next-open id p (spawn_writer j) r k h = ground arith
next-open id p relay_tcp r k h = ground arith
next-open id p snapshot_mux r k h = ground arith

next-stays :
    (id : ℕ) (p : Phase) (c : Call) (r : Reply c)
    → next id p c r ≢ bad
    → is_settled p ≡ false
    → (c ≡ close_stream id) ⊎ (is_settled (next id p c r) ≡ false)
next-stays id p (register j) r n h = elim (next-register id j p r) [
  | inl b ↦ absurd (n b)
  | inr (e, s) ↦ inr s
]
next-stays id p (close_stream j) r n h = elim (next-close_stream id j p r) [
  | inl b ↦ absurd (n b)
  | inr e ↦ inl (ap close_stream e)
]
next-stays id p c r n h = inr (next-open id p c r refl h)

next-opens :
    (id j : ℕ) (p : Phase) (c : Call) (r : Reply c)
    → c ≡ register j
    → next id p c r ≢ bad
    → (id ≡ j) × (is_settled (next id p c r) ≡ false)
next-opens id j p (register j') r e n = elim (next-register id j' p r) [
  | inl b ↦ absurd (n b)
  | inr (d, s) ↦ (let d' : j' ≡ j = cc in sym d ∙ d', s)
]
next-opens id j p _ r e n = absurd cc

-- Each running handler is in a phase from which it settles.
abbrev pub Tracked : List (ℕ × Task) → List Phase → Type 0
Tracked [] [] = Unit
Tracked ((id, t) ∷ ts) (p ∷ ps) = At id p t × Tracked ts ps
Tracked _ _ = ⊥

-- Whether a running handler of stream `i` has yet to unregister it.
abbrev pub open_in : ℕ → List (ℕ × Task) → List Phase → Bool
open_in i ((id, t) ∷ ts) (p ∷ ps) = (id == i && not (is_settled p)) || open_in i ts ps
open_in i _ _ = false

-- Whether a handler of stream `i` runs.
abbrev pub runs : ℕ → List (ℕ × Task) → Bool
runs i [] = false
runs i ((id, t) ∷ ts) = id == i || runs i ts

pub open_in-runs :
    (i : ℕ) (ts : List (ℕ × Task)) (ps : List Phase) → open_in i ts ps ≡ true → runs i ts ≡ true
open_in-runs i [] ps h = absurd cc
open_in-runs i (t ∷ ts) [] h = absurd cc
open_in-runs i ((id, t) ∷ ts) (p ∷ ps) h = ground (arith, open_in-runs i ts ps)

module _ (answer : (c : Call) → Reply c) where
  unfoldable pub phases : ℕ → List (ℕ × Task) → List Phase → List Phase
  phases zero ((id, finish) ∷ ts) (p ∷ ps) = ps
  phases zero ((id, ask c k) ∷ ts) (p ∷ ps) = next id p c (answer c) ∷ ps
  phases (suc n) (t ∷ ts) (p ∷ ps) = p ∷ phases n ts ps
  phases n ts ps = ps

  pub advance-Tracked :
      (n : ℕ) (ts : List (ℕ × Task)) (ps : List Phase)
      → Tracked ts ps
      → Tracked (advance n answer ts) (phases n ts ps)
  unfolding advance phases
  advance-Tracked zero [] [] h = tt
  advance-Tracked (suc n) [] [] h = tt
  advance-Tracked zero ((id, finish) ∷ ts) (p ∷ ps) h = h.1
  advance-Tracked zero ((id, ask c k) ∷ ts) (p ∷ ps) h = (h.0 (answer c), h.1)
  advance-Tracked (suc n) ((id, t) ∷ ts) (p ∷ ps) h = (h.0, advance-Tracked n ts ps h.1)
  advance-Tracked n [] (p ∷ ps) h = elim h [ ]
  advance-Tracked n (t ∷ ts) [] h = elim h [ ]

  -- A move leaves the other streams open, and closes its own by unregistering it alone.
  pub advance-open_in :
      (i n : ℕ) (ts : List (ℕ × Task)) (ps : List Phase)
      → Tracked ts ps
      → open_in i ts ps ≡ true
      → (call_of n ts ≡ some (close_stream i))
        ⊎ (open_in i (advance n answer ts) (phases n ts ps) ≡ true)
  unfolding advance phases call_of
  advance-open_in i n [] ps h o = absurd cc
  advance-open_in i n (t ∷ ts) [] h o = elim h [ ]
  advance-open_in i zero ((id, finish) ∷ ts) (p ∷ ps) h o = inr (ground (arith, h.0))
  advance-open_in i zero ((id, ask c k) ∷ ts) (p ∷ ps) h o =
      elim (Bool-cases (id == i && not (is_settled p))) [
        | inl e ↦
            elim (next-stays id p c (answer c) (λ b. At-bad id _ (k (answer c)) b (h.0 (answer c)))
              (ground arith)) [
                | inl s ↦ inl (ap some (s ∙ ap close_stream (ground arith)))
                | inr s ↦ inr (ground (arith, e, s))
              ]
        | inr e ↦ inr (ground (arith, e, o))
      ]
  advance-open_in i (suc n) ((id, t) ∷ ts) (p ∷ ps) h o =
      elim (Bool-cases (id == i && not (is_settled p))) [
        | inl e ↦ inr (ground (arith, e))
        | inr e ↦ elim (advance-open_in i n ts ps h.1 (ground (arith, e, o))) [
          | inl s ↦ inl s
          | inr s ↦ inr (ground (arith, s))
        ]
      ]

  -- A move that registers a stream opens it.
  pub advance-register :
      (j n : ℕ) (ts : List (ℕ × Task)) (ps : List Phase)
      → Tracked ts ps
      → call_of n ts ≡ some (register j)
      → open_in j (advance n answer ts) (phases n ts ps) ≡ true
  unfolding advance phases call_of
  advance-register j n [] ps h o = absurd cc
  advance-register j n (t ∷ ts) [] h o = elim h [ ]
  advance-register j zero ((id, finish) ∷ ts) (p ∷ ps) h o = absurd cc
  advance-register j zero ((id, ask c k) ∷ ts) (p ∷ ps) h o =
      let q =
        next-opens id j p c (answer c) (ground (arith, o))
          (λ b. At-bad id _ (k (answer c)) b (h.0 (answer c))) in
      ground (arith, q.0, q.1)
  advance-register j (suc n) ((id, t) ∷ ts) (p ∷ ps) h o =
      ground (arith, advance-register j n ts ps h.1 o)
