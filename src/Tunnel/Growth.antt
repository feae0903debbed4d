-- ===== src/Tunnel/Growth.antt =====
-- What was sent stays sent.
use echo_proxy_core.Base.{
  ℕ, refl, ap, ◌∙◌, subst, inl, inr, Bool, List, [], ◌∷◌, ◌++◌, Bytes, Bool-cases, Option-cases,
  get_elem?, All,
}
use mathlib.Core.List.{append_assoc}
use echo_proxy_core.Frame.{Frame, IsFrame}
use echo_proxy_core.Client.Pool.{call_of}
use echo_proxy_core.Tunnel.{
  Tunnel, Event, moves, up_taken, down_taken, up_ends, ack_sent, server_writer_ended, tcp_read,
  tcp_ended, relay_left, is_reading, put_on_wire, take_up, take_down, step, run,
}
use echo_proxy_core.Tunnel.ServerEnd.{Grown, same-Grown, step-Grown}

Grown-trans : (xs ys zs : List Frame) → Grown xs ys → Grown ys zs → Grown xs zs
Grown-trans xs ys zs (a, p) (b, q) = (a ++ b, q ∙ ap (λ l. l ++ b) p ∙ append_assoc xs a b)

All-front : (xs ys : List Frame) → All IsFrame (xs ++ ys) → All IsFrame xs
All-front [] ys h = tt
All-front (x ∷ xs) ys (h, hs) = (h, All-front xs ys hs)

pub All-Grown : (xs ys : List Frame) → Grown xs ys → All IsFrame ys → All IsFrame xs
All-Grown xs ys (new, p) h = All-front xs new (subst (All IsFrame) p h)

abbrev pub Grows : Tunnel → Tunnel → Type 0
Grows t t' = Grown t.sent_up t'.sent_up × Grown t.server.outbox t'.server.outbox

same-Grows : (t : Tunnel) → Grows t t
same-Grows t = (same-Grown _ _ refl, same-Grown _ _ refl)

up_taken-Grows : (connected : Bool) (t : Tunnel) → Grows t (take_up connected t)
unfolding take_up
up_taken-Grows connected t = elim (Option-cases (get_elem? t.sent_up t.taken_up)) [
  | inl e ↦ rw (take_up, e) (same-Grows t)
  | inr (f, e) ↦ elim (Bool-cases (is_reading t.server.reader)) [
    | inl r ↦ rw (take_up, e, r) (same-Grown _ _ refl, step-Grown _ t.server)
    | inr r ↦ rw (take_up, e, r) (same-Grows t)
  ]
]

module _ (should_bypass : Bytes → ℕ → Bool) where
  down_taken-Grows : (t : Tunnel) → Grows t (take_down should_bypass t)
  unfolding take_down
  down_taken-Grows t = elim (Option-cases (get_elem? t.server.outbox t.taken_down)) [
    | inl e ↦ rw (take_down, e) (same-Grows t)
    | inr (f, e) ↦ rw (take_down, e) (same-Grown _ _ refl, same-Grown _ _ refl)
  ]

  pub step-Grows : (e : Event) (t : Tunnel) → Grows t (step should_bypass e t)
  unfolding step
  step-Grows (moves n answer) t =
      ((put_on_wire answer (call_of n t.pool.running), refl), same-Grown _ _ refl)
  step-Grows (up_taken connected) t = up_taken-Grows connected t
  step-Grows down_taken t = down_taken-Grows t
  step-Grows up_ends t = (same-Grown _ _ refl, step-Grown _ t.server)
  step-Grows ack_sent t = (same-Grown _ _ refl, step-Grown _ t.server)
  step-Grows server_writer_ended t = (same-Grown _ _ refl, step-Grown _ t.server)
  step-Grows (tcp_read id bytes) t = (same-Grown _ _ refl, step-Grown _ t.server)
  step-Grows (tcp_ended id) t = (same-Grown _ _ refl, step-Grown _ t.server)
  step-Grows (relay_left id) t = (same-Grown _ _ refl, step-Grown _ t.server)
  step-Grows _ t = same-Grows t

  pub run-Grows : (es : List Event) (t : Tunnel) → Grows t (run should_bypass es t)
  unfolding run
  run-Grows [] t = same-Grows t
  run-Grows (e ∷ es) t =
      let (a, b) = step-Grows e t in
      let (c, d) = run-Grows es (step should_bypass e t) in
      (Grown-trans _ _ _ a c, Grown-trans _ _ _ b d)
