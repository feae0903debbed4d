-- ===== src/Tunnel/Pools.antt =====
-- A run of both ends is, at the client, a run of its handlers with their connection.
use echo_proxy_core.Base.{
  ℕ, ◌≡◌, refl, sym, ap, ◌∙◌, inl, inr, Bool, none, some, List, [], ◌∷◌, ◌++◌, Bytes, Option-cases,
  get_elem?,
}
use echo_proxy_core.Frame.{encode}
use echo_proxy_core.WebSocket.{binary}
use echo_proxy_core.Client.Pool
use echo_proxy_core.Client.Pool.{Pool, Job}
use echo_proxy_core.Tunnel.{
  Tunnel, Event, spawned, moves, up_taken, down_taken, down_ends, writer_stops, closes, clears_acks,
  step, run, take_up, take_down,
}
use echo_proxy_core.Tunnel.Steps

-- The events of the connection's handlers within a run of both ends.
module _ (should_bypass : Bytes → ℕ → Bool) where
  abbrev pub PoolsFrom : Pool ℕ ℕ → Pool ℕ ℕ → Type 0
  PoolsFrom p p' = (es : List (Pool.Event ℕ ℕ)) × (p' ≡ Pool.run should_bypass es p)

  one_event : (e : Pool.Event ℕ ℕ) (p : Pool ℕ ℕ) → PoolsFrom p (Pool.step should_bypass e p)
  unfolding Pool.run
  one_event e p = (e ∷ [], refl)

  pub no_event : (p p' : Pool ℕ ℕ) → p' ≡ p → PoolsFrom p p'
  unfolding Pool.run
  no_event p p' h = ([], h)

  take_up-pools : (connected : Bool) (t : Tunnel) → PoolsFrom t.pool (take_up connected t).pool
  take_up-pools connected t = no_event t.pool _ (Steps.up_taken-down connected t).0

  take_down-pools : (t : Tunnel) → PoolsFrom t.pool (take_down should_bypass t).pool
  unfolding take_down
  take_down-pools t = elim (Option-cases (get_elem? t.server.outbox t.taken_down)) [
    | inl e ↦ rw (take_down, e) (no_event t.pool t.pool refl)
    | inr (f, e) ↦ rw (take_down, e) (one_event (Pool.arrives (some (binary (encode f)))) t.pool)
  ]

  step-pools : (e : Event) (t : Tunnel) → PoolsFrom t.pool (step should_bypass e t).pool
  unfolding step
  step-pools (spawned id job) t = one_event (Pool.spawned id job) t.pool
  step-pools (moves n answer) t = one_event _ t.pool
  step-pools (up_taken connected) t = take_up-pools connected t
  step-pools down_taken t = take_down-pools t
  step-pools down_ends t = one_event (Pool.arrives none) t.pool
  step-pools writer_stops t = one_event Pool.writer_stops t.pool
  step-pools closes t = one_event Pool.closes t.pool
  step-pools clears_acks t = one_event Pool.clears_acks t.pool
  step-pools _ t = no_event t.pool t.pool refl

  pub Pool_run-append :
      (es es' : List (Pool.Event ℕ ℕ)) (p : Pool ℕ ℕ)
      → Pool.run should_bypass (es ++ es') p
        ≡ Pool.run should_bypass es' (Pool.run should_bypass es p)
  unfolding Pool.run
  Pool_run-append [] es' p = refl
  Pool_run-append (e ∷ es) es' p = Pool_run-append es es' (Pool.step should_bypass e p)

  pub run-pools : (es : List Event) (t : Tunnel) → PoolsFrom t.pool (run should_bypass es t).pool
  unfolding run
  run-pools [] t = no_event t.pool t.pool refl
  run-pools (e ∷ es) t =
      let (a, p) = step-pools e t in
      let (b, q) = run-pools es (step should_bypass e t) in
      (a ++ b, q ∙ ap (Pool.run should_bypass b) p ∙ sym (Pool_run-append a b t.pool))
