-- ===== src/Client/Listeners/Ids.antt =====
-- The ids that the listeners give, and what ends them.
use echo_proxy_core.Base.{
  ℕ, zero, suc, ◌+◌, ◌-◌, ◌%◌, ◌^◌, ◌<◌, ◌≡◌, refl, sym, ap, ◌∙◌, ◌≢◌, Bool, true, false, not, ◌&&◌,
  some, List, [], ◌∷◌, arith, length, get_elem?,
}
use echo_proxy_core.Client.Listeners.{
  Kind, Event, http_accepted, socks_accepted, http_failed, socks_failed, shut_down, Listeners,
  start, step, run,
}

abbrev pub ids : List (Kind × ℕ) → List ℕ
ids [] = []
ids ((kind, id) ∷ xs) = id ∷ ids xs

-- The first `n` ids, latest first: from 1 on, and round past the largest `u32`.
abbrev pub given : ℕ → List ℕ
given zero = []
given (suc n) = ((1 + n) % 2 ^ 32) ∷ given n

module _ {E : Type 0} where
  record Inv (s : Listeners E) : Type 0 where
    next_given : s.next_id ≡ (1 + length s.spawned) % 2 ^ 32
    all_given : ids s.spawned ≡ given (length s.spawned)
    told : s.keeper_stopped ≡ not s.http_runs

  step-Inv : (e : Event E) (s : Listeners E) → Inv s → Inv (step e s)
  unfolding step
  step-Inv http_accepted s v = ground arith
  step-Inv socks_accepted s v = ground arith
  step-Inv (http_failed e) s v = ground arith
  step-Inv socks_failed s v = ground arith
  step-Inv shut_down s v = ground arith

  run-Inv : (es : List (Event E)) (s : Listeners E) → Inv s → Inv (run es s)
  unfolding run
  run-Inv [] s v = v
  run-Inv (e ∷ es) s v = run-Inv es (step e s) (step-Inv e s v)

  start-Inv : (has_socks : Bool) → Inv (start has_socks)
  unfolding start
  start-Inv has_socks = record { next_given = refl; all_given = refl; told = refl }

given-at : (n i a : ℕ) → get_elem? (given n) i ≡ some a → (i < n) × (a ≡ (n - i) % 2 ^ 32)
given-at zero i a h = absurd cc
given-at (suc n) zero a h = ground arith
given-at (suc n) (suc i) a h =
    let k = given-at n i a h in (omega (arith, k.0), k.1 ∙ ap (λ m. m % 2 ^ 32) (omega arith))

-- Two connections with fewer than 2 ^ 32 accepted from the one to the other, by either listener, have
-- different stream ids.
pub run-start-ids_distinct :
    {E : Type 0} (has_socks : Bool) (es : List (Event E)) (i j a b : ℕ)
    → get_elem? (ids (run es (start has_socks)).spawned) i ≡ some a
    → get_elem? (ids (run es (start has_socks)).spawned) j ≡ some b
    → i < j
    → j < i + 2 ^ 32
    → a ≢ b
run-start-ids_distinct has_socks es i j a b h k lt near e =
    let v = run-Inv es (start has_socks) (start-Inv has_socks) in
    let n = length (run es (start has_socks)).spawned in
    let ha = given-at n i a (sym (ap (λ xs. get_elem? xs i) v.all_given) ∙ h) in
    let hb = given-at n j b (sym (ap (λ xs. get_elem? xs j) v.all_given) ∙ k) in
    omega (arith, ha.0, hb.0, ha.1, hb.1)

-- How far a list of events keeps a listener up.
abbrev pub no_socks_failure : {E : Type 0} → List (Event E) → Bool
no_socks_failure [] = true
no_socks_failure (socks_failed ∷ es) = false
no_socks_failure (_ ∷ es) = no_socks_failure es

step-socks_runs :
    {E : Type 0} (e : Event E) (es : List (Event E)) (s : Listeners E)
    → ((step e s).socks_runs && no_socks_failure es) ≡ (s.socks_runs && no_socks_failure (e ∷ es))
unfolding step
step-socks_runs http_accepted es s = ground arith
step-socks_runs socks_accepted es s = ground arith
step-socks_runs (http_failed e) es s = ground arith
step-socks_runs socks_failed es s = ground arith
step-socks_runs shut_down es s = ground arith

run-socks_runs :
    {E : Type 0} (es : List (Event E)) (s : Listeners E)
    → (run es s).socks_runs ≡ (s.socks_runs && no_socks_failure es)
unfolding run
run-socks_runs [] s = ground arith
run-socks_runs (e ∷ es) s = run-socks_runs es (step e s) ∙ step-socks_runs e es s

-- The keeper is told to stop exactly when the main loop has ended, by a failure or by the shutdown.
-- The SOCKS5 loop ends by a failure of its own listener alone: after a shutdown it still accepts.
pub run-start-ends :
    {E : Type 0} (has_socks : Bool) (es : List (Event E))
    → ((run es (start has_socks)).keeper_stopped ≡ not (run es (start has_socks)).http_runs)
      × ((run es (start has_socks)).socks_runs ≡ (has_socks && no_socks_failure es))
unfolding start
run-start-ends has_socks es =
    ((run-Inv es (start has_socks) (start-Inv has_socks)).told, run-socks_runs es (start has_socks))
