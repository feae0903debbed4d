-- ===== src/Session/Table.antt =====
-- `std::collections::HashMap` with `u32` keys, as an association list. The program never walks over
-- a map, so the order of the entries is not observable.
use echo_proxy_core.Base.{
  ℕ, ◌+◌, ◌≤◌, ◌≡◌, refl, Bool, Option, none, some, List, [], ◌∷◌, arith, ◌==◌, if◌then◌else◌,
}

abbrev pub HashMap : Type 0 → Type 0
HashMap V = List (ℕ × V)

module _ {V : Type 0} where
  unfoldable pub empty : HashMap V
  empty = []

  unfoldable pub lookup : ℕ → HashMap V → Option V
  lookup k [] = none
  lookup k ((j, v) ∷ m) = if j == k then some v else lookup k m

  without : ℕ → HashMap V → HashMap V
  without k [] = []
  without k ((j, v) ∷ m) = let rest = without k m in if j == k then rest else (j, v) ∷ rest

  -- The value that was there, and the map without it.
  unfoldable pub remove : ℕ → HashMap V → Option V × HashMap V
  unfolding lookup without
  remove k m = (lookup k m, without k m)

  unfoldable pub insert : ℕ → V → HashMap V → HashMap V
  unfolding without
  insert k v m = (k, v) ∷ without k m

  lookup-without :
      (k j : ℕ) (m : HashMap V) → lookup j (without k m) ≡ (if k == j then none else lookup j m)
  unfolding lookup without
  lookup-without k j [] = ground arith
  lookup-without k j ((i, v) ∷ m) = ground (arith, lookup-without k j m)

  pub lookup-remove :
      (k j : ℕ) (m : HashMap V) → lookup j (remove k m).1 ≡ (if k == j then none else lookup j m)
  unfolding remove
  lookup-remove k j m = lookup-without k j m

  pub remove_value : (k : ℕ) (m : HashMap V) → (remove k m).0 ≡ lookup k m
  unfolding remove
  remove_value k m = refl

  pub lookup-insert :
      (k j : ℕ) (v : V) (m : HashMap V)
      → lookup j (insert k v m) ≡ (if k == j then some v else lookup j m)
  unfolding insert lookup
  lookup-insert k j v m = ground (arith, lookup-without k j m)

  -- How many of the values in the table, or in an option, satisfy `p`.
  abbrev pub total : (V → Bool) → HashMap V → ℕ
  total p [] = 0
  total p ((j, v) ∷ m) = (if p v then 1 else 0) + total p m

  abbrev pub weight : (V → Bool) → Option V → ℕ
  weight p none = 0
  weight p (some v) = if p v then 1 else 0

  total-without : (p : V → Bool) (k : ℕ) (m : HashMap V) → total p (without k m) ≤ total p m
  unfolding without
  total-without p k [] = omega arith
  total-without p k ((j, v) ∷ m) = ground (arith, total-without p k m)

  total-found :
      (p : V → Bool) (k : ℕ) (m : HashMap V)
      → total p (without k m) + weight p (lookup k m) ≤ total p m
  unfolding without lookup
  total-found p k [] = omega arith
  total-found p k ((j, v) ∷ m) = ground (arith, total-found p k m, total-without p k m)

  -- A value that is removed is counted no more.
  pub total-remove :
      (p : V → Bool) (k : ℕ) (m : HashMap V)
      → total p (remove k m).1 + weight p (remove k m).0 ≤ total p m
  unfolding remove
  total-remove p k m = total-found p k m

  pub total-insert :
      (p : V → Bool) (k : ℕ) (v : V) (m : HashMap V)
      → total p (insert k v m) ≤ (if p v then 1 else 0) + total p m
  unfolding insert
  total-insert p k v m = omega (arith, total-without p k m)

pub lookup-empty : {V : Type 0} (k : ℕ) → lookup k (empty {V = V}) ≡ none
unfolding lookup empty
lookup-empty k = refl

pub ruleset map_laws = (lookup-remove, remove_value, lookup-insert, lookup-empty)
