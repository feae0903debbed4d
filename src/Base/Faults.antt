-- ===== src/Base/Faults.antt =====
-- Chains of fallible steps against the list of everything that is at fault.
use mathlib.Core.Path.{◌≡◌, refl}
use mathlib.Core.Logic.{◌⊎◌, inl, inr}
use mathlib.Core.List.{List, [], ◌∷◌, ◌++◌}
use echo_proxy_core.Base.Fallible.{Result, ok, err}

-- Without a fault the result is a value that satisfies `P`, and otherwise the first fault.
abbrev pub Outcome : {E A : Type 0} → (A → Type 0) → List E → Result E A → Type 0
Outcome P [] (ok a) = P a
Outcome P [] (err e) = ⊥
Outcome P (e ∷ es) (ok a) = ⊥
Outcome P (e ∷ es) (err e') = e' ≡ e

pub Result-cases :
    {E A : Type 0} (r : Result E A) → ((e : E) × (r ≡ err e)) ⊎ ((a : A) × (r ≡ ok a))
Result-cases (err e) = inl (e, refl)
Result-cases (ok a) = inr (a, refl)

module _ {E A B : Type 0} where
  -- A chain stops at the first step that fails.
  pub Outcome-then :
      (P : A → Type 0) (Q : B → Type 0) (xs ys : List E) (r : Result E A) (f : A → Result E B)
      → Outcome P xs r
      → ((a : A) → P a → Outcome Q ys (f a))
      → Outcome Q (xs ++ ys) (elim r [ ok a ↦ f a | err e ↦ err e ])
  Outcome-then P Q [] ys (ok a) f h k = k a h
  Outcome-then P Q [] ys (err e) f h k = elim h [ ]
  Outcome-then P Q (x ∷ xs) ys (ok a) f h k = elim h [ ]
  Outcome-then P Q (x ∷ xs) ys (err e) f h k = h

  -- A last step that does not fail.
  pub Outcome-map :
      (P : A → Type 0) (Q : B → Type 0) (xs : List E) (r : Result E A) (f : A → B)
      → Outcome P xs r
      → ((a : A) → P a → Q (f a))
      → Outcome Q xs (elim r [ ok a ↦ ok (f a) | err e ↦ err e ])
  Outcome-map P Q [] (ok a) f h k = k a h
  Outcome-map P Q [] (err e) f h k = h
  Outcome-map P Q (x ∷ xs) (ok a) f h k = h
  Outcome-map P Q (x ∷ xs) (err e) f h k = h

module _ {E A : Type 0} where
  pub Outcome-weaken :
      (P Q : A → Type 0) (xs : List E) (r : Result E A)
      → Outcome P xs r
      → ((a : A) → r ≡ ok a → P a → Q a)
      → Outcome Q xs r
  Outcome-weaken P Q [] (ok a) h k = k a refl h
  Outcome-weaken P Q [] (err e) h k = h
  Outcome-weaken P Q (x ∷ xs) (ok a) h k = h
  Outcome-weaken P Q (x ∷ xs) (err e) h k = h
