-- ===== src/Text/Laws.antt =====
-- Laws of the text operations: a split undoes a join, and each test says where the text stands.
use echo_proxy_core.Base.{
  ℕ, ◌-◌, ◌≡◌, refl, sym, ap, ◌∙◌, ◌↔◌, inl, inr, Bool, true, false, not, ◌&&◌, none, some, [], ◌∷◌,
  ◌++◌, reverse, arith, Bytes, Option-cases, bytes_eq_sound, bytes_eq_refl, length, take, drop, all,
  length-append, drop-append, take-append-drop,
}
use mathlib.Core.List.{reverse-reverse, reverse-cons}
use echo_proxy_core.Text.{
  strip_prefix, starts_with, ends_with, has_byte, rsplit_once, split_once, trim_matches, drop_while,
}

pub strip_prefix-append : (p s : Bytes) → strip_prefix p (p ++ s) ≡ some s
unfolding strip_prefix
strip_prefix-append [] s = refl
strip_prefix-append (x ∷ p) s = ground (arith, strip_prefix-append p s)

pub strip_prefix-eq : (p s r : Bytes) → strip_prefix p s ≡ some r → s ≡ p ++ r
unfolding strip_prefix
strip_prefix-eq [] s r h = ground arith
strip_prefix-eq (x ∷ p) [] r h = absurd cc
strip_prefix-eq (x ∷ p) (y ∷ s) r h = ground (arith, strip_prefix-eq p s r)

-- `starts_with` holds exactly of the texts that the prefix begins.
pub starts_with_iff : (p s : Bytes) → (starts_with p s ≡ true) ↔ ((r : Bytes) × (s ≡ p ++ r))
unfolding starts_with
starts_with_iff p s = (there, back)
  where
    there : starts_with p s ≡ true → (r : Bytes) × (s ≡ p ++ r)
    there h = elim (Option-cases (strip_prefix p s)) [
      | inl e ↦ absurd (ground arith)
      | inr (r, e) ↦ (r, strip_prefix-eq p s r e)
    ]

    back : (r : Bytes) × (s ≡ p ++ r) → starts_with p s ≡ true
    back (r, e) = rw (e, strip_prefix-append p r, starts_with)

ends_with-append : (p r : Bytes) → ends_with p (r ++ p) ≡ true
unfolding ends_with
ends_with-append p r =
    let k : length (r ++ p) - length p ≡ length r = omega (arith, length-append r p) in
    ground (arith, length-append r p, drop-append r p, bytes_eq_refl p)

-- `ends_with` holds exactly of the texts that the suffix ends.
pub ends_with_iff : (p s : Bytes) → (ends_with p s ≡ true) ↔ ((r : Bytes) × (s ≡ r ++ p))
unfolding ends_with
ends_with_iff p s = (there, back)
  where
    there : ends_with p s ≡ true → (r : Bytes) × (s ≡ r ++ p)
    there h = (
      take (length s - length p) s,
      sym (take-append-drop (length s - length p) s)
          ∙ ap (◌++◌ (take (length s - length p) s))
              (bytes_eq_sound (drop (length s - length p) s) p (ground arith)),
    )

    back : (r : Bytes) × (s ≡ r ++ p) → ends_with p s ≡ true
    back (r, e) = rw e (ends_with-append p r)

rsplit_once-eq_none : (c : ℕ) (s : Bytes) → rsplit_once c s ≡ none → has_byte c s ≡ false
unfolding rsplit_once
rsplit_once-eq_none c [] e = refl
rsplit_once-eq_none c (x ∷ s) e = ground (arith, rsplit_once-eq_none c s)

-- A split at the last `c` is undone by the join, and no `c` stands behind it.
pub rsplit_once-eq :
    (c : ℕ) (s h t : Bytes)
    → rsplit_once c s ≡ some (h, t)
    → (s ≡ h ++ c ∷ t) × (has_byte c t ≡ false)
unfolding rsplit_once
rsplit_once-eq c [] h t e = absurd cc
rsplit_once-eq c (x ∷ s) h t e = elim (Option-cases (rsplit_once c s)) [
  | inl n ↦ ground (arith, rsplit_once-eq_none c s n)
  | inr ((h', t'), n) ↦ ground (arith, rsplit_once-eq c s h' t' n)
]

pub rsplit_once-none : (c : ℕ) (s : Bytes) → has_byte c s ≡ false → rsplit_once c s ≡ none
unfolding rsplit_once
rsplit_once-none c [] e = refl
rsplit_once-none c (x ∷ s) e = ground (arith, rsplit_once-none c s)

-- What was joined by the last `c` is split there.
pub rsplit_once-join :
    (c : ℕ) (h t : Bytes) → has_byte c t ≡ false → rsplit_once c (h ++ c ∷ t) ≡ some (h, t)
unfolding rsplit_once
rsplit_once-join c [] t e = ground (arith, rsplit_once-none c t)
rsplit_once-join c (x ∷ h) t e = ground (arith, rsplit_once-join c h t)

pub split_once-join :
    (c : ℕ) (h t : Bytes) → has_byte c h ≡ false → split_once c (h ++ c ∷ t) ≡ some (h, t)
unfolding split_once
split_once-join c [] t e = ground arith
split_once-join c (x ∷ h) t e = ground (arith, split_once-join c h t)

-- Text that the test accepts nowhere is not trimmed.
abbrev pub none_of : (ℕ → Bool) → Bytes → Bool
none_of p = all (λ b. not (p b))

pub none_of-append :
    (p : ℕ → Bool) (xs ys : Bytes) → none_of p (xs ++ ys) ≡ (none_of p xs && none_of p ys)
none_of-append p [] ys = refl
none_of-append p (x ∷ xs) ys = ground (arith, none_of-append p xs ys)

pub none_of-reverse :
    (p : ℕ → Bool) (xs : Bytes) → none_of p xs ≡ true → none_of p (reverse xs) ≡ true
none_of-reverse p [] h = refl
none_of-reverse p (x ∷ xs) h =
    rw (reverse-cons x xs, none_of-append p (reverse xs) (x ∷ []))
      (ground (arith, none_of-reverse p xs))

pub drop_while-none : (p : ℕ → Bool) (xs : Bytes) → none_of p xs ≡ true → drop_while p xs ≡ xs
drop_while-none p [] h = refl
drop_while-none p (x ∷ xs) h = ground arith

pub trim_matches-none : (p : ℕ → Bool) (s : Bytes) → none_of p s ≡ true → trim_matches p s ≡ s
unfolding trim_matches
trim_matches-none p s h =
    rw (drop_while-none p s h, drop_while-none p (reverse s) (none_of-reverse p s h))
      (reverse-reverse s)
