-- ===== src/Text.antt =====
-- The operations on `str` and `String` of Rust's standard library that the program calls, on the
-- UTF-8 bytes of the text. A pattern that is a `char` of the program is ASCII, so one byte.
pub mod Utf8
pub mod Decimal
pub mod Trim
pub mod Laws
use echo_proxy_core.Base.{
  ℕ, zero, suc, ◌+◌, ◌-◌, Bool, true, false, ◌&&◌, ◌||◌, not, List, [], ◌∷◌, ◌++◌, map, reverse,
  Option, none, some, Bytes, ◌==◌, leb, within, bytes_eq, length, drop, all, if◌then◌else◌,
}

-- What follows the prefix, `s.strip_prefix(p)`.
unfoldable pub strip_prefix : Bytes → Bytes → Option Bytes
strip_prefix [] s = some s
strip_prefix (p ∷ ps) [] = none
strip_prefix (p ∷ ps) (x ∷ xs) = if p == x then strip_prefix ps xs else none

unfoldable pub starts_with : Bytes → Bytes → Bool
unfolding strip_prefix
starts_with p s = elim (strip_prefix p s) [ none ↦ false | some rest ↦ true ]

unfoldable pub ends_with : Bytes → Bytes → Bool
unfolding bytes_eq
ends_with p s = leb (length p) (length s) && bytes_eq (drop (length s - length p) s) p

-- `s.contains(k)`: the pattern stands at some position, the end included.
unfoldable pub contains : Bytes → Bytes → Bool
unfolding starts_with
contains k [] = starts_with k []
contains k (x ∷ xs) = starts_with k (x ∷ xs) || contains k xs

-- `s.contains(c)` for a character.
abbrev pub has_byte : ℕ → Bytes → Bool
has_byte c [] = false
has_byte c (x ∷ xs) = x == c || has_byte c xs

extend_head : ℕ → ℕ → Bytes → Option (Bytes × Bytes) → Option (Bytes × Bytes)
extend_head c x xs (some (h, t)) = some (x ∷ h, t)
extend_head c x xs none = if x == c then some ([], xs) else none

-- `s.rsplit_once(c)`: split at the last `c`.
unfoldable pub rsplit_once : ℕ → Bytes → Option (Bytes × Bytes)
unfolding extend_head
rsplit_once c [] = none
rsplit_once c (x ∷ xs) = extend_head c x xs (rsplit_once c xs)

cons_head : ℕ → Option (Bytes × Bytes) → Option (Bytes × Bytes)
cons_head x none = none
cons_head x (some (h, t)) = some (x ∷ h, t)

-- `s.split_once(c)`: split at the first `c`.
unfoldable pub split_once : ℕ → Bytes → Option (Bytes × Bytes)
unfolding cons_head
split_once c [] = none
split_once c (x ∷ xs) = if x == c then some ([], xs) else cons_head x (split_once c xs)

-- `s.splitn(n, c)`: at most `n` parts, the last one with the separators that are left.
unfoldable pub splitn : ℕ → ℕ → Bytes → List Bytes
unfolding split_once
splitn zero c s = []
splitn (suc zero) c s = s ∷ []
splitn (suc (suc n)) c s = elim (split_once c s) [
  | none ↦ s ∷ []
  | some (h, t) ↦ h ∷ splitn (suc n) c t
]

-- `s.trim_start_matches(p)` for a test on characters.
abbrev pub drop_while : (ℕ → Bool) → Bytes → Bytes
drop_while p [] = []
drop_while p (x ∷ xs) = if p x then drop_while p xs else x ∷ xs

-- `s.trim_matches(p)` for a test on characters.
unfoldable pub trim_matches : (ℕ → Bool) → Bytes → Bytes
trim_matches p s = reverse (drop_while p (reverse (drop_while p s)))

unfoldable pub lower_byte : ℕ → ℕ
lower_byte c = if within b'A' b'Z' c then c + 32 else c

unfoldable pub upper_byte : ℕ → ℕ
upper_byte c = if within b'a' b'z' c then c - 32 else c

unfoldable pub to_ascii_lowercase : Bytes → Bytes
unfolding lower_byte
to_ascii_lowercase = map lower_byte

unfoldable pub to_ascii_uppercase : Bytes → Bytes
unfolding upper_byte
to_ascii_uppercase = map upper_byte

abbrev pub is_ascii : Bytes → Bool
is_ascii = all (λ b. leb b 127)

-- `str::to_lowercase` and `str::to_uppercase` map the whole of Unicode by tables of the standard
-- library, which are a parameter here; on ASCII text they are the maps above.
pub record CaseMap : Type 0 where
  pub to_lowercase : Bytes → Bytes
  pub to_uppercase : Bytes → Bytes
