-- ===== src/Text/Trim.antt =====
-- `str::trim` and `trim_end_matches`. White space is that of Unicode, by its UTF-8 bytes.
use echo_proxy_core.Base.{
  ℕ, zero, suc, Bool, true, false, ◌&&◌, ◌||◌, [], ◌∷◌, reverse, Option, none, some, Bytes, ◌==◌,
  within, length, if◌then◌else◌,
}

is_space1 : ℕ → Bool
is_space1 a = within 0x09 0x0d a || a == 0x20

-- U+0085, U+00A0
is_space2 : ℕ → ℕ → Bool
is_space2 a b = a == 0xc2 && (b == 0x85 || b == 0xa0)

-- U+1680, U+2000 to U+200A, U+2028, U+2029, U+202F, U+205F, U+3000
is_space3 : ℕ → ℕ → ℕ → Bool
is_space3 a b c =
    (a == 0xe1 && (b == 0x9a && c == 0x80))
    || (a == 0xe2
        && ((b == 0x80 && (within 0x80 0x8a c || within 0xa8 0xa9 c || c == 0xaf))
            || (b == 0x81 && c == 0x9f)))
    || (a == 0xe3 && (b == 0x80 && c == 0x80))

-- What follows one leading white space character. The first argument is the order in which the
-- bytes of a character stand: as they are, or last byte first.
after_space : Bool → Bytes → Option Bytes
unfolding is_space1 is_space2 is_space3
after_space fwd [] = none
after_space fwd (a ∷ []) = if is_space1 a then some [] else none
after_space fwd (a ∷ b ∷ []) =
    if is_space1 a
    then some (b ∷ [])
    else if (if fwd then is_space2 a b else is_space2 b a)
    then some []
    else none
after_space fwd (a ∷ b ∷ c ∷ r) =
    if is_space1 a
    then some (b ∷ c ∷ r)
    else if (if fwd then is_space2 a b else is_space2 b a)
    then some (c ∷ r)
    else if (if fwd then is_space3 a b c else is_space3 c b a)
    then some r
    else none

-- One round for each byte is enough: a round takes a byte at least.
repeat_strip : ℕ → (Bytes → Option Bytes) → Bytes → Bytes
repeat_strip zero f s = s
repeat_strip (suc n) f s = elim (f s) [ none ↦ s | some r ↦ repeat_strip n f r ]

strip_all : (Bytes → Option Bytes) → Bytes → Bytes
unfolding repeat_strip
strip_all f s = repeat_strip (length s) f s

unfoldable pub trim : Bytes → Bytes
unfolding strip_all after_space
trim s = reverse (strip_all (after_space false) (reverse (strip_all (after_space true) s)))

strip_last_lf : Bytes → Option Bytes
strip_last_lf [] = none
strip_last_lf (a ∷ r) = if a == b'\n' then some r else none

strip_last_crlf : Bytes → Option Bytes
strip_last_crlf [] = none
strip_last_crlf (a ∷ []) = none
strip_last_crlf (a ∷ b ∷ r) = if a == b'\n' && b == b'\r' then some r else none

-- `.trim_end_matches("\r\n")`
unfoldable pub trim_end_crlf : Bytes → Bytes
unfolding strip_all strip_last_crlf
trim_end_crlf s = reverse (strip_all strip_last_crlf (reverse s))

-- `.trim_end_matches('\n')`
unfoldable pub trim_end_lf : Bytes → Bytes
unfolding strip_all strip_last_lf
trim_end_lf s = reverse (strip_all strip_last_lf (reverse s))
