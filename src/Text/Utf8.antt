-- ===== src/Text/Utf8.antt =====
-- `str::from_utf8`: which byte strings are UTF-8, by the automaton of the Unicode standard
-- (table 3-7), which is the test that the standard library documents.
use echo_proxy_core.Base.{
  ℕ, ◌≡◌, refl, Bool, true, false, [], ◌∷◌, ◌++◌, arith, Bytes, leb, within, ◌==◌, all,
  if◌then◌else◌,
}

-- The continuation bytes that must follow.
pub data Utf8State : Type 0 where
  start one two three after_e0 after_ed after_f0 after_f4 bad : Utf8State

lead : ℕ → Utf8State
lead b =
    if leb b 0x7f
    then start
    else if within 0xc2 0xdf b
    then one
    else if b == 0xe0
    then after_e0
    else if b == 0xed
    then after_ed
    else if within 0xe1 0xef b
    then two
    else if b == 0xf0
    then after_f0
    else if within 0xf1 0xf3 b
    then three
    else if b == 0xf4
    then after_f4
    else bad

unfoldable pub utf8_step : Utf8State → ℕ → Utf8State
unfolding lead
utf8_step start b = lead b
utf8_step one b = if within 0x80 0xbf b then start else bad
utf8_step two b = if within 0x80 0xbf b then one else bad
utf8_step three b = if within 0x80 0xbf b then two else bad
utf8_step after_e0 b = if within 0xa0 0xbf b then one else bad
utf8_step after_ed b = if within 0x80 0x9f b then one else bad
utf8_step after_f0 b = if within 0x90 0xbf b then two else bad
utf8_step after_f4 b = if within 0x80 0x8f b then two else bad
utf8_step bad b = bad

abbrev utf8_run : Utf8State → Bytes → Utf8State
utf8_run st [] = st
utf8_run st (b ∷ bs) = utf8_run (utf8_step st b) bs

abbrev is_start : Utf8State → Bool
is_start start = true
is_start _ = false

-- Whether `from_utf8` accepts the bytes.
unfoldable pub is_utf8 : Bytes → Bool
unfolding utf8_step
is_utf8 bs = is_start (utf8_run start bs)

utf8_run-append :
    (st : Utf8State) (xs ys : Bytes) → utf8_run st (xs ++ ys) ≡ utf8_run (utf8_run st xs) ys
utf8_run-append st [] ys = refl
utf8_run-append st (x ∷ xs) ys = utf8_run-append (utf8_step st x) xs ys

is_start-eq : (st : Utf8State) → is_start st ≡ true → st ≡ start
is_start-eq start h = refl
is_start-eq one h = cc
is_start-eq _ h = cc

-- Text joined to text is text.
pub is_utf8-append :
    (xs ys : Bytes) → is_utf8 xs ≡ true → is_utf8 ys ≡ true → is_utf8 (xs ++ ys) ≡ true
unfolding is_utf8
is_utf8-append xs ys hx hy =
    ground (arith, utf8_run-append start xs ys, is_start-eq (utf8_run start xs) hx)

-- ASCII is text.
pub ascii-is_utf8 : (bs : Bytes) → all (λ b. leb b 127) bs ≡ true → is_utf8 bs ≡ true
unfolding is_utf8
ascii-is_utf8 [] h = refl
ascii-is_utf8 (b ∷ bs) h = ground (arith, ascii-is_utf8 bs)
