-- ===== src/Obfuscation.antt =====
-- core-lib/src/lib.rs: the deprecated `encode_host` and `decode_host`. The crate `base64`, the random
-- index and the product by a floating-point number are parameters. `none` is a panic.
pub mod RoundTrip
use echo_proxy_core.Base.{
  ℕ, zero, suc, ◌+◌, ◌-◌, ◌*◌, ◌/◌, ◌%◌, ◌^◌, ◌≤◌, ◌<◌, min, String, ◌≡◌, refl, sym, ap, ◌∙◌, subst,
  ◌≢◌, ◌↔◌, ◌⊎◌, inl, inr, Bool, true, false, not, ◌&&◌, ◌||◌, Option, none, some, List, [], ◌∷◌,
  ◌++◌, map, reverse, arith, Bytes, codes, ltb, leb, ◌==◌, if◌then◌else◌, within, leb→le, ltb→lt,
  lt→ltb, ==_iff, Bool-cases, Option-cases, bytes_eq, bytes_eq_sound, bytes_eq_refl, bytes_eq_iff,
  length, take, drop, get_elem?, any, all, All, length-append, take-append, drop-append,
  take-append-drop, length-take, length-drop, any-split, any-append, append_laws, Result, ok, err,
  ◌>>=◌, ◌>>◌, guard, or_default, or_else, >>=-eq-some,
}
use echo_proxy_core.Text.{is_ascii}
use echo_proxy_core.Text.Utf8.{is_utf8}

-- `BASE64_STANDARD.encode` and `.decode`, and `(n as f64 * 0.618).floor() as usize`.
pub record Codec : Type 0 where
  pub encode : Bytes → Bytes
  pub decode : Bytes → Option Bytes
  pub golden : ℕ → ℕ

-- What is documented of them: Base64 is ASCII and is decoded to what it encodes, and 0.618 * n lies
-- below n, as its floor does.
pub record CodecLaws (c : Codec) : Type 0 where
  pub ascii : (bs : Bytes) → is_ascii (c.encode bs) ≡ true
  pub decode-encode : (bs : Bytes) → c.decode (c.encode bs) ≡ some bs
  pub golden_le : (n : ℕ) → c.golden n ≤ n

abbrev pub charset : Bytes
charset = codes "ABCDEFGHIJKLMNOPQRSTUVWXYZabcdefghijklmnopqrstuvwxyz0123456789"

-- Whether a character of a UTF-8 text starts at the head, or the text ends there.
unfoldable pub at_boundary : Bytes → Bool
at_boundary [] = true
at_boundary (b ∷ bs) = ltb b 0x80 || leb 0xc0 b

-- The bytes of a character, by its first.
unfoldable pub char_width : ℕ → ℕ
char_width b = if ltb b 0x80 then 1 else if ltb b 0xe0 then 2 else if ltb b 0xf0 then 3 else 4

-- `String::insert` of an ASCII character.
unfoldable pub insert_char : ℕ → ℕ → Bytes → Option Bytes
unfolding at_boundary
insert_char i c s =
    if leb i (length s) && at_boundary (drop i s) then some (take i s ++ c ∷ drop i s) else none

remove_head : Bytes → Bytes → Option Bytes
remove_head before [] = none
remove_head before (b ∷ bs) = some (before ++ drop (char_width b) (b ∷ bs))

-- `String::remove`, which needs a character at the index.
unfoldable pub remove_char : ℕ → Bytes → Option Bytes
unfolding at_boundary remove_head char_width
remove_char i s =
    if leb i (length s) && at_boundary (drop i s) then remove_head (take i s) (drop i s) else none

module _ (codec : Codec) where
  -- `index` is what `random_range` returns, below the length of the charset.
  unfoldable pub encode_host : ℕ → Bytes → Option Bytes
  encode_host index host = do
    let encoded = codec.encode host
    let idx = codec.golden (length encoded)
    c ← get_elem? charset index
    insert_char idx c encoded

  -- `s.len() - 1` of the empty text panics.
  unfoldable pub decode_host : Bytes → Option Bytes
  decode_host s = do
    guard (ltb 0 (length s))
    s' ← remove_char (codec.golden (length s - 1)) s
    bytes ← codec.decode s'
    guard (is_utf8 bytes)
    some bytes
