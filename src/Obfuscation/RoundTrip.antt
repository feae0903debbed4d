-- ===== src/Obfuscation/RoundTrip.antt =====
-- A host is decoded from what it was encoded to.
use echo_proxy_core.Base.{
  ℕ, zero, suc, ◌-◌, ◌≤◌, ◌<◌, ◌≡◌, refl, sym, ap, ◌∙◌, Bool, true, some, [], ◌∷◌, ◌++◌, arith,
  Bytes, ltb, ltb→lt, lt→ltb, length, take, drop, get_elem?, all, length-append, take-append,
  drop-append, take-append-drop, length-take, ◌>>=◌,
}
use echo_proxy_core.Text.{is_ascii}
use echo_proxy_core.Text.Utf8.{is_utf8}
use echo_proxy_core.Obfuscation.{
  Codec, CodecLaws, charset, at_boundary, char_width, insert_char, remove_head, remove_char,
  encode_host, decode_host,
}

get_elem?-all :
    (p : ℕ → Bool) (xs : Bytes) (i : ℕ)
    → all p xs ≡ true
    → i < length xs
    → (x : ℕ) × (get_elem? xs i ≡ some x) × (p x ≡ true)
get_elem?-all p [] i h lt = absurd (omega arith)
get_elem?-all p (x ∷ xs) zero h lt = (x, refl, ground arith)
get_elem?-all p (x ∷ xs) (suc i) h lt = get_elem?-all p xs i (ground arith) (omega arith)

-- Every place in ASCII is a boundary.
ascii-at_boundary : (s : Bytes) (i : ℕ) → is_ascii s ≡ true → at_boundary (drop i s) ≡ true
unfolding at_boundary
ascii-at_boundary [] zero h = refl
ascii-at_boundary (b ∷ s) zero h = ground arith
ascii-at_boundary [] (suc i) h = refl
ascii-at_boundary (b ∷ s) (suc i) h = ascii-at_boundary s i (ground arith)

insert_char-ascii :
    (i c : ℕ) (s : Bytes)
    → i ≤ length s
    → is_ascii s ≡ true
    → insert_char i c s ≡ some (take i s ++ c ∷ drop i s)
unfolding insert_char
insert_char-ascii i c s le h = ground (arith, ascii-at_boundary s i h)

-- A one-byte character behind `before` is removed.
remove_char-append :
    (before after : Bytes) (c : ℕ)
    → c < 128
    → remove_char (length before) (before ++ c ∷ after) ≡ some (before ++ after)
unfolding remove_char at_boundary remove_head char_width
remove_char-append before after c h =
    rw (remove_char, take-append, drop-append, length-append) (ground arith)

module _ (codec : Codec) where
  decode_host-inserted :
      (before after host : Bytes) (c : ℕ)
      → c < 128
      → codec.golden (length (before ++ after)) ≡ length before
      → codec.decode (before ++ after) ≡ some host
      → is_utf8 host ≡ true
      → decode_host codec (before ++ c ∷ after) ≡ some host
  unfolding decode_host
  decode_host-inserted before after host c h g d u =
      let l : length (before ++ c ∷ after) - 1 ≡ length (before ++ after) =
        omega (arith, length-append before (c ∷ after), length-append before after) in
      let pos : ltb 0 (length (before ++ c ∷ after)) ≡ true =
        lt→ltb _ _ (omega (arith, length-append before (c ∷ after))) in
      rw (decode_host, pos, l, g, remove_char-append before after c h, d, u) refl

  module _ (laws : CodecLaws codec) where
    -- Whatever character is inserted, a host is decoded from what it was encoded to, and neither
    -- function panics, provided the random index is in the charset.
    pub decode_host-encode_host :
        (index : ℕ) (host : Bytes)
        → index < 62
        → is_utf8 host ≡ true
        → (encode_host codec index host >>= decode_host codec) ≡ some host
    unfolding encode_host
    decode_host-encode_host index host h u =
        let e = codec.encode host in
        let i = codec.golden (length e) in
        let le = laws.golden_le (length e) in
        let (c, at, small) = get_elem?-all (λ b. ltb b 128) charset index refl h in
        let len : length (take i e) ≡ i = length-take i e ∙ omega (arith, le) in
        let whole : take i e ++ drop i e ≡ e = take-append-drop i e in
        let decoded =
          decode_host-inserted (take i e) (drop i e) host c (ltb→lt _ _ small)
            (ap (λ b. codec.golden (length b)) whole ∙ sym len)
            (ap codec.decode whole ∙ laws.decode-encode host) u in
        rw (encode_host, at, insert_char-ascii i c e le (laws.ascii host)) decoded
