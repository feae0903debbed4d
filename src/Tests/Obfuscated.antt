-- ===== src/Tests/Obfuscated.antt =====
-- A codec that obeys its laws: n is written as n times the letter a, and then b.
use echo_proxy_core.Base.{
  ℕ, zero, suc, ◌+◌, ◌*◌, ◌/◌, ◌≡◌, refl, ap, ◌∙◌, true, false, Option, none, some, [], ◌∷◌, arith,
  Bytes, codes, ◌==◌, ◌>>=◌,
}
use echo_proxy_core.Text.{is_ascii}
use echo_proxy_core.Text.Utf8.{is_utf8}
use echo_proxy_core.Obfuscation.{Codec, CodecLaws, encode_host, decode_host}
use echo_proxy_core.Obfuscation.RoundTrip.{decode_host-encode_host}

abbrev unary : ℕ → Bytes → Bytes
unary zero rest = 98 ∷ rest
unary (suc n) rest = 97 ∷ unary n rest

abbrev unary_all : Bytes → Bytes
unary_all [] = []
unary_all (b ∷ bs) = unary b (unary_all bs)

abbrev with_head : ℕ → Option Bytes → Option Bytes
with_head n none = none
with_head n (some bs) = some (n ∷ bs)

-- `n` letters were read.
abbrev read_unary : ℕ → Bytes → Option Bytes
read_unary n [] = some []
read_unary n (b ∷ bs) = elim (b == 98) [
  | true ↦ with_head n (read_unary 0 bs)
  | false ↦ read_unary (suc n) bs
]

read_unary-unary :
    (k n : ℕ) (rest : Bytes) → read_unary k (unary n rest) ≡ with_head (k + n) (read_unary 0 rest)
read_unary-unary k zero rest = ap (λ i. with_head i (read_unary 0 rest)) (omega arith)
read_unary-unary k (suc n) rest =
    read_unary-unary (suc k) n rest ∙ ap (λ i. with_head i (read_unary 0 rest)) (omega arith)

read_unary-unary_all : (bs : Bytes) → read_unary 0 (unary_all bs) ≡ some bs
read_unary-unary_all [] = refl
read_unary-unary_all (b ∷ bs) =
    read_unary-unary 0 b (unary_all bs)
    ∙ ap (with_head (0 + b)) (read_unary-unary_all bs)
    ∙ ap (λ n. some (n ∷ bs)) (omega arith)

unary-ascii : (n : ℕ) (rest : Bytes) → is_ascii (unary n rest) ≡ is_ascii rest
unary-ascii zero rest = refl
unary-ascii (suc n) rest = unary-ascii n rest

unary_all-ascii : (bs : Bytes) → is_ascii (unary_all bs) ≡ true
unary_all-ascii [] = refl
unary_all-ascii (b ∷ bs) = unary-ascii b (unary_all bs) ∙ unary_all-ascii bs

abbrev unary_codec : Codec
unary_codec = record { encode = unary_all; decode = read_unary 0; golden = λ n. n * 618 / 1000 }

unary_codec-CodecLaws : CodecLaws unary_codec
unary_codec-CodecLaws = record {
  ascii = unary_all-ascii;
  decode-encode = read_unary-unary_all;
  golden_le = λ n. omega arith;
}

decode_host-encode_host_example :
    (encode_host unary_codec 7 (codes "a:1") >>= decode_host unary_codec) ≡ some (codes "a:1")
unfolding is_utf8
decode_host-encode_host_example =
    decode_host-encode_host unary_codec unary_codec-CodecLaws 7 (codes "a:1") (omega arith) refl
