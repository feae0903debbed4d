-- ===== src/Net/Parse.antt =====
-- `str::parse::<IpAddr>`, by the recursive descent of `core::net::parser`.
use echo_proxy_core.Base.{
  ℕ, zero, suc, ◌+◌, ◌-◌, ◌*◌, ◌≡◌, refl, Bool, true, false, not, ◌&&◌, ◌||◌, Option, none, some,
  List, [], ◌∷◌, ◌++◌, Bytes, codes, ltb, leb, ◌==◌, if◌then◌else◌, within, length, ◌>>=◌,
}
use echo_proxy_core.Net.{Ipv4Addr, Ipv6Addr, IpAddr, v4, v6}

-- A digit's value in the radix, upper or lower case.
unfoldable pub digit_value : ℕ → ℕ → Option ℕ
digit_value radix b =
    let v : ℕ =
      if within b'0' b'9' b
      then b - 48
      else if within b'a' b'z' b
      then b - 87
      else if within b'A' b'Z' b
      then b - 55
      else 99 in
    if ltb v radix then some v else none

-- The digits in front, and what follows them.
unfoldable pub span_digits : ℕ → Bytes → List ℕ × Bytes
unfolding digit_value
span_digits radix [] = ([], [])
span_digits radix (b ∷ bs) = elim (digit_value radix b) [
  | none ↦ ([], b ∷ bs)
  | some v ↦ let (ds, rest) = span_digits radix bs in (v ∷ ds, rest)
]

abbrev from_digits : ℕ → ℕ → List ℕ → ℕ
from_digits radix acc [] = acc
from_digits radix acc (d ∷ ds) = from_digits radix (acc * radix + d) ds

leading_zero : List ℕ → Bool
leading_zero (zero ∷ _ ∷ _) = true
leading_zero _ = false

-- At least one digit, at most `max_digits`, a value of at most `bound`; where leading zeros are not
-- allowed, a zero in front stands alone.
unfoldable pub read_number : ℕ → ℕ → Bool → ℕ → Bytes → Option (ℕ × Bytes)
unfolding span_digits leading_zero
read_number radix max_digits allow_zero_prefix bound s =
    let (ds, rest) = span_digits radix s in
    if leb 1 (length ds)
      && leb (length ds) max_digits
      && (allow_zero_prefix || not (leading_zero ds))
      && leb (from_digits radix 0 ds) bound
    then some (from_digits radix 0 ds, rest)
    else none

unfoldable pub read_given_char : ℕ → Bytes → Option Bytes
read_given_char c [] = none
read_given_char c (b ∷ bs) = if b == c then some bs else none

unfoldable pub octet : Bytes → Option (ℕ × Bytes)
unfolding read_number
octet s = read_number 10 3 false 255 s

unfoldable pub read_ipv4_addr : Bytes → Option (Ipv4Addr × Bytes)
unfolding read_given_char
read_ipv4_addr s = do
  (a, s) ← octet s
  s ← read_given_char b'.' s
  (b, s) ← octet s
  s ← read_given_char b'.' s
  (c, s) ← octet s
  s ← read_given_char b'.' s
  (d, s) ← octet s
  some (record { a = a; b = b; c = c; d = d }, s)

-- Behind a colon, but for the first group.
separated {ℓ} : {A : Type ℓ} → Bool → (Bytes → Option A) → Bytes → Option A
unfolding read_given_char
separated true read s = read s
separated false read s = do s ← read_given_char b':' s; read s

-- The groups read so far, whether the last two are an embedded IPv4 address, and the rest.
record Groups : Type 0 where
  groups : List ℕ
  embedded : Bool
  rest : Bytes

embedded_groups : Ipv4Addr → Bytes → Groups
embedded_groups ip s = record {
  groups = (ip.a * 256 + ip.b) ∷ (ip.c * 256 + ip.d) ∷ [];
  embedded = true;
  rest = s;
}

-- `n` groups at most. An embedded address takes two, so it is tried while two are left.
read_groups : ℕ → Bool → Bytes → Groups
unfolding separated read_ipv4_addr read_number embedded_groups
read_groups zero is_first s = record { groups = []; embedded = false; rest = s }
read_groups (suc n) is_first s =
    elim (if leb 1 n then separated is_first read_ipv4_addr s else none) [
      | some (ip, rest) ↦ embedded_groups ip rest
      | none ↦ elim (separated is_first (read_number 16 4 true 65535) s) [
        | none ↦ record { groups = []; embedded = false; rest = s }
        | some (g, rest) ↦
            let more = read_groups n false rest in record more { groups = g ∷ more.groups }
      ]
    ]

zeros : ℕ → List ℕ
zeros zero = []
zeros (suc n) = 0 ∷ zeros n

-- Behind `::`, which stands for one group at least.
read_tail : List ℕ → Bytes → Ipv6Addr × Bytes
unfolding read_groups zeros
read_tail head s =
    let tail = read_groups (7 - length head) true s in
    (
      record { segments = head ++ zeros (8 - length head - length tail.groups) ++ tail.groups },
      tail.rest,
    )

unfoldable pub read_ipv6_addr : Bytes → Option (Ipv6Addr × Bytes)
unfolding read_groups read_tail read_given_char
read_ipv6_addr s =
    let head = read_groups 8 true s in
    if length head.groups == 8
    then some (record { segments = head.groups }, head.rest)
    else if head.embedded
    then none
    else do
      s ← read_given_char b':' head.rest
      s ← read_given_char b':' s
      some (read_tail head.groups s)

-- The whole text must be read.
at_end {ℓ} : {A : Type ℓ} → A × Bytes → Option A
at_end (a, []) = some a
at_end (a, b ∷ bs) = none

-- IPv4 first, then IPv6.
unfoldable pub read_ip_addr : Bytes → Option (IpAddr × Bytes)
read_ip_addr s = elim (read_ipv4_addr s) [
  | some (ip, rest) ↦ some (v4 ip, rest)
  | none ↦ (do (ip, rest) ← read_ipv6_addr s; some (v6 ip, rest))
]

unfoldable pub parse_ip : Bytes → Option IpAddr
unfolding at_end
parse_ip s = do r ← read_ip_addr s; at_end r

private_literal :
    parse_ip (codes "192.168.1.1") ≡ some (v4 (record { a = 192; b = 168; c = 1; d = 1 }))
unfolding parse_ip read_ip_addr read_ipv4_addr read_ipv6_addr octet
private_literal = refl

leading_zero_refused : parse_ip (codes "127.0.0.01") ≡ none
unfolding parse_ip read_ip_addr read_ipv4_addr read_ipv6_addr octet
leading_zero_refused = refl

loopback_literal :
    parse_ip (codes "::1") ≡ some (v6 (record { segments = 0 ∷ 0 ∷ 0 ∷ 0 ∷ 0 ∷ 0 ∷ 0 ∷ 1 ∷ [] }))
unfolding parse_ip read_ip_addr read_ipv4_addr read_ipv6_addr octet
loopback_literal = refl

mapped_literal :
    parse_ip (codes "::ffff:127.0.0.1")
    ≡ some (v6 (record { segments = 0 ∷ 0 ∷ 0 ∷ 0 ∷ 0 ∷ 65535 ∷ 32512 ∷ 1 ∷ [] }))
unfolding parse_ip read_ip_addr read_ipv4_addr read_ipv6_addr octet
mapped_literal = refl

middle_literal :
    parse_ip (codes "2001:db8::8:800:200C:417A")
    ≡ some (v6 (record { segments = 8193 ∷ 3512 ∷ 0 ∷ 0 ∷ 8 ∷ 2048 ∷ 8204 ∷ 16762 ∷ [] }))
unfolding parse_ip read_ip_addr read_ipv4_addr read_ipv6_addr octet
middle_literal = refl

no_address : parse_ip (codes "example.com") ≡ none
unfolding parse_ip read_ip_addr read_ipv4_addr read_ipv6_addr octet
no_address = refl
