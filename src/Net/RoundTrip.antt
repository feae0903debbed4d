-- ===== src/Net/RoundTrip.antt =====
-- An IPv4 address that was printed is read back.
use echo_proxy_core.Base.{
  ℕ, zero, suc, ◌+◌, ◌/◌, ◌%◌, ◌≤◌, ◌<◌, ◌≡◌, refl, inl, inr, Bool, true, not, some, List, [], ◌∷◌,
  ◌++◌, map, arith, Bytes, ltb, if◌then◌else◌, within, Bool-cases, All, append_laws,
}
use mathlib.Core.List.{append-nil}
use echo_proxy_core.Text.Decimal.{show_decimal, show_fuel}
use echo_proxy_core.Net.{Ipv4Addr, v4}
use echo_proxy_core.Net.Parse.{
  octet, span_digits, read_given_char, read_ip_addr, read_ipv4_addr, parse_ip,
}
use echo_proxy_core.Net.Show.{show_ipv4}

abbrev pub IsIpv4 : Ipv4Addr → Type 0
IsIpv4 ip = (ip.a < 256) × (ip.b < 256) × (ip.c < 256) × (ip.d < 256)

-- The digits of a number below 1000.
abbrev pub small_digits : ℕ → List ℕ
small_digits n =
    if ltb n 10
    then n ∷ []
    else if ltb n 100
    then (n / 10) ∷ (n % 10) ∷ []
    else (n / 100) ∷ (n / 10 % 10) ∷ (n % 10) ∷ []

-- The text goes on with no digit.
abbrev no_digit : Bytes → Bool
no_digit [] = true
no_digit (b ∷ bs) = not (within 48 57 b)

show_fuel-one : (f n : ℕ) → n ≤ f → n < 10 → show_fuel f n ≡ (48 + n) ∷ []
unfolding show_fuel
show_fuel-one zero n h k = ground arith
show_fuel-one (suc f) n h k = ground arith

show_fuel-two :
    (f n : ℕ) → n ≤ f → 10 ≤ n → n < 100 → show_fuel f n ≡ (48 + n / 10) ∷ (48 + n % 10) ∷ []
unfolding show_fuel
show_fuel-two zero n h j k = absurd (omega arith)
show_fuel-two (suc f) n h j k = ground (arith, show_fuel-one f (n / 10))

show_fuel-three :
    (f n : ℕ)
    → n ≤ f
    → 100 ≤ n
    → n < 1000
    → show_fuel f n ≡ (48 + n / 100) ∷ (48 + n / 10 % 10) ∷ (48 + n % 10) ∷ []
unfolding show_fuel
show_fuel-three zero n h j k = absurd (omega arith)
show_fuel-three (suc f) n h j k = ground (arith, show_fuel-two f (n / 10))

pub show_decimal-small : (n : ℕ) → n < 256 → show_decimal n ≡ map (λ d. 48 + d) (small_digits n)
unfolding show_decimal
show_decimal-small n h = ground (arith, show_fuel-one n n, show_fuel-two n n, show_fuel-three n n)

span_digits-map :
    (ds : List ℕ) (rest : Bytes)
    → All (λ d. d < 10) ds
    → no_digit rest ≡ true
    → span_digits 10 (map (λ d. 48 + d) ds ++ rest) ≡ (ds, rest)
unfolding span_digits
span_digits-map [] [] h k = refl
span_digits-map [] (b ∷ bs) h k = ground arith
span_digits-map (d ∷ ds) rest h k = ground (arith, span_digits-map ds rest h.1 k)

pub small_digits-lt : (n : ℕ) → n < 256 → All (λ d. d < 10) (small_digits n)
small_digits-lt n h = elim (Bool-cases (ltb n 10)) [
  | inl e ↦ rw e (ground arith)
  | inr e ↦ elim (Bool-cases (ltb n 100)) [
    | inl k ↦ rw (e, k) (ground arith)
    | inr k ↦ rw (e, k) (ground arith)
  ]
]

octet-show :
    (n : ℕ) (rest : Bytes)
    → n < 256
    → no_digit rest ≡ true
    → octet (show_decimal n ++ rest) ≡ some (n, rest)
unfolding octet
octet-show n rest h k =
    rw (show_decimal-small n h, span_digits-map (small_digits n) rest (small_digits-lt n h) k)
      (elim (Bool-cases (ltb n 10)) [
        | inl e ↦ rw e (ground arith)
        | inr e ↦ elim (Bool-cases (ltb n 100)) [
          | inl k ↦ rw (e, k) (ground arith)
          | inr k ↦ rw (e, k) (ground arith)
        ]
      ])

octet-dot :
    (n : ℕ)
    → n < 256
    → (rest : Bytes) → octet (show_decimal n ++ b'.' ∷ rest) ≡ some (n, b'.' ∷ rest)
octet-dot n h rest = octet-show n (b'.' ∷ rest) h refl

show_ipv4_append :
    (ip : Ipv4Addr) (rest : Bytes)
    → show_ipv4 ip ++ rest
      ≡ show_decimal ip.a
        ++ b'.'
          ∷ (show_decimal ip.b ++ b'.' ∷ (show_decimal ip.c ++ b'.' ∷ (show_decimal ip.d ++ rest)))
unfolding show_ipv4
show_ipv4_append ip rest = simp append_laws

-- Reading a printed address gives it back, and what follows it.
read_ipv4_addr-show :
    (ip : Ipv4Addr) (rest : Bytes)
    → IsIpv4 ip
    → no_digit rest ≡ true
    → read_ipv4_addr (show_ipv4 ip ++ rest) ≡ some (ip, rest)
unfolding read_ipv4_addr read_given_char
read_ipv4_addr-show ip rest h k = simp (
  show_ipv4_append ip rest,
  octet-dot ip.a h.0,
  octet-dot ip.b h.1,
  octet-dot ip.c h.2,
  octet-show ip.d rest h.3 k,
)

pub parse_ip-show : (ip : Ipv4Addr) → IsIpv4 ip → parse_ip (show_ipv4 ip) ≡ some (v4 ip)
unfolding parse_ip read_ip_addr
parse_ip-show ip h =
    let e = rw append-nil at (read_ipv4_addr-show ip [] h refl) in rw (e, parse_ip, read_ip_addr)
