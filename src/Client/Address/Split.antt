-- ===== src/Client/Address/Split.antt =====
-- The host and port of an address that was written with both.
use echo_proxy_core.Base.{
  ℕ, zero, suc, ◌+◌, ◌/◌, ◌%◌, ◌≤◌, ◌≡◌, refl, inl, inr, true, false, ◌||◌, some, [], ◌∷◌, ◌++◌,
  arith, Bytes, ltb, Bool-cases,
}
use echo_proxy_core.Text.{has_byte}
use echo_proxy_core.Text.Laws.{none_of, rsplit_once-join, trim_matches-none}
use echo_proxy_core.Text.Decimal.{show_fuel, show_decimal, parse_u16}
use echo_proxy_core.Text.Decimal.RoundTrip.{parse_unsigned-show}
use echo_proxy_core.Client.Address.{is_bracket, split_host_port, bare_host_port}

has_byte-append : (c : ℕ) (xs ys : Bytes) → has_byte c (xs ++ ys) ≡ (has_byte c xs || has_byte c ys)
has_byte-append c [] ys = refl
has_byte-append c (x ∷ xs) ys = ground (arith, has_byte-append c xs ys)

-- A digit is no colon.
has_byte-show_fuel : (f n : ℕ) → has_byte b':' (show_fuel f n) ≡ false
unfolding show_fuel
has_byte-show_fuel zero n = ground arith
has_byte-show_fuel (suc f) n = elim (Bool-cases (ltb n 10)) [
  | inl e ↦ rw e (ground arith)
  | inr e ↦
      rw
        (
          e,
          has_byte-append b':' (show_fuel f (n / 10)) ((48 + n % 10) ∷ []),
          has_byte-show_fuel f (n / 10),
        )
        (ground arith)
]

pub has_byte-show_decimal : (n : ℕ) → has_byte b':' (show_decimal n) ≡ false
unfolding show_decimal
has_byte-show_decimal n = has_byte-show_fuel n n

pub parse_u16-show : (n : ℕ) → n ≤ 65535 → parse_u16 (show_decimal n) ≡ some n
unfolding parse_u16
parse_u16-show n h = parse_unsigned-show n 65535 h

-- An address "host:port" is split into its host and its port, whatever colons the host has itself,
-- provided the host has no brackets.
pub split_host_port-join :
    (host : Bytes) (port : ℕ)
    → none_of is_bracket host ≡ true
    → port ≤ 65535
    → split_host_port (host ++ b':' ∷ show_decimal port) ≡ (host, port)
unfolding split_host_port
split_host_port-join host port h k = rw (
  split_host_port,
  rsplit_once-join b':' host (show_decimal port) (has_byte-show_decimal port),
  parse_u16-show port k,
  trim_matches-none is_bracket host h,
)

-- The routing of HTTP requests takes "host:port" apart in the same way.
pub bare_host_port-join :
    (host : Bytes) (port : ℕ)
    → port ≤ 65535
    → bare_host_port (host ++ b':' ∷ show_decimal port) ≡ (host, port)
unfolding bare_host_port
bare_host_port-join host port k = rw (
  bare_host_port,
  rsplit_once-join b':' host (show_decimal port) (has_byte-show_decimal port),
  parse_u16-show port k,
)
