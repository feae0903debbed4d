-- ===== src/Text/Decimal.antt =====
-- `str::parse` into an unsigned integer type, and `to_string` of one.
pub mod RoundTrip
use echo_proxy_core.Base.{
  ℕ, zero, suc, ◌+◌, ◌-◌, ◌*◌, ◌/◌, ◌%◌, ◌^◌, Bool, ◌&&◌, List, [], ◌∷◌, ◌++◌, Option, none, some,
  Bytes, ◌==◌, leb, ltb, within, if◌then◌else◌,
}

unfoldable pub is_digit : ℕ → Bool
is_digit b = within b'0' b'9' b

-- The digits after the sign: an overflow of the type is an error at the digit where it happens.
unfoldable pub parse_digits : ℕ → ℕ → Bytes → Option ℕ
unfolding is_digit
parse_digits max acc [] = some acc
parse_digits max acc (b ∷ bs) =
    if is_digit b && leb (acc * 10 + (b - 48)) max
    then parse_digits max (acc * 10 + (b - 48)) bs
    else none

-- At least one digit.
unfoldable pub parse_unsigned_digits : ℕ → Bytes → Option ℕ
unfolding parse_digits
parse_unsigned_digits max [] = none
parse_unsigned_digits max (b ∷ bs) = parse_digits max 0 (b ∷ bs)

-- `s.parse::<uN>()` for a type whose largest value is `max`: a leading `+` is allowed.
unfoldable pub parse_unsigned : ℕ → Bytes → Option ℕ
unfolding parse_unsigned_digits
parse_unsigned max [] = none
parse_unsigned max (b ∷ bs) =
    if b == b'+' then parse_unsigned_digits max bs else parse_unsigned_digits max (b ∷ bs)

abbrev pub u16_max : ℕ
u16_max = 65535

-- `usize` of a 64-bit target.
abbrev pub usize_max : ℕ
usize_max = 18446744073709551615

unfoldable pub parse_u16 : Bytes → Option ℕ
unfolding parse_unsigned
parse_u16 = parse_unsigned u16_max

unfoldable pub parse_usize : Bytes → Option ℕ
unfolding parse_unsigned
parse_usize = parse_unsigned usize_max

-- `n.to_string()`. A number has no more digits than its value, so the fuel `n` is enough.
unfoldable pub show_fuel : ℕ → ℕ → Bytes
show_fuel zero n = (48 + n % 10) ∷ []
show_fuel (suc f) n =
    let rest = show_fuel f (n / 10) in
    if ltb n 10 then (48 + n) ∷ [] else rest ++ (48 + n % 10) ∷ []

unfoldable pub show_decimal : ℕ → Bytes
unfolding show_fuel
show_decimal n = show_fuel n n
