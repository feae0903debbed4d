-- ===== src/Text/Decimal/RoundTrip.antt =====
-- Printing a number and parsing it again.
use echo_proxy_core.Base.{
  ℕ, zero, suc, ◌+◌, ◌*◌, ◌/◌, ◌%◌, ◌≤◌, ◌<◌, ◌≡◌, refl, ◌∙◌, [], ◌∷◌, ◌++◌, some, Bool, true,
  false, ◌&&◌, ◌-◌, Bytes, arith, ltb, leb, Bool-cases, inl, inr, ◌>>=◌,
}
use echo_proxy_core.Text.Decimal.{is_digit, parse_digits, parse_unsigned, show_fuel, show_decimal}

parse_digits-append :
    (max acc : ℕ) (xs ys : Bytes)
    → parse_digits max acc (xs ++ ys) ≡ (parse_digits max acc xs >>= λ n. parse_digits max n ys)
unfolding parse_digits
parse_digits-append max acc [] ys = refl
parse_digits-append max acc (x ∷ xs) ys =
    elim (Bool-cases (is_digit x && leb (acc * 10 + (x - 48)) max)) [
      | inl e ↦ rw e (parse_digits-append max (acc * 10 + (x - 48)) xs ys)
      | inr e ↦ rw e
    ]

-- One more digit at the end.
parse_digits-digit :
    (max acc d : ℕ)
    → d < 10
    → acc * 10 + d ≤ max
    → parse_digits max acc ((48 + d) ∷ []) ≡ some (acc * 10 + d)
unfolding parse_digits
parse_digits-digit max acc d h k = ground arith

parse_digits-show : (f n max : ℕ) → n ≤ f → n ≤ max → parse_digits max 0 (show_fuel f n) ≡ some n
unfolding show_fuel
parse_digits-show zero n max h k = ground (arith, parse_digits-digit max 0 (n % 10))
parse_digits-show (suc f) n max h k = elim (Bool-cases (ltb n 10)) [
  | inl e ↦ rw e (ground (arith, parse_digits-digit max 0 n))
  | inr e ↦
      rw (e, parse_digits-append, parse_digits-show f (n / 10) max (ground arith) (omega arith))
        (ground (arith, parse_digits-digit max (n / 10) (n % 10)))
]

abbrev digit_first : Bytes → Bool
digit_first [] = false
digit_first (b ∷ bs) = leb 48 b && leb b 57

digit_first-append : (xs ys : Bytes) → digit_first xs ≡ true → digit_first (xs ++ ys) ≡ true
digit_first-append [] ys h = ground arith
digit_first-append (x ∷ xs) ys h = h

show_fuel-digit_first : (f n : ℕ) → digit_first (show_fuel f n) ≡ true
unfolding show_fuel
show_fuel-digit_first zero n = ground arith
show_fuel-digit_first (suc f) n = ground (
  arith,
  digit_first-append (show_fuel f (n / 10)) ((48 + n % 10) ∷ []),
  show_fuel-digit_first f (n / 10),
)

parse_unsigned-digits :
    (max : ℕ) (s : Bytes) → digit_first s ≡ true → parse_unsigned max s ≡ parse_digits max 0 s
unfolding parse_unsigned
parse_unsigned-digits max [] h = ground arith
parse_unsigned-digits max (b ∷ bs) h = ground arith

-- Every number of the type is read back as it was printed.
pub parse_unsigned-show : (n max : ℕ) → n ≤ max → parse_unsigned max (show_decimal n) ≡ some n
unfolding show_decimal
parse_unsigned-show n max h =
    parse_unsigned-digits max (show_fuel n n) (show_fuel-digit_first n n)
    ∙ parse_digits-show n n max (omega arith) h
