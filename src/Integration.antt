-- ===== src/Integration.antt =====
-- integration-tests/src/lib.rs: the SOCKS5 client of the tests, `connect_via_socks5`. A failed
-- assertion gives the conversation up.
pub mod Socks
use echo_proxy_core.Base.{
  ℕ, ◌/◌, ◌%◌, Bool, true, false, ◌&&◌, Option, none, some, List, [], ◌∷◌, ◌++◌, Bytes, ◌==◌,
  length,
}
use echo_proxy_core.Text.{rsplit_once}
use echo_proxy_core.Text.Decimal.{parse_u16}
use echo_proxy_core.Client.Talk.{Talked, Talk, give, give_up, ◌>>=◌, ◌>>◌, read_exact, write}

-- The host and the port of the target.
unfoldable pub target_parts : Bytes → Option (Bytes × ℕ)
target_parts target = elim (rsplit_once b':' target) [
  | none ↦ none
  | some (host, port) ↦ elim (parse_u16 port) [ none ↦ none | some p ↦ some (host, p) ]
]

abbrev pub greeting : Bytes
greeting = 0x05 ∷ 0x01 ∷ 0x00 ∷ []

-- `domain.len() as u8` and `port.to_be_bytes()`.
abbrev pub connect_request : Bytes → ℕ → Bytes
connect_request domain port =
    0x05 ∷ 0x01 ∷ 0x00 ∷ 0x03 ∷ (length domain % 256) ∷ (domain ++ (port / 256) ∷ (port % 256) ∷ [])

-- The two bytes that the tests look at.
abbrev pub starts_with_two : ℕ → ℕ → Bytes → Bool
starts_with_two a b (x ∷ y ∷ bs) = x == a && y == b
starts_with_two a b _ = false

abbrev pub assert_that : Bool → Talk (Unit {0})
assert_that true = give tt
assert_that false = give_up

unfoldable pub shake_hands : Bytes → ℕ → Talk (Unit {0})
shake_hands host port = do
  write greeting
  sel ← read_exact 2
  assert_that (starts_with_two 0x05 0x00 sel)
  write (connect_request host port)
  reply ← read_exact 10
  assert_that (starts_with_two 0x05 0x00 reply)

unfoldable pub connect_via_socks5 : Bytes → Talk (Unit {0})
unfolding target_parts shake_hands
connect_via_socks5 target = elim (target_parts target) [
  | none ↦ give_up
  | some (host, port) ↦ shake_hands host port
]
