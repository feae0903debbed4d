-- ===== src/Net/Show.antt =====
-- `Display` of the addresses.
use echo_proxy_core.Base.{
  ℕ, suc, ◌+◌, ◌*◌, ◌/◌, ◌%◌, ◌≡◌, refl, Bool, false, ◌&&◌, List, [], ◌∷◌, ◌++◌, Bytes, codes, ltb,
  ◌==◌, if◌then◌else◌, take, drop,
}
use echo_proxy_core.Text.Decimal.{show_decimal}
use echo_proxy_core.Net.{Ipv4Addr, Ipv6Addr}

unfoldable pub show_ipv4 : Ipv4Addr → Bytes
unfolding show_decimal
show_ipv4 ip =
    show_decimal ip.a
    ++ b'.' ∷ (show_decimal ip.b ++ b'.' ∷ (show_decimal ip.c ++ b'.' ∷ show_decimal ip.d))

hex_digit : ℕ → ℕ
hex_digit d = if ltb d 10 then 48 + d else 87 + d

-- `{:x}` of a group: no zeros in front.
show_group : ℕ → Bytes
unfolding hex_digit
show_group g =
    let d3 = hex_digit (g / 4096) in
    let d2 = hex_digit (g / 256 % 16) in
    let d1 = hex_digit (g / 16 % 16) in
    let d0 = hex_digit (g % 16) in
    if ltb g 16
    then d0 ∷ []
    else if ltb g 256
    then d1 ∷ d0 ∷ []
    else if ltb g 4096
    then d2 ∷ d1 ∷ d0 ∷ []
    else d3 ∷ d2 ∷ d1 ∷ d0 ∷ []

-- Groups between colons.
show_groups : List ℕ → Bytes
unfolding show_group
show_groups [] = []
show_groups (g ∷ []) = show_group g
show_groups (g ∷ gs) = show_group g ++ b':' ∷ show_groups gs

-- Zeros in front.
zero_run : List ℕ → ℕ
zero_run [] = 0
zero_run (g ∷ gs) = if g == 0 then suc (zero_run gs) else 0

-- Start and length of the first longest run of zeros, from position `i` on.
longest_run : ℕ → ℕ × ℕ → List ℕ → ℕ × ℕ
unfolding zero_run
longest_run i best [] = best
longest_run i (start, len) (g ∷ gs) =
    longest_run (i + 1)
      (if ltb len (zero_run (g ∷ gs)) then (i, zero_run (g ∷ gs)) else (start, len)) gs

is_mapped : List ℕ → Bool
is_mapped (a ∷ b ∷ c ∷ d ∷ e ∷ f ∷ g ∷ h ∷ []) =
    a == 0 && b == 0 && c == 0 && d == 0 && e == 0 && f == 65535
is_mapped _ = false

show_mapped : List ℕ → Bytes
unfolding show_ipv4
show_mapped (a ∷ b ∷ c ∷ d ∷ e ∷ f ∷ g ∷ h ∷ []) =
    codes "::ffff:" ++ show_ipv4 (record { a = g / 256; b = g % 256; c = h / 256; d = h % 256 })
show_mapped _ = []

unfoldable pub show_ipv6 : Ipv6Addr → Bytes
unfolding show_groups longest_run is_mapped show_mapped
show_ipv6 ip =
    let (start, len) = longest_run 0 (0, 0) ip.segments in
    if is_mapped ip.segments
    then show_mapped ip.segments
    else if ltb 1 len
    then show_groups (take start ip.segments)
      ++ codes "::"
      ++ show_groups (drop (start + len) ip.segments)
    else show_groups ip.segments

-- `Ipv6Addr::from([u8; 16])`
unfoldable pub groups_of_bytes : Bytes → List ℕ
groups_of_bytes (x ∷ y ∷ rest) = (x * 256 + y) ∷ groups_of_bytes rest
groups_of_bytes _ = []

shortened :
    show_ipv6 (record { segments = 8193 ∷ 3512 ∷ 0 ∷ 0 ∷ 8 ∷ 2048 ∷ 8204 ∷ 16762 ∷ [] })
    ≡ codes "2001:db8::8:800:200c:417a"
unfolding show_ipv6
shortened = refl

loopback_text : show_ipv6 (record { segments = 0 ∷ 0 ∷ 0 ∷ 0 ∷ 0 ∷ 0 ∷ 0 ∷ 1 ∷ [] }) ≡ codes "::1"
unfolding show_ipv6
loopback_text = refl
