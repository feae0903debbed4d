-- ===== src/Net.antt =====
-- `std::net`: the addresses, and the tests on them that the program makes.
pub mod Parse
pub mod Show
pub mod RoundTrip
use echo_proxy_core.Base.{
  ℕ, ◌/◌, ◌%◌, Bool, true, false, ◌&&◌, ◌||◌, List, [], ◌∷◌, Bytes, ◌==◌, within, if◌then◌else◌,
}

-- Four octets, or eight groups of sixteen bits.
pub record Ipv4Addr : Type 0 where
  pub a : ℕ
  pub b : ℕ
  pub c : ℕ
  pub d : ℕ

pub record Ipv6Addr : Type 0 where
  pub segments : List ℕ

pub data IpAddr : Type 0 where
  v4 : Ipv4Addr → IpAddr
  v6 : Ipv6Addr → IpAddr

-- 127.0.0.0/8
unfoldable pub is_loopback : Ipv4Addr → Bool
is_loopback ip = ip.a == 127

-- 10.0.0.0/8, 172.16.0.0/12, 192.168.0.0/16
unfoldable pub is_private : Ipv4Addr → Bool
is_private ip = ip.a == 10 || (ip.a == 172 && within 16 31 ip.b) || (ip.a == 192 && ip.b == 168)

-- 169.254.0.0/16
unfoldable pub is_link_local : Ipv4Addr → Bool
is_link_local ip = ip.a == 169 && ip.b == 254

unfoldable pub is_unspecified : Ipv4Addr → Bool
is_unspecified ip = ip.a == 0 && ip.b == 0 && ip.c == 0 && ip.d == 0

abbrev groups_eq : List ℕ → List ℕ → Bool
groups_eq [] [] = true
groups_eq (x ∷ xs) (y ∷ ys) = x == y && groups_eq xs ys
groups_eq _ _ = false

-- ::1, ::, ff00::/8
unfoldable pub is_loopback_v6 : Ipv6Addr → Bool
is_loopback_v6 ip = groups_eq ip.segments (0 ∷ 0 ∷ 0 ∷ 0 ∷ 0 ∷ 0 ∷ 0 ∷ 1 ∷ [])

unfoldable pub is_unspecified_v6 : Ipv6Addr → Bool
is_unspecified_v6 ip = groups_eq ip.segments (0 ∷ 0 ∷ 0 ∷ 0 ∷ 0 ∷ 0 ∷ 0 ∷ 0 ∷ [])

unfoldable pub is_multicast_v6 : Ipv6Addr → Bool
is_multicast_v6 ip = elim ip.segments [ [] ↦ false | g ∷ gs ↦ g / 256 == 255 ]
