-- ===== src/Server/Ssrf/Literals.antt =====
-- Destinations whose host is an address literal, against the CIDR blocks that are meant.
use echo_proxy_core.Base.{
  ℕ, ◌+◌, ◌*◌, ◌/◌, ◌^◌, ◌<◌, ◌≡◌, refl, sym, ap, Bool, true, false, not, ◌&&◌, ◌||◌, List, [], ◌∷◌,
  ◌++◌, map, reverse, arith, Bytes, ◌==◌, All,
}
use mathlib.Core.List.{append_assoc, reverse-append, reverse-reverse}
use echo_proxy_core.Text.{has_byte, trim_matches, drop_while}
use echo_proxy_core.Text.Laws.{
  rsplit_once-join, none_of, none_of-append, none_of-reverse, drop_while-none, trim_matches-none,
}
use echo_proxy_core.Net.{Ipv4Addr, v4, is_loopback, is_private, is_link_local, is_unspecified}
use echo_proxy_core.Net.Show.{show_ipv4}
use echo_proxy_core.Net.RoundTrip.{
  IsIpv4, parse_ip-show, show_decimal-small, small_digits, small_digits-lt,
}
use echo_proxy_core.Text.Decimal.{show_decimal}
use echo_proxy_core.Server.Ssrf.{is_public_ip, is_dest_allowed, dest_host, is_bracket}

-- An IPv4 address as one number, and the block `prefix / len` that holds it.
abbrev pub address : Ipv4Addr → ℕ
address ip = ip.a * 2 ^ 24 + ip.b * 2 ^ 16 + ip.c * 2 ^ 8 + ip.d

abbrev pub in_block : ℕ → ℕ → ℕ → ℕ → ℕ → ℕ → Bool
in_block a b c d host_bits n =
    n / 2 ^ host_bits == (a * 2 ^ 24 + b * 2 ^ 16 + c * 2 ^ 8 + d) / 2 ^ host_bits

-- 127.0.0.0/8, 10.0.0.0/8, 172.16.0.0/12, 192.168.0.0/16, 169.254.0.0/16 and 0.0.0.0/32.
abbrev pub is_blocked : ℕ → Bool
is_blocked n =
    in_block 127 0 0 0 24 n
    || in_block 10 0 0 0 24 n
    || in_block 172 16 0 0 20 n
    || in_block 192 168 0 0 16 n
    || in_block 169 254 0 0 16 n
    || in_block 0 0 0 0 0 n

is_loopback-block :
    (ip : Ipv4Addr) → IsIpv4 ip → is_loopback ip ≡ in_block 127 0 0 0 24 (address ip)
unfolding is_loopback
is_loopback-block ip h = ground arith

is_private-block :
    (ip : Ipv4Addr)
    → IsIpv4 ip
    → is_private ip ≡ (
        in_block 10 0 0 0 24 (address ip)
        || (in_block 172 16 0 0 20 (address ip) || in_block 192 168 0 0 16 (address ip)))
unfolding is_private
is_private-block ip h = ground arith

is_link_local-block :
    (ip : Ipv4Addr) → IsIpv4 ip → is_link_local ip ≡ in_block 169 254 0 0 16 (address ip)
unfolding is_link_local
is_link_local-block ip h = ground arith

is_unspecified-block :
    (ip : Ipv4Addr) → IsIpv4 ip → is_unspecified ip ≡ in_block 0 0 0 0 0 (address ip)
unfolding is_unspecified
is_unspecified-block ip h = ground arith

de_morgan :
    (a b c d e f : Bool)
    → (not a && not (b || (c || d)) && not e && not f) ≡ not (a || b || c || d || e || f)
de_morgan a b c d e f = ground arith

is_public_ip-block :
    (ip : Ipv4Addr) → IsIpv4 ip → is_public_ip (v4 ip) ≡ not (is_blocked (address ip))
unfolding is_public_ip
is_public_ip-block ip h =
    rw
      (
        is_loopback-block ip h,
        is_private-block ip h,
        is_link_local-block ip h,
        is_unspecified-block ip h,
      )
      (de_morgan (in_block 127 0 0 0 24 (address ip)) _ _ _ _ _)

-- Printed addresses hold no bracket.
digits-none_of :
    (ds : List ℕ) → All (λ d. d < 10) ds → none_of is_bracket (map (λ d. 48 + d) ds) ≡ true
digits-none_of [] h = refl
digits-none_of (d ∷ ds) h = ground (arith, digits-none_of ds h.1)

show_decimal-none_of : (n : ℕ) → n < 256 → none_of is_bracket (show_decimal n) ≡ true
show_decimal-none_of n h =
    rw (show_decimal-small n h) (digits-none_of (small_digits n) (small_digits-lt n h))

show_ipv4-none_of : (ip : Ipv4Addr) → IsIpv4 ip → none_of is_bracket (show_ipv4 ip) ≡ true
unfolding show_ipv4
show_ipv4-none_of ip h = simp (
  none_of-append,
  show_decimal-none_of ip.a h.0,
  show_decimal-none_of ip.b h.1,
  show_decimal-none_of ip.c h.2,
  show_decimal-none_of ip.d h.3,
)

dest_host-plain :
    (host port : Bytes)
    → none_of is_bracket host ≡ true
    → has_byte b':' port ≡ false
    → dest_host (host ++ b':' ∷ port) ≡ host
unfolding dest_host
dest_host-plain host port h k =
    rw (rsplit_once-join b':' host port k, dest_host) (trim_matches-none is_bracket host h)

trim_matches-brackets :
    (host : Bytes)
    → none_of is_bracket host ≡ true
    → trim_matches is_bracket (b'[' ∷ (host ++ b']' ∷ [])) ≡ host
unfolding trim_matches
trim_matches-brackets [] h = refl
trim_matches-brackets (x ∷ xs) h =
    let e : drop_while is_bracket (x ∷ (xs ++ b']' ∷ [])) ≡ (x ∷ xs) ++ b']' ∷ [] = ground arith in
    rw (trim_matches, e, reverse-append (x ∷ xs) (b']' ∷ []))
      (rw (drop_while-none is_bracket (reverse (x ∷ xs)) (none_of-reverse is_bracket (x ∷ xs) h))
        (reverse-reverse (x ∷ xs)))

dest_host-brackets :
    (host port : Bytes)
    → none_of is_bracket host ≡ true
    → has_byte b':' port ≡ false
    → dest_host (b'[' ∷ (host ++ b']' ∷ (b':' ∷ port))) ≡ host
unfolding dest_host
dest_host-brackets host port h k =
    let e : b'[' ∷ (host ++ b']' ∷ (b':' ∷ port)) ≡ (b'[' ∷ (host ++ b']' ∷ [])) ++ b':' ∷ port =
      ap (◌∷◌ b'[') (sym (append_assoc host (b']' ∷ []) (b':' ∷ port))) in
    rw (e, rsplit_once-join b':' (b'[' ∷ (host ++ b']' ∷ [])) port k, dest_host)
      (trim_matches-brackets host h)

-- An OPEN for an IPv4 literal, bare or in brackets, with any text for a port that has no colon, is
-- allowed exactly if the address lies in none of the blocks 127.0.0.0/8, 10.0.0.0/8, 172.16.0.0/12,
-- 192.168.0.0/16, 169.254.0.0/16 and 0.0.0.0/32.
pub is_dest_allowed-ipv4 :
    (ip : Ipv4Addr) (port : Bytes)
    → IsIpv4 ip
    → has_byte b':' port ≡ false
    → (is_dest_allowed (show_ipv4 ip ++ b':' ∷ port) ≡ not (is_blocked (address ip)))
      × (is_dest_allowed (b'[' ∷ (show_ipv4 ip ++ b']' ∷ (b':' ∷ port)))
          ≡ not (is_blocked (address ip)))
unfolding is_dest_allowed
is_dest_allowed-ipv4 ip port h k = (
  allowed_by_host _ (dest_host-plain (show_ipv4 ip) port (show_ipv4-none_of ip h) k),
  allowed_by_host _ (dest_host-brackets (show_ipv4 ip) port (show_ipv4-none_of ip h) k),
)
  where
    allowed_by_host :
        (dest : Bytes)
        → dest_host dest ≡ show_ipv4 ip
        → is_dest_allowed dest ≡ not (is_blocked (address ip))
    allowed_by_host dest e = rw (is_dest_allowed, e, parse_ip-show ip h) (is_public_ip-block ip h)
