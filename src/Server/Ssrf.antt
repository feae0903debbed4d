-- ===== src/Server/Ssrf.antt =====
-- server/src/lib.rs, "SSRF protection": which destinations a client may open.
pub mod Literals
use echo_proxy_core.Base.{
  ℕ, zero, suc, ◌+◌, ◌-◌, ◌*◌, ◌/◌, ◌%◌, ◌^◌, ◌≤◌, ◌<◌, min, String, ◌≡◌, refl, sym, ap, ◌∙◌, subst,
  ◌≢◌, ◌↔◌, ◌⊎◌, inl, inr, Bool, true, false, not, ◌&&◌, ◌||◌, Option, none, some, List, [], ◌∷◌,
  ◌++◌, map, reverse, arith, Bytes, codes, ltb, leb, ◌==◌, if◌then◌else◌, within, leb→le, ltb→lt,
  lt→ltb, ==_iff, Bool-cases, Option-cases, bytes_eq, bytes_eq_sound, bytes_eq_refl, bytes_eq_iff,
  length, take, drop, any, all, All, length-append, take-append, drop-append, take-append-drop,
  length-take, length-drop, any-split, any-append, append_laws, Result, ok, err, ◌>>=◌, ◌>>◌, guard,
  or_default, or_else, >>=-eq-some,
}
use echo_proxy_core.Text.{rsplit_once, trim_matches}
use echo_proxy_core.Net.{
  IpAddr, v4, v6, is_loopback, is_private, is_link_local, is_unspecified, is_loopback_v6,
  is_unspecified_v6, is_multicast_v6,
}
use echo_proxy_core.Net.Parse.{parse_ip}

unfoldable pub is_public_ip : IpAddr → Bool
is_public_ip (v4 ip) =
    not (is_loopback ip) && not (is_private ip) && not (is_link_local ip) && not (is_unspecified ip)
is_public_ip (v6 ip) =
    not (is_loopback_v6 ip) && not (is_unspecified_v6 ip) && not (is_multicast_v6 ip)

abbrev pub is_bracket : ℕ → Bool
is_bracket c = c == b'[' || c == b']'

-- `dest.rfind(':')` and the slice before it are the first half of a split at the last colon.
unfoldable pub dest_host : Bytes → Bytes
dest_host dest = elim (rsplit_once b':' dest) [
  | some (h, port) ↦ trim_matches is_bracket h
  | none ↦ dest
]

unfoldable pub is_dest_allowed : Bytes → Bool
is_dest_allowed dest = elim (parse_ip (dest_host dest)) [ some ip ↦ is_public_ip ip | none ↦ true ]
