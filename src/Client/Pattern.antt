-- ===== src/Client/Pattern.antt =====
-- client/src/lib.rs, "Routing rules": `HostPattern`.
pub mod Matching
pub mod Spelling
use echo_proxy_core.Base.{
  ℕ, zero, suc, ◌+◌, ◌-◌, ◌*◌, ◌/◌, ◌%◌, ◌^◌, ◌≤◌, ◌<◌, min, String, ◌≡◌, refl, sym, ap, ◌∙◌, subst,
  ◌≢◌, ◌↔◌, ◌⊎◌, inl, inr, Bool, true, false, not, ◌&&◌, ◌||◌, Option, none, some, List, [], ◌∷◌,
  ◌++◌, map, reverse, arith, Bytes, codes, ltb, leb, ◌==◌, if◌then◌else◌, within, leb→le, ltb→lt,
  lt→ltb, ==_iff, Bool-cases, Option-cases, bytes_eq, bytes_eq_sound, bytes_eq_refl, bytes_eq_iff,
  length, take, drop, any, all, All, length-append, take-append, drop-append, take-append-drop,
  length-take, length-drop, any-split, any-append, append_laws, Result, ok, err, ◌>>=◌, ◌>>◌, guard,
  or_default, or_else, >>=-eq-some,
}
use echo_proxy_core.Text.{CaseMap, rsplit_once, starts_with, ends_with}
use echo_proxy_core.Text.Decimal.{parse_u16}

pub record HostPattern : Type 0 where
  pub host : Bytes
  pub port : Option ℕ

with_port : Bytes → Bytes → Bytes → HostPattern
with_port s h p = elim (parse_u16 p) [
  | some port ↦ record { host = h; port = some port }
  | none ↦ record { host = s; port = none }
]

unfoldable pub parse : CaseMap → Bytes → HostPattern
unfolding with_port
parse cm text =
    let s = cm.to_lowercase text in
    elim (rsplit_once b':' s) [
      | some (h, p) ↦ with_port s h p
      | none ↦ record { host = s; port = none }
    ]

unfoldable pub port_matches : Option ℕ → ℕ → Bool
port_matches none port = true
port_matches (some p) port = p == port

-- `&self.host[2..]` of a pattern "*.suffix".
unfoldable pub host_matches : Bytes → Bytes → Bool
host_matches pattern host =
    if starts_with (codes "*.") pattern
    then ends_with (drop 2 pattern) host
      && (ltb (length (drop 2 pattern)) (length host)
          && ends_with (codes ".") (take (length host - length (drop 2 pattern)) host))
    else bytes_eq pattern host

unfoldable pub matches : HostPattern → Bytes → ℕ → Bool
unfolding port_matches host_matches
matches r host port = port_matches r.port port && host_matches r.host host
