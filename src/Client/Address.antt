-- ===== src/Client/Address.antt =====
-- client/src/lib.rs: the host and port of a request, for routing.
pub mod Split
use echo_proxy_core.Base.{
  ℕ, zero, suc, ◌+◌, ◌-◌, ◌*◌, ◌/◌, ◌%◌, ◌^◌, ◌≤◌, ◌<◌, min, String, ◌≡◌, refl, sym, ap, ◌∙◌, subst,
  ◌≢◌, ◌↔◌, ◌⊎◌, inl, inr, Bool, true, false, not, ◌&&◌, ◌||◌, Option, none, some, List, [], ◌∷◌,
  ◌++◌, map, reverse, arith, Bytes, codes, ltb, leb, ◌==◌, if◌then◌else◌, within, leb→le, ltb→lt,
  lt→ltb, ==_iff, Bool-cases, Option-cases, bytes_eq, bytes_eq_sound, bytes_eq_refl, bytes_eq_iff,
  length, take, drop, any, all, All, length-append, take-append, drop-append, take-append-drop,
  length-take, length-drop, any-split, any-append, append_laws, Result, ok, err, ◌>>=◌, ◌>>◌, guard,
  or_default, or_else, >>=-eq-some,
}
use echo_proxy_core.Text.{rsplit_once, trim_matches}
use echo_proxy_core.Text.Decimal.{parse_u16}

abbrev pub is_bracket : ℕ → Bool
is_bracket c = c == b'[' || c == b']'

-- `split_host_port`, for SOCKS5 targets.
unfoldable pub split_host_port : Bytes → Bytes × ℕ
split_host_port addr = elim (rsplit_once b':' addr) [
  | some (h, p) ↦ (trim_matches is_bracket h, or_default (parse_u16 p) 80)
  | none ↦ (addr, 80)
]

-- The same in `handle_local_connection` and its resilient twin, for HTTP: brackets stay.
unfoldable pub bare_host_port : Bytes → Bytes × ℕ
bare_host_port host = elim (rsplit_once b':' host) [
  | some (h, p) ↦ (h, or_default (parse_u16 p) 80)
  | none ↦ (host, 80)
]
