-- ===== src/Client/Socks.antt =====
-- client/src/lib.rs, "SOCKS5 helpers": `parse_socks5_request`.
pub mod Accepts
pub mod Refuses
use echo_proxy_core.Base.{
  ℕ, zero, suc, ◌+◌, ◌-◌, ◌*◌, ◌/◌, ◌%◌, ◌^◌, ◌≤◌, ◌<◌, min, String, ◌≡◌, refl, sym, ap, ◌∙◌, subst,
  ◌≢◌, ◌↔◌, ◌⊎◌, inl, inr, Bool, true, false, not, ◌&&◌, ◌||◌, Option, none, some, List, [], ◌∷◌,
  ◌++◌, map, reverse, arith, Bytes, codes, ltb, leb, ◌==◌, if◌then◌else◌, within, leb→le, ltb→lt,
  lt→ltb, ==_iff, Bool-cases, Option-cases, bytes_eq, bytes_eq_sound, bytes_eq_refl, bytes_eq_iff,
  length, take, drop, any, all, All, length-append, take-append, drop-append, take-append-drop,
  length-take, length-drop, any-split, any-append, append_laws, Result, ok, err, guard, or_default,
  or_else, >>=-eq-some,
}
use echo_proxy_core.Text.Utf8.{is_utf8}
use echo_proxy_core.Text.{has_byte}
use echo_proxy_core.Text.Decimal.{show_decimal}
use echo_proxy_core.Frame.BigEndian.{u16_from_be_bytes}
use echo_proxy_core.Net.{Ipv4Addr, Ipv6Addr}
use echo_proxy_core.Net.Show.{show_ipv4, show_ipv6, groups_of_bytes}
use echo_proxy_core.Client.Talk.{
  Talk, Talked, give, give_up, read_exact, write, write_or_give_up, ◌>>=◌, ◌>>◌,
}

abbrev pub socks5_version : ℕ
socks5_version = 0x05

abbrev pub socks5_auth_no_auth : ℕ
socks5_auth_no_auth = 0x00

abbrev pub socks5_auth_no_acceptable : ℕ
socks5_auth_no_acceptable = 0xff

abbrev pub socks5_cmd_connect : ℕ
socks5_cmd_connect = 0x01

abbrev pub socks5_atyp_ipv4 : ℕ
socks5_atyp_ipv4 = 0x01

abbrev pub socks5_atyp_domain : ℕ
socks5_atyp_domain = 0x03

abbrev pub socks5_atyp_ipv6 : ℕ
socks5_atyp_ipv6 = 0x04

abbrev pub socks5_rep_success : ℕ
socks5_rep_success = 0x00

abbrev pub socks5_rep_general_failure : ℕ
socks5_rep_general_failure = 0x01

abbrev pub socks5_rep_cmd_not_supported : ℕ
socks5_rep_cmd_not_supported = 0x07

abbrev pub socks5_rep_atyp_not_supported : ℕ
socks5_rep_atyp_not_supported = 0x08

-- VER REP RSV ATYP=IPv4 BND=0.0.0.0:0
unfoldable pub socks5_reply : ℕ → Bytes
socks5_reply rep = socks5_version ∷ rep ∷ 0 ∷ socks5_atyp_ipv4 ∷ 0 ∷ 0 ∷ 0 ∷ 0 ∷ 0 ∷ 0 ∷ []

-- A byte of a buffer of fixed length.
abbrev at : ℕ → Bytes → ℕ
at i [] = 0
at zero (b ∷ bs) = b
at (suc i) (b ∷ bs) = at i bs

-- Version, method count, methods and the choice of a method. `selected` is whether the reply that
-- selects NO_AUTH can be written.
unfoldable pub negotiate : Bool → Talk (Unit {0})
negotiate selected = do
  hdr ← read_exact 2
  if not (at 0 hdr == socks5_version) then give_up else do
    methods ← read_exact (at 1 hdr)
    if has_byte socks5_auth_no_auth methods
        then write_or_give_up selected (socks5_version ∷ socks5_auth_no_auth ∷ [])
        else (do write (socks5_version ∷ socks5_auth_no_acceptable ∷ []); give_up)

read_ipv4 : Talk Bytes
read_ipv4 = do
  addr ← read_exact 4
  give (show_ipv4 (record { a = at 0 addr; b = at 1 addr; c = at 2 addr; d = at 3 addr }))

read_ipv6 : Talk Bytes
read_ipv6 = do
  addr ← read_exact 16
  give (b'[' ∷ (show_ipv6 (record { segments = groups_of_bytes addr }) ++ b']' ∷ []))

read_domain : Talk Bytes
read_domain = do
  len ← read_exact 1
  domain ← read_exact (at 0 len)
  if is_utf8 domain then give domain else give_up

-- The `match atyp`.
unfoldable pub read_host : ℕ → Talk Bytes
unfolding read_ipv4 read_ipv6 read_domain
read_host atyp =
    if atyp == socks5_atyp_ipv4
    then read_ipv4
    else if atyp == socks5_atyp_ipv6
    then read_ipv6
    else if atyp == socks5_atyp_domain
    then read_domain
    else (do write (socks5_reply socks5_rep_atyp_not_supported); give_up)

read_port : Talk ℕ
read_port = do
  port_bytes ← read_exact 2
  give (u16_from_be_bytes (at 0 port_bytes) (at 1 port_bytes))

-- VER CMD RSV ATYP, the address and the port, as "host:port".
unfoldable pub read_request : Talk Bytes
unfolding read_port
read_request = do
  req ← read_exact 4
  if not (at 0 req == socks5_version)
      then give_up
      else if not (at 1 req == socks5_cmd_connect)
      then (do write (socks5_reply socks5_rep_cmd_not_supported); give_up)
      else (do
        host ← read_host (at 3 req)
        port ← read_port
        give (host ++ b':' ∷ show_decimal port))

unfoldable pub parse_socks5_request : Bool → Talk Bytes
parse_socks5_request selected = do negotiate selected; read_request
