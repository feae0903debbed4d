-- ===== src/Client/Socks/Accepts.antt =====
-- A SOCKS5 client that follows RFC 1928 is understood.
use echo_proxy_core.Base.{
  ℕ, ◌+◌, ◌*◌, ◌≡◌, refl, true, some, List, [], ◌∷◌, ◌++◌, arith, Bytes, length, length-append,
  take-append, drop-append,
}
use echo_proxy_core.Text.{has_byte}
use echo_proxy_core.Text.Utf8.{is_utf8}
use echo_proxy_core.Text.Decimal.{show_decimal}
use echo_proxy_core.Frame.BigEndian.{u16_from_be_bytes}
use echo_proxy_core.Net.{Ipv4Addr}
use echo_proxy_core.Net.Show.{show_ipv4, show_ipv6, groups_of_bytes}
use echo_proxy_core.Client.Talk.{Talked, read_exact}
use echo_proxy_core.Client.Socks.{
  negotiate, read_ipv4, read_ipv6, read_domain, read_host, read_port, read_request,
  parse_socks5_request,
}

-- The three kinds of address; an IPv6 address is its sixteen bytes.
pub data Address : Type 0 where
  ipv4 : Ipv4Addr → Address
  ipv6 : Bytes → Address
  domain : Bytes → Address

-- ATYP and the address as they stand in the request.
abbrev pub atyp : Address → ℕ
atyp (ipv4 ip) = 1
atyp (ipv6 bytes) = 4
atyp (domain name) = 3

abbrev pub address_bytes : Address → Bytes
address_bytes (ipv4 ip) = ip.a ∷ ip.b ∷ ip.c ∷ ip.d ∷ []
address_bytes (ipv6 bytes) = bytes
address_bytes (domain name) = length name ∷ name

-- The host that stands for it.
abbrev pub host_text : Address → Bytes
host_text (ipv4 ip) = show_ipv4 ip
host_text (ipv6 bytes) =
    b'[' ∷ (show_ipv6 (record { segments = groups_of_bytes bytes }) ++ b']' ∷ [])
host_text (domain name) = name

abbrev pub IsAddress : Address → Type 0
IsAddress (ipv4 ip) = Unit
IsAddress (ipv6 bytes) = length bytes ≡ 16
IsAddress (domain name) = is_utf8 name ≡ true

abbrev pub talked : {A : Type 0} → A → List Bytes → Bytes → Talked A
talked a written rest = record { value = some a; written = written; rest = rest }

pub read_exact-append : (xs ys : Bytes) → read_exact (length xs) (xs ++ ys) ≡ talked xs [] ys
unfolding read_exact
read_exact-append xs ys = ground (arith, length-append xs ys, take-append xs ys, drop-append xs ys)

read_exact-eq : (n : ℕ) (xs ys : Bytes) → length xs ≡ n → read_exact n (xs ++ ys) ≡ talked xs [] ys
read_exact-eq n xs ys e = rw (← e) (read_exact-append xs ys)

pub negotiate-no_auth :
    (methods rest : Bytes)
    → has_byte 0 methods ≡ true
    → negotiate true (5 ∷ length methods ∷ (methods ++ rest)) ≡ talked tt ((5 ∷ 0 ∷ []) ∷ []) rest
unfolding negotiate
negotiate-no_auth methods rest h =
    rw
      (
        negotiate,
        read_exact-append (5 ∷ length methods ∷ []) (methods ++ rest),
        read_exact-append methods rest,
        h,
      )
      refl

read_host-address :
    (a : Address) (rest : Bytes)
    → IsAddress a
    → read_host (atyp a) (address_bytes a ++ rest) ≡ talked (host_text a) [] rest
unfolding read_host
read_host-address (ipv4 ip) rest h =
    rw (read_ipv4, read_exact-append (ip.a ∷ ip.b ∷ ip.c ∷ ip.d ∷ []) rest) refl
read_host-address (ipv6 bytes) rest h = rw (read_ipv6, read_exact-eq 16 bytes rest h) refl
read_host-address (domain name) rest h =
    rw
      (
        read_domain,
        read_exact-append (length name ∷ []) (name ++ rest),
        read_exact-append name rest,
        h,
      )
      refl

read_port-bytes : (p q : ℕ) (rest : Bytes) → read_port (p ∷ q ∷ rest) ≡ talked (p * 256 + q) [] rest
unfolding read_port u16_from_be_bytes
read_port-bytes p q rest = rw (read_port, read_exact-append (p ∷ q ∷ []) rest) refl

read_request-connect :
    (a : Address) (reserved p q : ℕ) (rest : Bytes)
    → IsAddress a
    → read_request (5 ∷ 1 ∷ reserved ∷ atyp a ∷ (address_bytes a ++ p ∷ q ∷ rest))
      ≡ talked (host_text a ++ b':' ∷ show_decimal (p * 256 + q)) [] rest
unfolding read_request
read_request-connect a reserved p q rest h =
    rw
      (
        read_request,
        read_exact-append (5 ∷ 1 ∷ reserved ∷ atyp a ∷ []) (address_bytes a ++ p ∷ q ∷ rest),
        read_host-address a (p ∷ q ∷ rest) h,
        read_port-bytes p q rest,
      )
      refl

-- A greeting that offers NO_AUTH and a CONNECT request to any address are read as "host:port", with an
-- IPv6 address in brackets: NO_AUTH is selected, nothing else is written, and nothing behind the
-- request is read.
pub parse_socks5_request-connect :
    (methods : Bytes) (a : Address) (reserved p q : ℕ) (rest : Bytes)
    → has_byte 0 methods ≡ true
    → IsAddress a
    → parse_socks5_request true (
        5
        ∷ length methods
        ∷ (methods ++ (5 ∷ 1 ∷ reserved ∷ atyp a ∷ (address_bytes a ++ p ∷ q ∷ rest))))
      ≡ talked (host_text a ++ b':' ∷ show_decimal (p * 256 + q)) ((5 ∷ 0 ∷ []) ∷ []) rest
unfolding parse_socks5_request
parse_socks5_request-connect methods a reserved p q rest h k =
    rw
      (
        parse_socks5_request,
        negotiate-no_auth methods _ h,
        read_request-connect a reserved p q rest k,
      )
      refl
