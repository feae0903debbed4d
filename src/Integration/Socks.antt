-- ===== src/Integration/Socks.antt =====
-- The SOCKS5 client of the tests and the SOCKS5 server of the proxy understand each other.
use echo_proxy_core.Base.{
  ℕ, ◌+◌, ◌*◌, ◌/◌, ◌%◌, ◌≤◌, ◌<◌, ◌≡◌, refl, ap, ◌∙◌, true, some, [], ◌∷◌, ◌++◌, arith, Bytes,
  length,
}
use mathlib.Core.List.{append_assoc}
use echo_proxy_core.Text.Laws.{rsplit_once-join}
use echo_proxy_core.Text.Utf8.{is_utf8}
use echo_proxy_core.Text.Decimal.{show_decimal}
use echo_proxy_core.Client.Address.Split.{has_byte-show_decimal, parse_u16-show}
use echo_proxy_core.Client.Talk.{Talked}
use echo_proxy_core.Client.Socks.{parse_socks5_request, socks5_reply, socks5_rep_success}
use echo_proxy_core.Client.Socks.Accepts.{
  domain, talked, read_exact-append, parse_socks5_request-connect,
}
use echo_proxy_core.Integration.{
  target_parts, greeting, connect_request, shake_hands, connect_via_socks5,
}

target_parts-join :
    (host : Bytes) (port : ℕ)
    → port ≤ 65535
    → target_parts (host ++ b':' ∷ show_decimal port) ≡ some (host, port)
unfolding target_parts
target_parts-join host port h =
    rw
      (
        target_parts,
        rsplit_once-join b':' host (show_decimal port) (has_byte-show_decimal port),
        parse_u16-show port h,
      )
      refl

shake_hands_served :
    (host : Bytes) (port : ℕ) (rest : Bytes)
    → shake_hands host port ((5 ∷ 0 ∷ []) ++ (socks5_reply socks5_rep_success ++ rest))
      ≡ talked tt (greeting ∷ connect_request host port ∷ []) rest
unfolding shake_hands echo_proxy_core.Client.Talk.read_exact socks5_reply
shake_hands_served host port rest =
    rw
      (
        shake_hands,
        read_exact-append (5 ∷ 0 ∷ []) (socks5_reply socks5_rep_success ++ rest),
        read_exact-append (socks5_reply socks5_rep_success) rest,
      )
      refl

parse_socks5_request-connect_request :
    (host : Bytes) (port : ℕ) (more : Bytes)
    → is_utf8 host ≡ true
    → length host < 256
    → parse_socks5_request true (greeting ++ (connect_request host port ++ more))
      ≡ talked (host ++ b':' ∷ show_decimal port) ((5 ∷ 0 ∷ []) ∷ []) more
parse_socks5_request-connect_request host port more u l =
    let n : length host % 256 ≡ length host = omega arith in
    let p : port / 256 * 256 + port % 256 ≡ port = omega arith in
    let r =
      parse_socks5_request-connect (0 ∷ []) (domain host) 0 (port / 256) (port % 256) more refl u in
    rw (n, append_assoc host (port / 256 ∷ port % 256 ∷ []) more)
      (r ∙ ap (λ k. talked (host ++ b':' ∷ show_decimal k) ((5 ∷ 0 ∷ []) ∷ []) more) p)

-- For a host name of fewer than 256 bytes and a port of a u16, the proxy reads from what the test
-- client writes exactly the target, and the test client accepts what the proxy writes; neither reads
-- anything behind.
pub connect_via_socks5_served :
    (host : Bytes) (port : ℕ) (more rest : Bytes)
    → is_utf8 host ≡ true
    → length host < 256
    → port ≤ 65535
    → (parse_socks5_request true (greeting ++ (connect_request host port ++ more))
        ≡ talked (host ++ b':' ∷ show_decimal port) ((5 ∷ 0 ∷ []) ∷ []) more)
      × (connect_via_socks5
            (host ++ b':' ∷ show_decimal port)
            ((5 ∷ 0 ∷ []) ++ (socks5_reply socks5_rep_success ++ rest))
          ≡ talked tt (greeting ∷ connect_request host port ∷ []) rest)
unfolding connect_via_socks5
connect_via_socks5_served host port more rest u l h = (
  parse_socks5_request-connect_request host port more u l,
  rw (connect_via_socks5, target_parts-join host port h) (shake_hands_served host port rest),
)
