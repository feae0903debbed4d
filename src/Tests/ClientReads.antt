-- ===== src/Tests/ClientReads.antt =====
-- The client's parsers and its routing on concrete requests.
use echo_proxy_core.Base.{false, ◌≡◌, refl, ◌↔◌, true, some, [], ◌∷◌, ◌++◌, Bytes, codes, bytes_eq}
use echo_proxy_core.Text.{CaseMap, has_byte, lower_byte, upper_byte}
use echo_proxy_core.Text.Decimal.{show_decimal}
use echo_proxy_core.Text.Utf8.{is_utf8}
use echo_proxy_core.Client.Socks.{parse_socks5_request}
use echo_proxy_core.Client.Socks.Accepts.{domain, talked, parse_socks5_request-connect}
use echo_proxy_core.Client.Http.{Request, parse_request_header}
use echo_proxy_core.Client.Http.Bounds.{IsRead, parse_request_header-prefix}
use echo_proxy_core.Client.Pattern
use echo_proxy_core.Client.Pattern.{port_matches, host_matches}
use echo_proxy_core.Client.Pattern.Matching.{IsSubdomain, matches-wildcard}

abbrev example_name : Bytes
example_name = codes "ann.example"

parse_socks5_request-connect_example :
    parse_socks5_request true
      (5 ∷ 2 ∷ 2 ∷ 0 ∷ 5 ∷ 1 ∷ 0 ∷ 3 ∷ ((11 ∷ example_name) ++ 1 ∷ 187 ∷ 77 ∷ []))
    ≡ talked (example_name ++ b':' ∷ show_decimal 443) ((5 ∷ 0 ∷ []) ∷ []) (77 ∷ [])
unfolding is_utf8
parse_socks5_request-connect_example =
    parse_socks5_request-connect (2 ∷ 0 ∷ []) (domain example_name) 0 1 187 (77 ∷ []) refl refl

abbrev two_lines : Bytes
two_lines = codes "GET / HTTP/1.1\r\nHost: a.org\r\n\r\nmore"

abbrev parsed : Request
parsed = record {
  host = codes "a.org:80";
  headers = codes "GET / HTTP/1.1\r\nHost: a.org\r\n\r\n";
  body = [];
}

-- Of what follows the request, two bytes were taken ahead.
two_lines-parsed : parse_request_header 2 false two_lines ≡ some (parsed, codes "re")
unfolding parse_request_header echo_proxy_core.Client.Http.read_lines
    echo_proxy_core.Client.Http.lines is_utf8 echo_proxy_core.Client.Http.read_line
    echo_proxy_core.Client.Http.read_content_length echo_proxy_core.Text.starts_with
    echo_proxy_core.Text.to_ascii_lowercase bytes_eq echo_proxy_core.Client.Http.read_host
    echo_proxy_core.Client.Http.read_body mathlib.Core.List.flatten
    echo_proxy_core.Client.Http.with_default_port echo_proxy_core.Client.Http.field_value
    echo_proxy_core.Text.Trim.trim_end_lf echo_proxy_core.Text.Trim.trim_end_crlf
    echo_proxy_core.Text.Trim.trim
two_lines-parsed = refl

parse_request_header-prefix_example : IsRead 2 two_lines parsed (codes "re")
parse_request_header-prefix_example =
    parse_request_header-prefix 2 false two_lines parsed (codes "re") two_lines-parsed

matches-wildcard_example :
    (Pattern.matches
        (record { host = codes "*." ++ codes "org"; port = some 443 })
        (codes "a.org")
        443
      ≡ true)
    ↔ (IsSubdomain (codes "org") (codes "a.org") × (port_matches (some 443) 443 ≡ true))
matches-wildcard_example = matches-wildcard (codes "org") (codes "a.org") (some 443) 443
