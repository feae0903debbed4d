-- ===== src/Client/Pattern/Matching.antt =====
-- What a pattern of a routing list matches.
use echo_proxy_core.Base.{
  ℕ, ◌-◌, ◌≡◌, refl, sym, ap, ◌∙◌, ◌↔◌, Bool, true, ◌&&◌, Option, ◌∷◌, ◌++◌, arith, Bytes, codes,
  ltb, length, take, length-append, take-append,
}
use mathlib.Core.List.{append_assoc}
use echo_proxy_core.Text.{ends_with}
use echo_proxy_core.Text.Laws.{starts_with_iff, ends_with_iff}
use echo_proxy_core.Client.Pattern.{host_matches, port_matches, matches}

-- `host` is a proper subdomain of `suffix`.
abbrev pub IsSubdomain : Bytes → Bytes → Type 0
IsSubdomain suffix host = (sub : Bytes) × (host ≡ sub ++ b'.' ∷ suffix)

take-append-length : (xs ys : Bytes) → take (length (xs ++ ys) - length ys) (xs ++ ys) ≡ xs
take-append-length xs ys =
    let e : length (xs ++ ys) - length ys ≡ length xs = omega (arith, length-append xs ys) in
    rw e (take-append xs ys)

-- The tests of a wildcard pattern.
abbrev wildcard : Bytes → Bytes → Bool
wildcard suffix host =
    ends_with suffix host
    && (ltb (length suffix) (length host)
        && ends_with (codes ".") (take (length host - length suffix) host))

host_matches-wildcard :
    (suffix host : Bytes) → host_matches (codes "*." ++ suffix) host ≡ wildcard suffix host
unfolding host_matches
host_matches-wildcard suffix host =
    rw ((starts_with_iff (codes "*.") (codes "*." ++ suffix)).1 (suffix, refl))

wildcard_sound : (suffix host : Bytes) → wildcard suffix host ≡ true → IsSubdomain suffix host
wildcard_sound suffix host h =
    let (before, e) = (ends_with_iff suffix host).0 (ground arith) in
    let t : take (length host - length suffix) host ≡ before =
      ap (λ x. take (length x - length suffix) x) e ∙ take-append-length before suffix in
    let (sub, k) =
      (ends_with_iff (codes ".") (take (length host - length suffix) host)).0 (ground arith) in
    (sub, e ∙ ap (λ r. r ++ suffix) (sym t ∙ k) ∙ append_assoc sub (codes ".") suffix)

wildcard_complete : (suffix sub : Bytes) → wildcard suffix (sub ++ b'.' ∷ suffix) ≡ true
wildcard_complete suffix sub =
    let e : sub ++ b'.' ∷ suffix ≡ (sub ++ codes ".") ++ suffix =
      sym (append_assoc sub (codes ".") suffix) in
    rw (e, take-append-length (sub ++ codes ".") suffix)
      (ground (
        arith,
        (ends_with_iff suffix ((sub ++ codes ".") ++ suffix)).1 (sub ++ codes ".", refl),
        (ends_with_iff (codes ".") (sub ++ codes ".")).1 (sub, refl),
        length-append (sub ++ codes ".") suffix,
        length-append sub (codes "."),
      ))

-- A pattern "*.suffix" matches a host and a port exactly if the host is a subdomain of the suffix at
-- any depth, the suffix itself not included, and the port is the pattern's where it has one.
pub matches-wildcard :
    (suffix host : Bytes) (own : Option ℕ) (port : ℕ)
    → (matches (record { host = codes "*." ++ suffix; port = own }) host port ≡ true)
      ↔ (IsSubdomain suffix host × (port_matches own port ≡ true))
unfolding matches
matches-wildcard suffix host own port = rw (host_matches-wildcard suffix host) (there, back)
  where
    there :
        port_matches own port && wildcard suffix host ≡ true
        → IsSubdomain suffix host × (port_matches own port ≡ true)
    there h = (wildcard_sound suffix host (ground arith), ground arith)

    back :
        IsSubdomain suffix host × (port_matches own port ≡ true)
        → port_matches own port && wildcard suffix host ≡ true
    back ((sub, e), h) = rw (e, h) (wildcard_complete suffix sub)
