-- ===== src/Tests/Unit/Domains.antt =====
-- client/src/geosite.rs: `mod tests`. Of the crate `regex` the one expression of the tests is
-- written out.
use echo_proxy_core.Base.{
  ◌≡◌, refl, Bool, true, false, not, ◌&&◌, List, [], ◌∷◌, ◌++◌, map, Bytes, codes, bytes_eq, Result,
  ok, err,
}
use echo_proxy_core.Text.{CaseMap, ends_with}
use echo_proxy_core.Client.Geosite.{
  RegexApi, GeoSiteError, io, GeoSiteMatcher, matches, load_geosite_dat,
}
use echo_proxy_core.Tests.{ascii}

-- `^.*\.cn$`, which a host in one line matches if it ends with .cn
abbrev pub dot_cn : RegexApi
dot_cn = record {
  Regex = Bytes;
  compile = ok;
  is_match = λ r host. bytes_eq r (codes "^.*\\.cn$") && ends_with (codes ".cn") host;
}

abbrev matcher : List Bytes → List Bytes → List Bytes → List Bytes → GeoSiteMatcher dot_cn
matcher domains fulls keywords regexes = record {
  domains = map (λ s. codes "." ++ s) domains;
  fulls = fulls;
  keywords = keywords;
  regexes = regexes;
}

abbrev accepts : GeoSiteMatcher dot_cn → Bytes → Bool
accepts m host = matches dot_cn m host

abbrev domain_suffix_matches_apex_and_subdomain : Bool
domain_suffix_matches_apex_and_subdomain =
    let m = matcher (codes "foo.com" ∷ []) [] [] [] in
    accepts m (codes "foo.com")
    && accepts m (codes "bar.foo.com")
    && accepts m (codes "deep.bar.foo.com")
    && not (accepts m (codes "notfoo.com"))
    && not (accepts m (codes "xfoo.com"))

abbrev full_domain_matches_exactly : Bool
full_domain_matches_exactly =
    let m = matcher [] (codes "www.foo.com" ∷ []) [] [] in
    accepts m (codes "www.foo.com")
    && not (accepts m (codes "foo.com"))
    && not (accepts m (codes "bar.foo.com"))

abbrev keyword_matches_substring : Bool
keyword_matches_substring =
    let m = matcher [] [] (codes "baidu" ∷ []) [] in
    accepts m (codes "www.baidu.com")
    && accepts m (codes "baidu.com")
    && accepts m (codes "tieba.baidu.com")
    && not (accepts m (codes "notba-idu.com"))

abbrev regex_matches_pattern : Bool
regex_matches_pattern =
    let m = matcher [] [] [] (codes "^.*\\.cn$" ∷ []) in
    accepts m (codes "example.cn")
    && accepts m (codes "sub.example.cn")
    && not (accepts m (codes "example.com"))

abbrev is_io_error : Result GeoSiteError (GeoSiteMatcher dot_cn) → Bool
is_io_error (err (io e)) = true
is_io_error _ = false

-- The file cannot be read.
abbrev missing_file_returns_io_error : Bool
missing_file_returns_io_error =
    is_io_error
      (load_geosite_dat dot_cn ascii (err (codes "not found")) (λ bytes. ok []) (codes "cn" ∷ []))

tests_pass :
    (domain_suffix_matches_apex_and_subdomain && full_domain_matches_exactly
      && keyword_matches_substring && regex_matches_pattern && missing_file_returns_io_error)
    ≡ true
unfolding matches load_geosite_dat bytes_eq ends_with echo_proxy_core.Text.contains
tests_pass = refl
