-- ===== src/Client/Geosite/Rules.antt =====
-- Which hosts the rules of a loaded file match.
use echo_proxy_core.Base.{
  ℕ, ◌≡◌, refl, subst, inl, inr, Bool, false, ◌||◌, Option, none, some, List, [], ◌∷◌, ◌++◌, arith,
  Bytes, ◌==◌, if◌then◌else◌, Bool-cases, bytes_eq, drop, any, any-append, Result, ok, err,
}
use echo_proxy_core.Text.{CaseMap, contains, ends_with}
use echo_proxy_core.Client.Geosite.{
  RegexApi, tag_not_found, add_regex, GeoSiteError, GeoSiteMatcher, Domain, Entry, no_rules,
  matches, add_domain, add_domains, find_entry, add_tags, load_geosite_dat,
}

-- The entries whose country code is the tag, upper case against upper case, in their order, and the
-- first of them.
abbrev pub with_tag : CaseMap → Bytes → List Entry → List Entry
with_tag cm tag [] = []
with_tag cm tag (e ∷ es) =
    let rest = with_tag cm tag es in
    if bytes_eq (cm.to_uppercase e.country_code) (cm.to_uppercase tag) then e ∷ rest else rest

abbrev first : List Entry → Option Entry
first [] = none
first (e ∷ es) = some e

abbrev pub tagged : CaseMap → Bytes → List Entry → Option Entry
tagged cm tag list = first (with_tag cm tag list)

module _ (rx : RegexApi) where
  pub find_entry-first :
      (cm : CaseMap) (tag : Bytes) (list : List Entry)
      → find_entry rx cm tag list ≡ tagged cm tag list
  unfolding find_entry
  find_entry-first cm tag [] = refl
  find_entry-first cm tag (e ∷ es) =
      elim (Bool-cases (bytes_eq (cm.to_uppercase e.country_code) (cm.to_uppercase tag))) [
        | inl q ↦ rw q refl
        | inr q ↦ rw q (find_entry-first cm tag es)
      ]

module _ (rx : RegexApi) (host : Bytes) where
  abbrev pub compiled_matches : Result Bytes rx.Regex → Bool
  compiled_matches (ok re) = rx.is_match re host
  compiled_matches (err e) = false

  -- Whether one rule matches: a domain with its subdomains, a full name, a keyword, or a regular
  -- expression.
  abbrev pub value_matches : ℕ → Bytes → Bool
  value_matches kind value =
      if kind == 2
      then bytes_eq host value || ends_with (b'.' ∷ value) host
      else if kind == 3
      then bytes_eq value host
      else if kind == 0
      then contains value host
      else if kind == 1
      then compiled_matches (rx.compile value)
      else false

  abbrev pub rule_matches : CaseMap → Domain → Bool
  rule_matches cm d = value_matches d.kind (cm.to_lowercase d.value)

  abbrev pub entry_matches : CaseMap → Option Entry → Bool
  entry_matches cm none = false
  entry_matches cm (some e) = any (rule_matches cm) e.domains

  -- A rule behind the others of its kind.
  matches-domains :
      (x : Bytes) (m : GeoSiteMatcher rx)
      → matches rx (record m { domains = m.domains ++ x ∷ [] }) host
        ≡ (matches rx m host || (bytes_eq host (drop 1 x) || ends_with x host))
  unfolding matches
  matches-domains x m =
      ground
        (arith, any-append (λ d. bytes_eq host (drop 1 d) || ends_with d host) m.domains (x ∷ []))

  matches-fulls :
      (x : Bytes) (m : GeoSiteMatcher rx)
      → matches rx (record m { fulls = m.fulls ++ x ∷ [] }) host
        ≡ (matches rx m host || bytes_eq x host)
  unfolding matches
  matches-fulls x m = ground (arith, any-append (λ f. bytes_eq f host) m.fulls (x ∷ []))

  matches-keywords :
      (x : Bytes) (m : GeoSiteMatcher rx)
      → matches rx (record m { keywords = m.keywords ++ x ∷ [] }) host
        ≡ (matches rx m host || contains x host)
  unfolding matches
  matches-keywords x m = ground (arith, any-append (λ k. contains k host) m.keywords (x ∷ []))

  matches-regexes :
      (re : rx.Regex) (m : GeoSiteMatcher rx)
      → matches rx (record m { regexes = m.regexes ++ re ∷ [] }) host
        ≡ (matches rx m host || rx.is_match re host)
  unfolding matches
  matches-regexes re m = ground (arith, any-append (λ r. rx.is_match r host) m.regexes (re ∷ []))

  -- What is loaded, or an error, matches `b` or is an error.
  abbrev Loads : Bool → Result GeoSiteError (GeoSiteMatcher rx) → Type 0
  Loads b (ok m) = matches rx m host ≡ b
  Loads b (err e) = Unit

  add_regex-Loads :
      (value : Bytes) (r : Result Bytes rx.Regex) (m : GeoSiteMatcher rx)
      → Loads (matches rx m host || compiled_matches r) (add_regex rx value r m)
  unfolding add_regex
  add_regex-Loads value (ok re) m = matches-regexes re m
  add_regex-Loads value (err e) m = tt

  -- One load after another.
  Loads-then :
      (b c : Bool) (r : Result GeoSiteError (GeoSiteMatcher rx))
      (f : GeoSiteMatcher rx → Result GeoSiteError (GeoSiteMatcher rx))
      → Loads b r
      → ((m : GeoSiteMatcher rx) → matches rx m host ≡ b → Loads c (f m))
      → Loads c (elim r [ ok m ↦ f m | err e ↦ err e ])
  Loads-then b c (ok m) f h k = k m h
  Loads-then b c (err e) f h k = tt

  add_domain-Loads :
      (kind : ℕ) (value : Bytes) (m : GeoSiteMatcher rx)
      → Loads (matches rx m host || value_matches kind value) (add_domain rx kind value m)
  unfolding add_domain
  add_domain-Loads kind value m = elim (Bool-cases (kind == 2)) [
    | inl a ↦ rw a (matches-domains (b'.' ∷ value) m)
    | inr a ↦ elim (Bool-cases (kind == 3)) [
      | inl b ↦ rw (a, b) (matches-fulls value m)
      | inr b ↦ elim (Bool-cases (kind == 0)) [
        | inl c ↦ rw (a, b, c) (matches-keywords value m)
        | inr c ↦ elim (Bool-cases (kind == 1)) [
          | inl d ↦ rw (a, b, c, d) (add_regex-Loads value (rx.compile value) m)
          | inr d ↦ rw (a, b, c, d) (ground arith)
        ]
      ]
    ]
  ]

  add_domains-Loads :
      (cm : CaseMap) (ds : List Domain) (m : GeoSiteMatcher rx)
      → Loads (matches rx m host || any (rule_matches cm) ds) (add_domains rx cm ds m)
  unfolding add_domains
  add_domains-Loads cm [] m = ground arith
  add_domains-Loads cm (d ∷ ds) m =
      Loads-then _ _ (add_domain rx d.kind (cm.to_lowercase d.value) m) (add_domains rx cm ds)
        (add_domain-Loads d.kind (cm.to_lowercase d.value) m)
        (λ m' e.
          subst (λ b. Loads b (add_domains rx cm ds m')) (ground (arith, e))
            (add_domains-Loads cm ds m'))

  add_tags-Loads :
      (cm : CaseMap) (list : List Entry) (tags : List Bytes) (m : GeoSiteMatcher rx)
      → Loads
          (matches rx m host || any (λ tag. entry_matches cm (tagged cm tag list)) tags)
          (add_tags rx cm list tags m)
  unfolding add_tags
  add_tags-Loads cm list [] m = ground arith
  add_tags-Loads cm list (tag ∷ tags) m =
      subst
        (λ o.
          Loads
            (matches rx m host
              || (entry_matches cm o || any (λ x. entry_matches cm (tagged cm x list)) tags))
            (add_tags rx cm list (tag ∷ tags) m))
        (find_entry-first rx cm tag list)
        (elim (find_entry rx cm tag list)
          as (λ o.
            Loads
              (matches rx m host
                || (entry_matches cm o || any (λ x. entry_matches cm (tagged cm x list)) tags))
              (elim o [
                | none ↦ err (tag_not_found tag)
                | some entry ↦ elim (add_domains rx cm entry.domains m) [
                  | ok m' ↦ add_tags rx cm list tags m'
                  | err e ↦ err e
                ]
              ])) [
                | none ↦ tt
                | some entry ↦
                    Loads-then _ _ (add_domains rx cm entry.domains m) (add_tags rx cm list tags)
                      (add_domains-Loads cm entry.domains m)
                      (λ m' e.
                        subst (λ b. Loads b (add_tags rx cm list tags m')) (ground (arith, e))
                          (add_tags-Loads cm list tags m'))
              ])

  no_rules-matches : matches rx (no_rules rx) host ≡ false
  unfolding matches
  no_rules-matches = refl

  load-Loads :
      (cm : CaseMap) (bytes : Bytes) (decode_file : Bytes → Result Bytes (List Entry))
      (tags : List Bytes) (list : List Entry)
      → decode_file bytes ≡ ok list
      → Loads
          (any (λ tag. entry_matches cm (tagged cm tag list)) tags)
          (load_geosite_dat rx cm (ok bytes) decode_file tags)
  unfolding load_geosite_dat
  load-Loads cm bytes decode_file tags list h =
      rw (Loads, load_geosite_dat, h)
        (subst
          (λ b.
            Loads (b || any (λ tag. entry_matches cm (tagged cm tag list)) tags)
              (add_tags rx cm list tags (no_rules rx)))
          no_rules-matches (add_tags-Loads cm list tags (no_rules rx)))

  -- A file that loads without an error matches a host exactly if, for one of the tags, a rule of the
  -- first entry with that tag does: a domain matches itself and its subdomains, a full name itself, a
  -- keyword every host that contains it, a regular expression what it matches.
  pub matches-load_geosite_dat :
      (cm : CaseMap) (bytes : Bytes) (decode_file : Bytes → Result Bytes (List Entry))
      (tags : List Bytes) (list : List Entry) (m : GeoSiteMatcher rx)
      → decode_file bytes ≡ ok list
      → load_geosite_dat rx cm (ok bytes) decode_file tags ≡ ok m
      → matches rx m host ≡ any (λ tag. entry_matches cm (tagged cm tag list)) tags
  matches-load_geosite_dat cm bytes decode_file tags list m d h =
      subst (Loads (any (λ tag. entry_matches cm (tagged cm tag list)) tags)) h
        (load-Loads cm bytes decode_file tags list d)
