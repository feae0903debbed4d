-- ===== src/Client/Geosite/Faults.antt =====
-- What makes a file of domain rules fail to load.
use echo_proxy_core.Base.{
  ℕ, ◌≡◌, refl, sym, ◌∙◌, subst, inl, inr, Bool, true, false, Option, none, some, List, [], ◌∷◌,
  ◌++◌, arith, Bytes, ◌==◌, if◌then◌else◌, ==_iff, Bool-cases, any, Result, ok, err, Outcome,
  Outcome-then, Outcome-weaken, Result-cases,
}
use mathlib.Core.List.{flat_map}
use echo_proxy_core.Text.{CaseMap}
use echo_proxy_core.Client.Geosite.{
  RegexApi, io, decode, tag_not_found, invalid_regex, add_regex, GeoSiteError, GeoSiteMatcher,
  Domain, Entry, no_rules, matches, add_domain, add_domains, find_entry, add_tags, load_geosite_dat,
}
use echo_proxy_core.Client.Geosite.Rules.{
  tagged, find_entry-first, entry_matches, matches-load_geosite_dat,
}

module _ (rx : RegexApi) where
  abbrev pub regex_faults : Bytes → Result Bytes rx.Regex → List GeoSiteError
  regex_faults value (ok re) = []
  regex_faults value (err e) = invalid_regex value e ∷ []

  -- What is at fault in a rule: it is a regular expression that does not compile.
  abbrev pub value_faults : ℕ → Bytes → List GeoSiteError
  value_faults kind value = if kind == 1 then regex_faults value (rx.compile value) else []

  abbrev pub rule_faults : CaseMap → Domain → List GeoSiteError
  rule_faults cm d = value_faults d.kind (cm.to_lowercase d.value)

  abbrev pub entry_faults : CaseMap → Bytes → Option Entry → List GeoSiteError
  entry_faults cm tag none = tag_not_found tag ∷ []
  entry_faults cm tag (some e) = flat_map (rule_faults cm) e.domains

  -- All faults of a file, in the order of the tags and of the rules under each.
  abbrev pub file_faults :
      CaseMap
      → (Bytes → Result Bytes (List Entry))
      → List Bytes
      → Result Bytes Bytes
      → List GeoSiteError
  file_faults cm decode_file tags (err e) = io e ∷ []
  file_faults cm decode_file tags (ok bytes) = elim (decode_file bytes) [
    | err e ↦ decode e ∷ []
    | ok list ↦ flat_map (λ tag. entry_faults cm tag (tagged cm tag list)) tags
  ]

  -- Whether a rule under one of the tags matches the host.
  abbrev pub file_matches :
      CaseMap → (Bytes → Result Bytes (List Entry)) → List Bytes → Result Bytes Bytes → Bytes → Bool
  file_matches cm decode_file tags (err e) host = false
  file_matches cm decode_file tags (ok bytes) host = elim (decode_file bytes) [
    | err e ↦ false
    | ok list ↦ any (λ tag. entry_matches rx host cm (tagged cm tag list)) tags
  ]

  abbrev Succeeds : GeoSiteMatcher rx → Type 0
  Succeeds m = Unit

  add_regex-Outcome :
      (value : Bytes) (r : Result Bytes rx.Regex) (m : GeoSiteMatcher rx)
      → Outcome Succeeds (regex_faults value r) (add_regex rx value r m)
  unfolding add_regex
  add_regex-Outcome value (ok re) m = tt
  add_regex-Outcome value (err e) m = refl

  ok-Outcome :
      (a b c : Bool) (x y z w : GeoSiteMatcher rx)
      → Outcome {E = GeoSiteError} Succeeds []
          (if a then ok x else if b then ok y else if c then ok z else ok w)
  ok-Outcome true b c x y z w = tt
  ok-Outcome false true c x y z w = tt
  ok-Outcome false false true x y z w = tt
  ok-Outcome false false false x y z w = tt

  add_domain-Outcome :
      (kind : ℕ) (value : Bytes) (m : GeoSiteMatcher rx)
      → Outcome Succeeds (value_faults kind value) (add_domain rx kind value m)
  unfolding add_domain
  add_domain-Outcome kind value m = elim (Bool-cases (kind == 1)) [
    | inl q ↦
        subst (λ k. Outcome Succeeds (value_faults k value) (add_domain rx k value m))
          (sym ((==_iff kind 1).0 q)) (add_regex-Outcome value (rx.compile value) m)
    | inr q ↦ rw q (ok-Outcome (kind == 2) (kind == 3) (kind == 0) _ _ _ m)
  ]

  add_domains-Outcome :
      (cm : CaseMap) (ds : List Domain) (m : GeoSiteMatcher rx)
      → Outcome Succeeds (flat_map (rule_faults cm) ds) (add_domains rx cm ds m)
  unfolding add_domains flat_map
  add_domains-Outcome cm [] m = tt
  add_domains-Outcome cm (d ∷ ds) m =
      Outcome-then Succeeds Succeeds (rule_faults cm d) _
        (add_domain rx d.kind (cm.to_lowercase d.value) m) (add_domains rx cm ds)
        (add_domain-Outcome d.kind (cm.to_lowercase d.value) m)
        (λ m' u. add_domains-Outcome cm ds m')

  abbrev tag_faults : CaseMap → List Entry → Bytes → List GeoSiteError
  tag_faults cm list tag = entry_faults cm tag (tagged cm tag list)

  add_tags-Outcome :
      (cm : CaseMap) (list : List Entry) (tags : List Bytes) (m : GeoSiteMatcher rx)
      → Outcome Succeeds (flat_map (tag_faults cm list) tags) (add_tags rx cm list tags m)
  unfolding add_tags flat_map
  add_tags-Outcome cm list [] m = tt
  add_tags-Outcome cm list (tag ∷ tags) m =
      subst
        (λ o.
          Outcome Succeeds (entry_faults cm tag o ++ flat_map (tag_faults cm list) tags)
            (add_tags rx cm list (tag ∷ tags) m))
        (find_entry-first rx cm tag list)
        (elim (find_entry rx cm tag list)
          as (λ o.
            Outcome Succeeds (entry_faults cm tag o ++ flat_map (tag_faults cm list) tags) (elim o [
              | none ↦ err (tag_not_found tag)
              | some entry ↦ elim (add_domains rx cm entry.domains m) [
                | ok m' ↦ add_tags rx cm list tags m'
                | err e ↦ err e
              ]
            ])) [
              | none ↦ refl
              | some entry ↦
                  Outcome-then Succeeds Succeeds (flat_map (rule_faults cm) entry.domains) _
                    (add_domains rx cm entry.domains m) (add_tags rx cm list tags)
                    (add_domains-Outcome cm entry.domains m)
                    (λ m' u. add_tags-Outcome cm list tags m')
            ])

  load-Outcome :
      (cm : CaseMap) (file : Result Bytes Bytes) (decode_file : Bytes → Result Bytes (List Entry))
      (tags : List Bytes)
      → Outcome Succeeds
          (file_faults cm decode_file tags file)
          (load_geosite_dat rx cm file decode_file tags)
  unfolding load_geosite_dat
  load-Outcome cm (err e) decode_file tags = refl
  load-Outcome cm (ok bytes) decode_file tags =
      elim (decode_file bytes)
        as (λ r.
          Outcome Succeeds
            (elim r [ err e ↦ decode e ∷ [] | ok list ↦ flat_map (tag_faults cm list) tags ])
            (elim r [
              | err e ↦ err (decode e)
              | ok list ↦ add_tags rx cm list tags (no_rules rx)
            ])) [ err e ↦ refl | ok list ↦ add_tags-Outcome cm list tags (no_rules rx) ]

  loaded_matches :
      (cm : CaseMap) (file : Result Bytes Bytes) (decode_file : Bytes → Result Bytes (List Entry))
      (tags : List Bytes) (host : Bytes) (m : GeoSiteMatcher rx)
      → load_geosite_dat rx cm file decode_file tags ≡ ok m
      → matches rx m host ≡ file_matches cm decode_file tags file host
  unfolding load_geosite_dat
  loaded_matches cm (err e) decode_file tags host m h = cc
  loaded_matches cm (ok bytes) decode_file tags host m h = elim (Result-cases (decode_file bytes)) [
    | inl (e, q) ↦ absurd (ground (arith, q, h))
    | inr (list, q) ↦
        matches-load_geosite_dat rx host cm bytes decode_file tags list m q h
        ∙ rw (file_matches, q) refl
  ]

  pub load_geosite_dat-Outcome :
      (cm : CaseMap) (file : Result Bytes Bytes) (decode_file : Bytes → Result Bytes (List Entry))
      (tags : List Bytes) (host : Bytes)
      → Outcome
          (λ m. matches rx m host ≡ file_matches cm decode_file tags file host)
          (file_faults cm decode_file tags file)
          (load_geosite_dat rx cm file decode_file tags)
  load_geosite_dat-Outcome cm file decode_file tags host =
      Outcome-weaken Succeeds _ (file_faults cm decode_file tags file)
        (load_geosite_dat rx cm file decode_file tags) (load-Outcome cm file decode_file tags)
        (λ m e u. loaded_matches cm file decode_file tags host m e)
