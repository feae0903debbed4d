-- ===== src/Client/Geosite.antt =====
-- client/src/geosite.rs: domain rules. Regular expressions are those of the crate `regex`, and the
-- file is read by `std::fs` and decoded by the crate `geosite_rs`.
pub mod Rules
pub mod Faults
use echo_proxy_core.Base.{
  ℕ, Bool, true, ◌||◌, Option, none, some, List, [], ◌∷◌, ◌++◌, Bytes, ◌==◌, if◌then◌else◌,
  bytes_eq, drop, any, Result, ok, err,
}
use echo_proxy_core.Text.{CaseMap, contains, ends_with}

pub record RegexApi : Type 1 where
  pub Regex : Type 0
  -- `Regex::new`, its error already printed.
  pub compile : Bytes → Result Bytes Regex
  pub is_match : Regex → Bytes → Bool

pub data GeoSiteError : Type 0 where
  io : Bytes → GeoSiteError
  decode : Bytes → GeoSiteError
  tag_not_found : Bytes → GeoSiteError
  invalid_regex : Bytes → Bytes → GeoSiteError

-- The messages that `geosite_rs` decodes.
pub record Domain : Type 0 where
  pub kind : ℕ
  pub value : Bytes

pub record Entry : Type 0 where
  pub country_code : Bytes
  pub domains : List Domain

module _ (rx : RegexApi) where
  pub record GeoSiteMatcher : Type 0 where
    pub domains : List Bytes
    pub fulls : List Bytes
    pub keywords : List Bytes
    pub regexes : List rx.Regex

  abbrev pub no_rules : GeoSiteMatcher
  no_rules = record { domains = []; fulls = []; keywords = []; regexes = [] }

  unfoldable pub matches : GeoSiteMatcher → Bytes → Bool
  matches m host =
      if any (λ f. bytes_eq f host) m.fulls
      then true
      else if any (λ k. contains k host) m.keywords
      then true
      else if any (λ d. bytes_eq host (drop 1 d) || ends_with d host) m.domains
      then true
      else any (λ r. rx.is_match r host) m.regexes

  unfoldable pub add_regex :
      Bytes → Result Bytes rx.Regex → GeoSiteMatcher → Result GeoSiteError GeoSiteMatcher
  add_regex value (ok re) m = ok (record m { regexes = m.regexes ++ re ∷ [] })
  add_regex value (err e) m = err (invalid_regex value e)

  -- The body of the inner loop, on the lowercased value.
  unfoldable pub add_domain : ℕ → Bytes → GeoSiteMatcher → Result GeoSiteError GeoSiteMatcher
  unfolding add_regex
  add_domain kind value m =
      if kind == 2
      then ok (record m { domains = m.domains ++ (b'.' ∷ value) ∷ [] })
      else if kind == 3
      then ok (record m { fulls = m.fulls ++ value ∷ [] })
      else if kind == 0
      then ok (record m { keywords = m.keywords ++ value ∷ [] })
      else if kind == 1
      then add_regex value (rx.compile value) m
      else ok m

  unfoldable pub add_domains :
      CaseMap → List Domain → GeoSiteMatcher → Result GeoSiteError GeoSiteMatcher
  add_domains cm [] m = ok m
  add_domains cm (d ∷ ds) m = elim (add_domain d.kind (cm.to_lowercase d.value) m) [
    | ok m' ↦ add_domains cm ds m'
    | err e ↦ err e
  ]

  -- The first entry of the tag, upper case against upper case.
  unfoldable pub find_entry : CaseMap → Bytes → List Entry → Option Entry
  find_entry cm tag [] = none
  find_entry cm tag (e ∷ es) =
      if bytes_eq (cm.to_uppercase e.country_code) (cm.to_uppercase tag)
      then some e
      else find_entry cm tag es

  unfoldable pub add_tags :
      CaseMap → List Entry → List Bytes → GeoSiteMatcher → Result GeoSiteError GeoSiteMatcher
  add_tags cm list [] m = ok m
  add_tags cm list (tag ∷ tags) m = elim (find_entry cm tag list) [
    | none ↦ err (tag_not_found tag)
    | some entry ↦ elim (add_domains cm entry.domains m) [
      | ok m' ↦ add_tags cm list tags m'
      | err e ↦ err e
    ]
  ]

  -- `file` is what `std::fs::read` returns, `decode_file` is `geosite_rs::decode_geosite`, both with
  -- their errors printed.
  unfoldable pub load_geosite_dat :
      CaseMap
      → Result Bytes Bytes
      → (Bytes → Result Bytes (List Entry))
      → List Bytes
      → Result GeoSiteError GeoSiteMatcher
  load_geosite_dat cm (err e) decode_file tags = err (io e)
  load_geosite_dat cm (ok bytes) decode_file tags = elim (decode_file bytes) [
    | err e ↦ err (decode e)
    | ok list ↦ add_tags cm list tags no_rules
  ]
