-- ===== src/Client/Config/Bypass.antt =====
-- From the configuration to the routing decision.
use echo_proxy_core.Base.{
  ℕ, ◌≡◌, refl, Bool, false, not, ◌||◌, ◌&&◌, Option, none, some, List, [], ◌∷◌, ◌++◌, map, arith,
  Bytes, any, Result, ok, err, or_default, Outcome, Outcome-then, Outcome-map, Outcome-weaken,
}
use echo_proxy_core.Text.{CaseMap}
use echo_proxy_core.Net.{v4}
use echo_proxy_core.Net.Parse.{parse_ip}
use echo_proxy_core.Client.Pattern
use echo_proxy_core.Client.Geosite.{RegexApi, GeoSiteMatcher, GeoSiteError, load_geosite_dat}
use echo_proxy_core.Client.Geosite
use echo_proxy_core.Client.Geosite.Faults
use echo_proxy_core.Client.Geoip.{IpNetApi, GeoIpError, load_geoip_dat}
use echo_proxy_core.Client.Geoip
use echo_proxy_core.Client.Geoip.Rules
use echo_proxy_core.Client.Routing.{RoutingConfig, should_bypass, geosite_matches, cidr_matches}
use echo_proxy_core.Client.Config.{
  ClientSection, Exit, geosite_failed, geoip_failed, dat_path_or_default, default_geosite_dat,
  default_geoip_dat, default_tags, load_rules, some_matcher, build_routing,
}
use echo_proxy_core.Client.Config.RuleFile.{required_faults, listed, load_rules-Outcome}

module _ (rx : RegexApi) (net : IpNetApi) (cm : CaseMap) (is_file : Bytes → Bool)
    (read : Bytes → Result Bytes Bytes) (decode_geosite : Bytes → Result Bytes (List Geosite.Entry))
    (decode_geoip : Bytes → Result Bytes (List Geoip.Entry)) where
  abbrev pub load_geosite : Bytes → List Bytes → Result GeoSiteError (GeoSiteMatcher rx)
  load_geosite path tags = load_geosite_dat rx cm (read path) decode_geosite tags

  abbrev pub load_geoip : Bytes → List Bytes → Result GeoIpError (List net.IpNet)
  load_geoip path tags = load_geoip_dat net cm (read path) decode_geoip tags

  abbrev pub geosite_file : ClientSection → Option (Bytes × Bool)
  geosite_file file = dat_path_or_default is_file file.bypass_geosite_dat default_geosite_dat

  abbrev pub geoip_file : ClientSection → Option (Bytes × Bool)
  geoip_file file = dat_path_or_default is_file file.bypass_geoip_dat default_geoip_dat

  abbrev pub geosite_faults : ClientSection → Bytes → List GeoSiteError
  geosite_faults file path =
      Faults.file_faults rx cm decode_geosite (or_default file.bypass_geosite_tags default_tags)
        (read path)

  abbrev pub geoip_faults : ClientSection → Bytes → List GeoIpError
  geoip_faults file path =
      Rules.file_faults net cm decode_geoip (or_default file.bypass_geoip_tags default_tags)
        (read path)

  abbrev pub config_faults : ClientSection → List Exit
  config_faults file =
      required_faults geosite_failed (geosite_faults file) (geosite_file file)
      ++ required_faults geoip_failed (geoip_faults file) (geoip_file file)

  abbrev pub geosite_says : ClientSection → Bytes → Bytes → Bool
  geosite_says file host path =
      Faults.file_matches rx cm decode_geosite (or_default file.bypass_geosite_tags default_tags)
        (read path) host

  abbrev pub geoip_says : ClientSection → Bytes → Bytes → Bool
  geoip_says file host path = elim (parse_ip host) [
    | none ↦ false
    | some ip ↦
        Rules.file_contains net cm decode_geoip (or_default file.bypass_geoip_tags default_tags)
          (read path) ip
  ]

  abbrev pub patterns_match : Option (List Bytes) → Bytes → ℕ → Bool
  patterns_match patterns host port =
      any (λ r. Pattern.matches r host port) (map (Pattern.parse cm) (or_default patterns []))

  -- The decision that the configuration asks for, on a host in lower case.
  abbrev pub asks_bypass : ClientSection → Bytes → ℕ → Bool
  asks_bypass file host port =
      not (patterns_match file.proxy host port)
      && (patterns_match file.bypass host port
          || (listed (geosite_faults file) (geosite_says file host) (geosite_file file)
              || listed (geoip_faults file) (geoip_says file host) (geoip_file file)))

  some_matcher-Outcome :
      (host : Bytes) (b : Bool) (fs : List GeoSiteError)
      (r : Result GeoSiteError (GeoSiteMatcher rx))
      → Outcome (λ m. Geosite.matches rx m host ≡ b) fs r
      → Outcome (λ o. geosite_matches rx net o host ≡ b) fs (some_matcher r)
  unfolding some_matcher geosite_matches
  some_matcher-Outcome host b [] (ok m) h = h
  some_matcher-Outcome host b [] (err e) h = h
  some_matcher-Outcome host b (f ∷ fs) (ok m) h = h
  some_matcher-Outcome host b (f ∷ fs) (err e) h = h

  no_networks : (host : Bytes) → cidr_matches rx net [] host ≡ false
  unfolding cidr_matches
  no_networks host = ground arith

  cidr_matches-Outcome :
      (file : ClientSection) (host path : Bytes)
      → Outcome
          (λ nets. cidr_matches rx net nets host ≡ geoip_says file host path)
          (geoip_faults file path)
          (load_geoip path (or_default file.bypass_geoip_tags default_tags))
  unfolding cidr_matches
  cidr_matches-Outcome file host path =
      elim (parse_ip host)
        as (λ o.
          Outcome
            (λ nets.
              elim o [ none ↦ false | some ip ↦ any (λ n. net.contains n ip) nets ] ≡ elim o [
                | none ↦ false
                | some ip ↦
                    Rules.file_contains net cm decode_geoip
                      (or_default file.bypass_geoip_tags default_tags) (read path) ip
              ])
            (geoip_faults file path)
            (load_geoip path (or_default file.bypass_geoip_tags default_tags))) [
              | none ↦
                  Outcome-weaken _ _ (geoip_faults file path)
                    (load_geoip path (or_default file.bypass_geoip_tags default_tags))
                    (Rules.load_geoip_dat-Outcome net cm (read path) decode_geoip
                      (or_default file.bypass_geoip_tags default_tags)
                      (v4 (record { a = 0; b = 0; c = 0; d = 0 })))
                    (λ a e h. refl)
              | some ip ↦
                  Rules.load_geoip_dat-Outcome net cm (read path) decode_geoip
                    (or_default file.bypass_geoip_tags default_tags) ip
            ]

  -- The two rule files, each on its own.
  abbrev load_geosite_rules : ClientSection → Result Exit (Option (GeoSiteMatcher rx))
  load_geosite_rules file =
      load_rules geosite_failed none (λ path tags. some_matcher (load_geosite path tags))
        (geosite_file file) file.bypass_geosite_tags

  abbrev load_geoip_rules : ClientSection → Result Exit (List net.IpNet)
  load_geoip_rules file =
      load_rules geoip_failed [] load_geoip (geoip_file file) file.bypass_geoip_tags

  geosite_rules-Outcome :
      (file : ClientSection) (host : Bytes)
      → Outcome
          (λ o.
            geosite_matches rx net o host
            ≡ listed (geosite_faults file) (geosite_says file host) (geosite_file file))
          (required_faults geosite_failed (geosite_faults file) (geosite_file file))
          (load_geosite_rules file)
  unfolding geosite_matches
  geosite_rules-Outcome file host =
      let tags = or_default file.bypass_geosite_tags default_tags in
      load_rules-Outcome geosite_failed none (λ path tags. some_matcher (load_geosite path tags))
        file.bypass_geosite_tags (geosite_faults file) (geosite_says file host)
        (λ o. geosite_matches rx net o host) (geosite_file file) refl
        (λ path.
          some_matcher-Outcome host (geosite_says file host path) (geosite_faults file path)
            (load_geosite path tags)
            (Faults.load_geosite_dat-Outcome rx cm (read path) decode_geosite tags host))

  geoip_rules-Outcome :
      (file : ClientSection) (host : Bytes)
      → Outcome
          (λ nets.
            cidr_matches rx net nets host
            ≡ listed (geoip_faults file) (geoip_says file host) (geoip_file file))
          (required_faults geoip_failed (geoip_faults file) (geoip_file file))
          (load_geoip_rules file)
  geoip_rules-Outcome file host =
      load_rules-Outcome geoip_failed [] load_geoip file.bypass_geoip_tags (geoip_faults file)
        (geoip_says file host) (λ nets. cidr_matches rx net nets host) (geoip_file file)
        (no_networks host) (cidr_matches-Outcome file host)

  abbrev routing :
      ClientSection → Option (GeoSiteMatcher rx) → List net.IpNet → RoutingConfig rx net
  routing file geosite cidrs = record {
    proxy = map (Pattern.parse cm) (or_default file.proxy []);
    bypass = map (Pattern.parse cm) (or_default file.bypass []);
    bypass_geosite = geosite;
    bypass_cidrs = cidrs;
  }

  decides :
      (file : ClientSection) (host : Bytes) (port : ℕ) (geosite : Option (GeoSiteMatcher rx))
      (cidrs : List net.IpNet) (a b : Bool)
      → geosite_matches rx net geosite (cm.to_lowercase host) ≡ a
      → cidr_matches rx net cidrs (cm.to_lowercase host) ≡ b
      → should_bypass rx net cm (routing file geosite cidrs) host port ≡ (
          not (patterns_match file.proxy (cm.to_lowercase host) port)
          && (patterns_match file.bypass (cm.to_lowercase host) port || (a || b)))
  unfolding should_bypass
  decides file host port geosite cidrs a b e1 e2 = ground (arith, e1, e2)

  -- What `build_routing` gives: the program ends with the first fault of a rule file that the
  -- configuration names, the domain rules before the networks; otherwise a connection bypasses the
  -- tunnel exactly if no proxy pattern matches, and a bypass pattern does, or the domain rules or the
  -- networks of a file without a fault do, under the configured tags.
  pub build_routing-Outcome :
      (file : ClientSection) (host : Bytes) (port : ℕ)
      → Outcome
          (λ c. should_bypass rx net cm c host port ≡ asks_bypass file (cm.to_lowercase host) port)
          (config_faults file)
          (build_routing rx net cm is_file load_geosite load_geoip file)
  unfolding build_routing
  build_routing-Outcome file host port =
      let h = cm.to_lowercase host in
      Outcome-then _ _ (required_faults geosite_failed (geosite_faults file) (geosite_file file))
        (required_faults geoip_failed (geoip_faults file) (geoip_file file))
        (load_geosite_rules file)
        (λ geosite. elim (load_geoip_rules file) [
          | ok cidrs ↦ ok (routing file geosite cidrs)
          | err e ↦ err e
        ])
        (geosite_rules-Outcome file h)
        (λ geosite e1.
          Outcome-map _ _ (required_faults geoip_failed (geoip_faults file) (geoip_file file))
            (load_geoip_rules file) (routing file geosite) (geoip_rules-Outcome file h)
            (λ cidrs e2. decides file host port geosite cidrs _ _ e1 e2))
