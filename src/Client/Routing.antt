-- ===== src/Client/Routing.antt =====
-- client/src/lib.rs: `RoutingConfig::should_bypass`.
pub mod Priority
use echo_proxy_core.Base.{
  ℕ, zero, suc, ◌+◌, ◌-◌, ◌*◌, ◌/◌, ◌%◌, ◌^◌, ◌≤◌, ◌<◌, min, String, ◌≡◌, refl, sym, ap, ◌∙◌, subst,
  ◌≢◌, ◌↔◌, ◌⊎◌, inl, inr, Bool, true, false, not, ◌&&◌, ◌||◌, Option, none, some, List, [], ◌∷◌,
  ◌++◌, map, reverse, arith, Bytes, codes, ltb, leb, ◌==◌, if◌then◌else◌, within, leb→le, ltb→lt,
  lt→ltb, ==_iff, Bool-cases, Option-cases, bytes_eq, bytes_eq_sound, bytes_eq_refl, bytes_eq_iff,
  length, take, drop, any, all, All, length-append, take-append, drop-append, take-append-drop,
  length-take, length-drop, any-split, any-append, append_laws, Result, ok, err, ◌>>=◌, ◌>>◌, guard,
  or_default, or_else, >>=-eq-some,
}
use echo_proxy_core.Text.{CaseMap}
use echo_proxy_core.Net.Parse.{parse_ip}
use echo_proxy_core.Client.Pattern.{HostPattern}
use echo_proxy_core.Client.Pattern
use echo_proxy_core.Client.Geosite.{RegexApi, GeoSiteMatcher}
use echo_proxy_core.Client.Geosite
use echo_proxy_core.Client.Geoip.{IpNetApi}

module _ (rx : RegexApi) (net : IpNetApi) where
  pub record RoutingConfig : Type 0 where
    pub proxy : List HostPattern
    pub bypass : List HostPattern
    pub bypass_geosite : Option (GeoSiteMatcher rx)
    pub bypass_cidrs : List net.IpNet

  abbrev pub default_routing : RoutingConfig
  default_routing = record { proxy = []; bypass = []; bypass_geosite = none; bypass_cidrs = [] }

  unfoldable pub geosite_matches : Option (GeoSiteMatcher rx) → Bytes → Bool
  geosite_matches none h = false
  geosite_matches (some gs) h = Geosite.matches rx gs h

  unfoldable pub cidr_matches : List net.IpNet → Bytes → Bool
  cidr_matches cidrs h = elim (parse_ip h) [
    | none ↦ false
    | some ip ↦ any (λ n. net.contains n ip) cidrs
  ]

  unfoldable pub should_bypass : CaseMap → RoutingConfig → Bytes → ℕ → Bool
  should_bypass cm c host port =
      let h = cm.to_lowercase host in
      if any (λ r. Pattern.matches r h port) c.proxy
      then false
      else if any (λ r. Pattern.matches r h port) c.bypass
      then true
      else if geosite_matches c.bypass_geosite h
      then true
      else if cidr_matches c.bypass_cidrs h
      then true
      else false
