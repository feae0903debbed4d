-- ===== src/Tests/Unit/Routes.antt =====
-- client/src/lib.rs: `mod tests`. The networks of the crate `ipnet` are those of IPv4.
use echo_proxy_core.Base.{
  ℕ, ◌+◌, ◌-◌, ◌*◌, ◌/◌, ◌^◌, ◌≡◌, refl, Bool, true, false, not, ◌&&◌, Option, none, some, List, [],
  ◌∷◌, ◌++◌, map, Bytes, codes, ◌==◌,
}
use echo_proxy_core.Net.{Ipv4Addr, v4, v6}
use echo_proxy_core.Client.Pattern.{HostPattern}
use echo_proxy_core.Client.Pattern
use echo_proxy_core.Client.Geosite.{GeoSiteMatcher}
use echo_proxy_core.Client.Geoip.{IpNetApi}
use echo_proxy_core.Client.Routing
use echo_proxy_core.Client.Routing.{RoutingConfig, default_routing}
use echo_proxy_core.Tests.{ascii}
use echo_proxy_core.Tests.Unit.Domains.{dot_cn}

abbrev u32_of : Ipv4Addr → ℕ
u32_of ip = ((ip.a * 256 + ip.b) * 256 + ip.c) * 256 + ip.d

-- A network is its address and the length of its prefix.
abbrev pub v4_nets : IpNetApi
v4_nets = record {
  IpNet = Ipv4Addr × ℕ;
  new_v4 = λ ip n. some (ip, n);
  new_v6 = λ ip n. none;
  contains = λ net. elim [
    | v4 ip ↦ u32_of ip / 2 ^ (32 - net.1) == u32_of net.0 / 2 ^ (32 - net.1)
    | v6 ip ↦ false
  ];
}

abbrev Config : Type 0
Config = RoutingConfig dot_cn v4_nets

abbrev pat : Bytes → HostPattern
pat s = Pattern.parse ascii s

abbrev config : List Bytes → List Bytes → Config
config proxy bypass = record {
  proxy = map pat proxy;
  bypass = map pat bypass;
  bypass_geosite = none;
  bypass_cidrs = [];
}

abbrev bypasses : Config → Bytes → ℕ → Bool
bypasses cfg host port = Routing.should_bypass dot_cn v4_nets ascii cfg host port

abbrev pat_matches : HostPattern → Bytes → ℕ → Bool
pat_matches r host port = Pattern.matches r host port

abbrev wildcard_subdomain : Bool
wildcard_subdomain =
    let r = pat (codes "*.example.com") in
    pat_matches r (codes "foo.example.com") 80
    && pat_matches r (codes "foo.example.com") 443
    && not (pat_matches r (codes "example.com") 80)
    && not (pat_matches r (codes "notexample.com") 80)

abbrev port_specific_rule : Bool
port_specific_rule =
    let r = pat (codes "example.com:8080") in
    pat_matches r (codes "example.com") 8080 && not (pat_matches r (codes "example.com") 80)

abbrev proxy_overrides_bypass : Bool
proxy_overrides_bypass =
    not (
      bypasses (config (codes "github.com" ∷ []) (codes "github.com" ∷ [])) (codes "github.com")
        443)

abbrev bypass_host_rule : Bool
bypass_host_rule =
    let cfg = config [] (codes "localhost" ∷ codes "127.0.0.1" ∷ []) in
    bypasses cfg (codes "localhost") 80
    && bypasses cfg (codes "127.0.0.1") 80
    && not (bypasses cfg (codes "example.com") 80)

-- 192.168.0.0/16
abbrev private_net : Ipv4Addr × ℕ
private_net = (record { a = 192; b = 168; c = 0; d = 0 }, 16)

abbrev cidr_bypass : Bool
cidr_bypass =
    let cfg : Config = record (config [] []) { bypass_cidrs = private_net ∷ [] } in
    bypasses cfg (codes "192.168.1.1") 80 && not (bypasses cfg (codes "1.2.3.4") 80)

abbrev proxy_overrides_cidr : Bool
proxy_overrides_cidr =
    let cfg : Config = record (config (codes "192.168.1.1" ∷ []) []) {
      bypass_cidrs = private_net ∷ [];
    } in
    not (bypasses cfg (codes "192.168.1.1") 80)

abbrev default_routing_proxies_everything : Bool
default_routing_proxies_everything =
    let cfg : Config = default_routing dot_cn v4_nets in
    not (bypasses cfg (codes "example.com") 443) && not (bypasses cfg (codes "1.2.3.4") 80)

abbrev domain_rules : List Bytes → GeoSiteMatcher dot_cn
domain_rules domains = record {
  domains = map (λ s. codes "." ++ s) domains;
  fulls = [];
  keywords = [];
  regexes = [];
}

abbrev geosite_config : List Bytes → Config
geosite_config domains = record {
  proxy = [];
  bypass = [];
  bypass_geosite = some (domain_rules domains);
  bypass_cidrs = [];
}

abbrev geosite_domain_bypassed : Bool
geosite_domain_bypassed =
    let cfg = geosite_config (codes "baidu.com" ∷ codes "alicdn.com" ∷ []) in
    bypasses cfg (codes "baidu.com") 443
    && bypasses cfg (codes "www.baidu.com") 443
    && bypasses cfg (codes "g.alicdn.com") 443
    && not (bypasses cfg (codes "google.com") 443)

abbrev with_proxy : List Bytes → Config
with_proxy entries = record (geosite_config (codes "baidu.com" ∷ [])) { proxy = map pat entries }

abbrev proxy_rule_overrides_geosite : Bool
proxy_rule_overrides_geosite =
    let cfg = with_proxy (codes "baidu.com" ∷ []) in
    let cfg2 = with_proxy (codes "baidu.com" ∷ codes "*.baidu.com" ∷ []) in
    not (bypasses cfg (codes "baidu.com") 443)
    && bypasses cfg (codes "www.baidu.com") 443
    && not (bypasses cfg2 (codes "baidu.com") 443)
    && not (bypasses cfg2 (codes "www.baidu.com") 443)

patterns_pass : (wildcard_subdomain && port_specific_rule) ≡ true
unfolding Pattern.matches Pattern.parse echo_proxy_core.Text.rsplit_once
    echo_proxy_core.Text.lower_byte echo_proxy_core.Text.starts_with echo_proxy_core.Base.bytes_eq
    echo_proxy_core.Text.ends_with echo_proxy_core.Text.Decimal.parse_u16
patterns_pass = refl

routes_pass :
    (proxy_overrides_bypass && bypass_host_rule && cidr_bypass && proxy_overrides_cidr
      && default_routing_proxies_everything && geosite_domain_bypassed
      && proxy_rule_overrides_geosite)
    ≡ true
unfolding Pattern.matches Pattern.parse Routing.should_bypass echo_proxy_core.Text.rsplit_once
    echo_proxy_core.Text.lower_byte echo_proxy_core.Text.starts_with echo_proxy_core.Base.bytes_eq
    Routing.geosite_matches Routing.cidr_matches echo_proxy_core.Net.Parse.parse_ip
    echo_proxy_core.Net.Parse.read_ip_addr echo_proxy_core.Net.Parse.read_ipv4_addr
    echo_proxy_core.Net.Parse.octet echo_proxy_core.Net.Parse.read_ipv6_addr
    echo_proxy_core.Client.Geosite.matches echo_proxy_core.Text.ends_with
routes_pass = refl
