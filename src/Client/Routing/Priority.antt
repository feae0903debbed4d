-- ===== src/Client/Routing/Priority.antt =====
-- The order in which the routing rules apply.
use echo_proxy_core.Base.{ℕ, ◌≡◌, ◌↔◌, ◌⊎◌, true, false, arith, Bytes, any}
use echo_proxy_core.Text.{CaseMap}
use echo_proxy_core.Client.Geosite.{RegexApi}
use echo_proxy_core.Client.Geoip.{IpNetApi}
use echo_proxy_core.Client.Pattern
use echo_proxy_core.Client.Routing.{RoutingConfig, should_bypass, geosite_matches, cidr_matches}

module _ (rx : RegexApi) (net : IpNetApi) where
  -- A connection bypasses the tunnel exactly if no pattern of the proxy list matches its host, in
  -- lower case, and port, and a pattern of the bypass list does, or a rule of the geosite lists, or
  -- the host is an address in one of the networks.
  pub should_bypass_iff :
      (cm : CaseMap) (c : RoutingConfig rx net) (host : Bytes) (port : ℕ)
      → (should_bypass rx net cm c host port ≡ true) ↔ (
          (any (λ r. Pattern.matches r (cm.to_lowercase host) port) c.proxy ≡ false)
          × ((any (λ r. Pattern.matches r (cm.to_lowercase host) port) c.bypass ≡ true)
              ⊎ (geosite_matches rx net c.bypass_geosite (cm.to_lowercase host) ≡ true)
              ⊎ (cidr_matches rx net c.bypass_cidrs (cm.to_lowercase host) ≡ true)))
  unfolding should_bypass
  should_bypass_iff cm c host port = ground arith
