-- ===== src/Tests/Configured.antt =====
-- The client's configuration and its rule files on concrete files.
use echo_proxy_core.Base.{
  ◌≡◌, Bool, true, none, some, List, [], ◌∷◌, Bytes, codes, bytes_eq, if◌then◌else◌, any, Result,
  ok, err, Outcome,
}
use mathlib.Core.List.{flat_map}
use echo_proxy_core.Tests.{ascii}
use echo_proxy_core.Tests.Unit.Routes.{v4_nets}
use echo_proxy_core.Net.{v4}
use echo_proxy_core.Text.{upper_byte}
use echo_proxy_core.Client.Geosite
use echo_proxy_core.Client.Geoip
use echo_proxy_core.Client.Geoip.{load_geoip_dat}
use echo_proxy_core.Client.Geoip.Rules.{load_geoip_dat-Outcome}
use echo_proxy_core.Client.Config.{Cli, ClientSection, empty_section}

-- Regular expressions that match a text that they equal.
abbrev text_regex : Geosite.RegexApi
text_regex = record { Regex = Bytes; compile = ok; is_match = bytes_eq }

-- A file with one tag, of a domain and a full name.
abbrev cn_list : List Geosite.Entry
cn_list =
    record {
      country_code = codes "CN";
      domains =
          record { kind = 2; value = codes "Qq.com" }
          ∷ record { kind = 3; value = codes "a.cn" }
          ∷ [];
    }
    ∷ []

-- A tag with one range that is in order, and one with a range of three bytes.
abbrev net_list : List Geoip.Entry
net_list =
    record { country_code = codes "CN"; cidrs = record { ip = 10 ∷ 0 ∷ 0 ∷ 0 ∷ []; len = 8 } ∷ [] }
    ∷ record { country_code = codes "BAD"; cidrs = record { ip = 1 ∷ 2 ∷ 3 ∷ []; len = 8 } ∷ [] }
    ∷ []

load_geoip_dat-Outcome_example :
    Outcome
      (λ nets.
        any (λ n. v4_nets.contains n (v4 (record { a = 10; b = 1; c = 2; d = 3 }))) nets ≡ true)
      (Geoip.invalid_cidr 3 ∷ [])
      (load_geoip_dat v4_nets ascii (ok []) (λ bytes. ok net_list) (codes "cn" ∷ codes "bad" ∷ []))
unfolding flat_map Geoip.find_entry bytes_eq upper_byte Geoip.to_net Geoip.checked
load_geoip_dat-Outcome_example =
    load_geoip_dat-Outcome v4_nets ascii (ok []) (λ bytes. ok net_list)
      (codes "cn" ∷ codes "bad" ∷ []) (v4 (record { a = 10; b = 1; c = 2; d = 3 }))

-- The file of the domain rules is there, as a default.
abbrev is_dlc : Bytes → Bool
is_dlc = bytes_eq (codes "dlc.dat")

abbrev read : Bytes → Result Bytes Bytes
read path = if is_dlc path then ok [] else err (codes "not found")

abbrev configured : ClientSection
configured = record empty_section {
  proxy = some (codes "b.qq.com" ∷ []);
  bypass_geosite_tags = some (codes "cn" ∷ []);
}

abbrev flags : Cli
flags = record {
  config = codes "config.toml";
  endpoint = some (codes "ws://a.org/");
  user = some (codes "ann");
  host = none;
  port = some 8080;
  socks_host = none;
  socks_port = some 1080;
}
