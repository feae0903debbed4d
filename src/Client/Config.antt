-- ===== src/Client/Config.antt =====
-- client/src/main.rs: the settings of the client.
pub mod RuleFile
pub mod Bypass
pub mod Start
use echo_proxy_core.Base.{
  ℕ, Bool, true, false, Option, none, some, List, [], ◌∷◌, ◌++◌, map, Bytes, codes, if◌then◌else◌,
  Result, ok, err, ◌>>=◌, or_default, or_else,
}
use echo_proxy_core.Text.{CaseMap}
use echo_proxy_core.Text.Decimal.{show_decimal}
use echo_proxy_core.Client.Pattern
use echo_proxy_core.Client.Pattern.{HostPattern}
use echo_proxy_core.Client.Geosite.{RegexApi, GeoSiteMatcher, GeoSiteError}
use echo_proxy_core.Client.Geoip.{IpNetApi, GeoIpError}
use echo_proxy_core.Client.Routing.{RoutingConfig}

pub record ClientSection : Type 0 where
  pub endpoint : Option Bytes
  pub user : Option Bytes
  pub host : Option Bytes
  pub port : Option ℕ
  pub socks_host : Option Bytes
  pub socks_port : Option ℕ
  pub proxy : Option (List Bytes)
  pub bypass : Option (List Bytes)
  pub bypass_geoip_dat : Option Bytes
  pub bypass_geoip_tags : Option (List Bytes)
  pub bypass_geosite_dat : Option Bytes
  pub bypass_geosite_tags : Option (List Bytes)
  pub log_level : Option Bytes

-- `ClientSection::default()`
abbrev pub empty_section : ClientSection
empty_section = record {
  endpoint = none;
  user = none;
  host = none;
  port = none;
  socks_host = none;
  socks_port = none;
  proxy = none;
  bypass = none;
  bypass_geoip_dat = none;
  bypass_geoip_tags = none;
  bypass_geosite_dat = none;
  bypass_geosite_tags = none;
  log_level = none;
}

pub record FileConfig : Type 0 where
  pub client : Option ClientSection

pub record Cli : Type 0 where
  pub config : Bytes
  pub endpoint : Option Bytes
  pub user : Option Bytes
  pub host : Option Bytes
  pub port : Option ℕ
  pub socks_host : Option Bytes
  pub socks_port : Option ℕ

-- `text` is what reading the file gives, `parse_toml` is `toml::from_str`, both without their error.
unfoldable pub load_file_config : Option Bytes → (Bytes → Option FileConfig) → ClientSection
load_file_config text parse_toml =
    or_default (do s ← text; f ← parse_toml s; f.client) empty_section

-- A program that ends by `exit(1)`, with the cause.
pub data Exit : Type 0 where
  no_endpoint : Exit
  no_user : Exit
  geosite_failed : GeoSiteError → Exit
  geoip_failed : GeoIpError → Exit

-- What `main` takes from the command line and the file, up to the routing rules.
pub record Settings : Type 0 where
  pub log_level : Bytes
  pub endpoint : Bytes
  pub user : Bytes
  pub http_addr : Bytes
  pub socks_addr : Option Bytes

unfoldable pub or_exit : Exit → Option Bytes → Result Exit Bytes
or_exit e none = err e
or_exit e (some b) = ok b

abbrev pub default_host : Bytes
default_host = codes "127.0.0.1"

abbrev pub join_addr : Bytes → ℕ → Bytes
join_addr host port = host ++ b':' ∷ show_decimal port

unfoldable pub settings_of : Cli → ClientSection → Bytes → Bytes → Settings
settings_of cli file endpoint user =
    let host = or_default (or_else cli.host file.host) default_host in
    let socks_host = or_default (or_else cli.socks_host file.socks_host) host in
    record {
      log_level = or_default file.log_level (codes "info");
      endpoint = endpoint;
      user = user;
      http_addr = join_addr host (or_default (or_else cli.port file.port) 9002);
      socks_addr = elim (or_else cli.socks_port file.socks_port) [
        | none ↦ none
        | some sp ↦ some (join_addr socks_host sp)
      ];
    }

unfoldable pub settings : Cli → ClientSection → Result Exit Settings
unfolding or_exit settings_of
settings cli file = elim (or_exit no_endpoint (or_else cli.endpoint file.endpoint)) [
  | err e ↦ err e
  | ok endpoint ↦ elim (or_exit no_user (or_else cli.user file.user)) [
    | err e ↦ err e
    | ok user ↦ ok (settings_of cli file endpoint user)
  ]
]

abbrev pub default_geoip_dat : Bytes
default_geoip_dat = codes "geoip-only-cn-private.dat"

abbrev pub default_geosite_dat : Bytes
default_geosite_dat = codes "dlc.dat"

-- The file to load, and whether it is required; `is_file` asks the file system.
unfoldable pub dat_path_or_default : (Bytes → Bool) → Option Bytes → Bytes → Option (Bytes × Bool)
dat_path_or_default is_file (some path) default_path = some (path, true)
dat_path_or_default is_file none default_path =
    if is_file default_path then some (default_path, false) else none

abbrev pub default_tags : List Bytes
default_tags = codes "cn" ∷ codes "private" ∷ []

-- One of the two rule files: nothing without a file, and a failed load ends the program only where
-- the file is required.
unfoldable pub load_rules :
    {E A : Type 0}
    → (E → Exit)
    → A
    → (Bytes → List Bytes → Result E A)
    → Option (Bytes × Bool)
    → Option (List Bytes)
    → Result Exit A
load_rules failed nothing load none tags = ok nothing
load_rules failed nothing load (some (path, required)) tags =
    elim (load path (or_default tags default_tags)) [
      | ok a ↦ ok a
      | err e ↦ if required then err (failed e) else ok nothing
    ]

unfoldable pub some_matcher : {E A : Type 0} → Result E A → Result E (Option A)
some_matcher (ok a) = ok (some a)
some_matcher (err e) = err e

module _ (rx : RegexApi) (net : IpNetApi) where
  unfoldable pub build_routing :
      CaseMap
      → (Bytes → Bool)
      → (Bytes → List Bytes → Result GeoSiteError (GeoSiteMatcher rx))
      → (Bytes → List Bytes → Result GeoIpError (List net.IpNet))
      → ClientSection
      → Result Exit (RoutingConfig rx net)
  unfolding load_rules dat_path_or_default some_matcher
  build_routing cm is_file load_geosite load_geoip file =
      elim (load_rules geosite_failed none (λ path tags. some_matcher (load_geosite path tags))
        (dat_path_or_default is_file file.bypass_geosite_dat default_geosite_dat)
        file.bypass_geosite_tags) [
          | err e ↦ err e
          | ok geosite ↦
              elim (load_rules geoip_failed [] load_geoip
                (dat_path_or_default is_file file.bypass_geoip_dat default_geoip_dat)
                file.bypass_geoip_tags) [
                  | err e ↦ err e
                  | ok cidrs ↦ ok (record {
                    proxy = map (Pattern.parse cm) (or_default file.proxy []);
                    bypass = map (Pattern.parse cm) (or_default file.bypass []);
                    bypass_geosite = geosite;
                    bypass_cidrs = cidrs;
                  })
                ]
        ]

  -- `main` up to the binding of the listeners: what it goes on with, or the cause of its exit.
  unfoldable pub main :
      CaseMap
      → (Bytes → Bool)
      → (Bytes → List Bytes → Result GeoSiteError (GeoSiteMatcher rx))
      → (Bytes → List Bytes → Result GeoIpError (List net.IpNet))
      → (Bytes → Option Bytes)
      → (Bytes → Option FileConfig)
      → Cli
      → Result Exit (Settings × RoutingConfig rx net)
  main cm is_file load_geosite load_geoip read_text parse_toml cli =
      let file = load_file_config (read_text cli.config) parse_toml in
      elim (settings cli file) [
        | err e ↦ err e
        | ok s ↦ elim (build_routing cm is_file load_geosite load_geoip file) [
          | err e ↦ err e
          | ok routing ↦ ok (s, routing)
        ]
      ]
