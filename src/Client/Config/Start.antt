-- ===== src/Client/Config/Start.antt =====
-- The start of the client, from the command line and the configuration file.
use echo_proxy_core.Base.{
  ℕ, ◌≡◌, Option, none, some, List, [], ◌∷◌, ◌++◌, Bytes, or_default, or_else,
}
use echo_proxy_core.Client.Geosite
use echo_proxy_core.Client.Geoip
use echo_proxy_core.Client.Config.{
  ClientSection, Cli, Exit, no_endpoint, no_user, Settings, default_host, join_addr,
}

-- A setting that neither the command line nor the file has.
abbrev pub missing : Exit → Option Bytes → List Exit
missing e none = e ∷ []
missing e (some b) = []

abbrev pub start_faults : Cli → ClientSection → List Exit
start_faults cli file =
    missing no_endpoint (or_else cli.endpoint file.endpoint)
    ++ missing no_user (or_else cli.user file.user)

-- What is connected to, as whom, and where the listeners are: the command line before the file, and
-- the HTTP listener's host before the default for the SOCKS5 listener, which is there if it has a port.
abbrev pub http_host : Cli → ClientSection → Bytes
http_host cli file = or_default (or_else cli.host file.host) default_host

abbrev pub socks_addr : Cli → ClientSection → Option ℕ → Option Bytes
socks_addr cli file none = none
socks_addr cli file (some port) =
    some (join_addr (or_default (or_else cli.socks_host file.socks_host) (http_host cli file)) port)

abbrev pub Follows : Cli → ClientSection → Settings → Type 0
Follows cli file s =
    (or_else cli.endpoint file.endpoint ≡ some s.endpoint)
    × (or_else cli.user file.user ≡ some s.user)
    × (s.http_addr ≡ join_addr (http_host cli file) (or_default (or_else cli.port file.port) 9002))
    × (s.socks_addr ≡ socks_addr cli file (or_else cli.socks_port file.socks_port))
