-- ===== src/Server/Config.antt =====
-- server/src/main.rs: the settings of the server.
use echo_proxy_core.Base.{
  ℕ, Option, none, some, List, [], ◌∷◌, ◌++◌, Bytes, codes, ◌>>=◌, or_default, or_else,
}
use echo_proxy_core.Text.Decimal.{show_decimal}

pub record ServerSection : Type 0 where
  pub users : Option (List Bytes)
  pub host : Option Bytes
  pub port : Option ℕ
  pub log_level : Option Bytes

abbrev pub empty_section : ServerSection
empty_section = record { users = none; host = none; port = none; log_level = none }

pub record FileConfig : Type 0 where
  pub server : Option ServerSection

pub record Cli : Type 0 where
  pub config : Bytes
  pub users : List Bytes
  pub host : Option Bytes
  pub port : Option ℕ

-- `text` is what reading the file gives, `parse_toml` is `toml::from_str`, both without their error.
unfoldable pub load_file_config : Option Bytes → (Bytes → Option FileConfig) → ServerSection
load_file_config text parse_toml =
    or_default (do s ← text; f ← parse_toml s; f.server) empty_section

pub record Settings : Type 0 where
  pub log_level : Bytes
  pub users : List Bytes
  pub addr : Bytes

-- The flags' users, or the file's if there is none.
unfoldable pub choose_users : List Bytes → Option (List Bytes) → List Bytes
choose_users [] file_users = or_default file_users []
choose_users (u ∷ us) file_users = u ∷ us

-- `none` is the exit for want of users.
unfoldable pub settings : Cli → ServerSection → Option Settings
unfolding choose_users
settings cli file = elim (choose_users cli.users file.users) [
  | [] ↦ none
  | u ∷ us ↦ some (record {
    log_level = or_default file.log_level (codes "info");
    users = u ∷ us;
    addr =
        or_default (or_else cli.host file.host) (codes "127.0.0.1")
        ++ b':' ∷ show_decimal (or_default (or_else cli.port file.port) 9001);
  })
]
