-- ===== src/Server/Control.antt =====
-- server/src/lib.rs, "/control": `process_control`.
pub mod Outcome
use echo_proxy_core.Base.{
  ℕ, zero, suc, ◌+◌, ◌-◌, ◌*◌, ◌/◌, ◌%◌, ◌^◌, ◌≤◌, ◌<◌, min, String, ◌≡◌, refl, sym, ap, ◌∙◌, subst,
  ◌≢◌, ◌↔◌, ◌⊎◌, inl, inr, Bool, true, false, not, ◌&&◌, ◌||◌, Option, none, some, List, [], ◌∷◌,
  ◌++◌, map, reverse, arith, Bytes, codes, ltb, leb, ◌==◌, if◌then◌else◌, within, leb→le, ltb→lt,
  lt→ltb, ==_iff, Bool-cases, Option-cases, bytes_eq, bytes_eq_sound, bytes_eq_refl, bytes_eq_iff,
  length, take, drop, any, all, All, length-append, take-append, drop-append, take-append-drop,
  length-take, length-drop, any-split, any-append, append_laws, Result, ok, err, ◌>>=◌, ◌>>◌, guard,
  or_default, or_else, >>=-eq-some,
}
use echo_proxy_core.Text.{starts_with, splitn}
use echo_proxy_core.WebSocket.{Item, text}
use echo_proxy_core.Server.Tokens.{UuidApi, TokenStore, insert}

-- What the server uses of the crate `semver`: `Version::parse`, and `matches` of the requirement
-- `SUPPORTED_VERSION`, which is ">=0.1.0".
pub record SemverApi : Type 1 where
  pub Version : Type 0
  pub parse : Bytes → Option Version
  pub matches_supported : Version → Bool

-- What the server does on the connection: it sends a text, or closes. Results are ignored.
pub data Action : Type 0 where
  send_text : Bytes → Action
  close : Action

abbrev pub invalid_version : Bytes
invalid_version = codes "Bye:Invalid version format"

abbrev pub unsupported_version : Bytes
unsupported_version =
    codes
      "Bye:Unsupported version. Download from https://github.com/echo-proxy/echo-proxy-core/releases"

abbrev pub user_not_allowed : Bytes
user_not_allowed = codes "Bye:User not allowed"

-- `user_list.contains(&user)`
unfoldable pub is_user : Bytes → List Bytes → Bool
is_user user [] = false
is_user user (x ∷ xs) = bytes_eq x user || is_user user xs

module _ (semver : SemverApi) (u : UuidApi) (users : List Bytes) (store : TokenStore u)
    (fresh : u.Uuid) where
  abbrev refuse : List Action → List Action × TokenStore u
  refuse actions = (actions, store)

  -- The user's test and the token; `fresh` is what `Uuid::new_v4` returns.
  unfoldable pub issue : Bytes → List Action × TokenStore u
  issue user =
      if not (is_user user users)
      then refuse (send_text user_not_allowed ∷ close ∷ [])
      else (send_text (codes "Hi:" ++ u.show fresh) ∷ [], insert u fresh store)

  unfoldable pub check_version : Bytes → Bytes → List Action × TokenStore u
  check_version version user = elim (semver.parse version) [
    | none ↦ refuse (send_text invalid_version ∷ close ∷ [])
    | some installed ↦
        if not (semver.matches_supported installed)
        then refuse (send_text unsupported_version ∷ close ∷ [])
        else issue user
  ]

  -- `parts.len() < 3` is the catch-all clause.
  unfoldable pub check_parts : List Bytes → List Action × TokenStore u
  check_parts (greeting ∷ version ∷ user ∷ rest) = check_version version user
  check_parts _ = refuse (close ∷ [])

  unfoldable pub handle_text : Bytes → List Action × TokenStore u
  handle_text msg =
      if not (starts_with (codes "Hello:") msg)
      then refuse (close ∷ [])
      else check_parts (splitn 3 b':' msg)

  -- The first item of the stream, if any; nothing else is read.
  unfoldable pub process_control : List Item → List Action × TokenStore u
  unfolding handle_text check_parts check_version issue
  process_control (text msg ∷ items) = handle_text msg
  process_control _ = refuse (close ∷ [])
