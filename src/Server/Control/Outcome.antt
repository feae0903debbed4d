-- ===== src/Server/Control/Outcome.antt =====
-- What the control handshake grants.
use echo_proxy_core.Base.{
  ◌≡◌, refl, ◌⊎◌, inl, inr, true, false, none, some, List, [], ◌∷◌, ◌++◌, arith, Bytes, codes,
  if◌then◌else◌, Bool-cases, Option-cases,
}
use echo_proxy_core.Text.{starts_with, splitn, has_byte}
use echo_proxy_core.Text.Laws.{split_once-join, starts_with_iff}
use echo_proxy_core.WebSocket.{Item, text}
use echo_proxy_core.Server.Tokens.{UuidApi, TokenStore, insert}
use echo_proxy_core.Server.Control.{
  SemverApi, Action, send_text, close, process_control, handle_text, check_parts, check_version,
  issue, is_user, invalid_version, unsupported_version, user_not_allowed,
}

module _ (semver : SemverApi) (u : UuidApi) (users : List Bytes) (store : TokenStore u)
    (fresh : u.Uuid) where
  -- A greeting as the client writes it.
  abbrev pub greeting : Bytes → Bytes → Bytes
  greeting version user = codes "Hello:" ++ (version ++ b':' ∷ user)

  splitn-greeting :
      (version user : Bytes)
      → has_byte b':' version ≡ false
      → splitn 3 b':' (greeting version user) ≡ codes "Hello" ∷ version ∷ user ∷ []
  unfolding splitn
  splitn-greeting version user h = rw (split_once-join b':' version user h)

  starts-greeting :
      (version user : Bytes) → starts_with (codes "Hello:") (greeting version user) ≡ true
  starts-greeting version user = (starts_with_iff _ _).1 (version ++ b':' ∷ user, refl)

  -- The reply to a greeting "Hello:<version>:<user>" whose version has no colon, by the three tests
  -- in their order. The store changes only when all three pass, and then by the fresh token alone.
  abbrev pub reply : Bytes → Bytes → List Action × TokenStore u
  reply version user = elim (semver.parse version) [
    | none ↦ (send_text invalid_version ∷ close ∷ [], store)
    | some v ↦
        if semver.matches_supported v
        then (if is_user user users
            then (send_text (codes "Hi:" ++ u.show fresh) ∷ [], insert u fresh store)
            else (send_text user_not_allowed ∷ close ∷ [], store))
        else (send_text unsupported_version ∷ close ∷ [], store)
  ]

  pub process_control-greeting :
      (version user : Bytes) (items : List Item)
      → has_byte b':' version ≡ false
      → process_control semver u users store fresh (text (greeting version user) ∷ items)
        ≡ reply version user
  unfolding process_control
  process_control-greeting version user items h =
      ground (arith, starts-greeting version user, splitn-greeting version user h)

  -- The token was granted to the greeting `msg`, by every test that the code makes.
  abbrev pub Granted : Bytes → Type 0
  Granted msg =
      (greet version user : Bytes) × (more : List Bytes) × (v : semver.Version) × (splitn 3 b':' msg
        ≡ greet ∷ version ∷ user ∷ more)
      × (semver.parse version ≡ some v)
      × (semver.matches_supported v ≡ true)
      × (is_user user users ≡ true)

  abbrev granted : List Action × TokenStore u
  granted = (send_text (codes "Hi:" ++ u.show fresh) ∷ [], insert u fresh store)

  check_parts-Granted :
      (msg : Bytes) (parts : List Bytes)
      → splitn 3 b':' msg ≡ parts
      → ((check_parts semver u users store fresh parts).1 ≡ store)
        ⊎ (Granted msg × (check_parts semver u users store fresh parts ≡ granted))
  unfolding check_parts check_version issue
  check_parts-Granted msg (greet ∷ version ∷ user ∷ more) e =
      elim (Option-cases (semver.parse version)) [
        | inl n ↦ inl (rw (n, check_version) refl)
        | inr (v, p) ↦ elim (Bool-cases (semver.matches_supported v)) [
          | inl m ↦ elim (Bool-cases (is_user user users)) [
            | inl k ↦
                inr ((greet, version, user, more, v, e, p, m, k), rw (p, check_version, m, k) refl)
            | inr k ↦ inl (rw (p, check_version, m, k) refl)
          ]
          | inr m ↦ inl (rw (p, check_version, m) refl)
        ]
      ]
  check_parts-Granted msg _ e = inl refl

  -- A token is stored only for a first message that is a text beginning with "Hello:" whose version
  -- is supported and whose user is listed, and then the reply is "Hi:" and the token, which alone is
  -- added; in every other case the store is as it was.
  pub process_control-Granted :
      (items : List Item)
      → ((process_control semver u users store fresh items).1 ≡ store)
        ⊎ ((msg : Bytes) × (rest : List Item) × (items ≡ text msg ∷ rest)
            × (starts_with (codes "Hello:") msg ≡ true)
            × Granted msg
            × (process_control semver u users store fresh items ≡ granted))
  unfolding process_control
  process_control-Granted (text msg ∷ rest) = elim (Bool-cases (starts_with (codes "Hello:") msg)) [
    | inl s ↦ elim (check_parts-Granted msg (splitn 3 b':' msg) refl) [
      | inl e ↦ inl (rw (handle_text, s) e)
      | inr (g, e) ↦ inr (msg, rest, refl, s, g, rw (handle_text, s) e)
    ]
    | inr s ↦ inl (rw (handle_text, s) refl)
  ]
  process_control-Granted _ = inl refl
