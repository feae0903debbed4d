-- ===== src/Server/Serving.antt =====
-- server/src/lib.rs: the token store under the handshakes of all connections. `/control` issues
-- tokens and `/mux` consumes them; each takes the lock once, so a history is a sequence.
use echo_proxy_core.Base.{
  ℕ, ◌+◌, ◌≤◌, refl, inl, inr, Bool, false, Option, some, List, [], ◌∷◌, ◌++◌, arith, Bytes, codes,
  if◌then◌else◌, Option-cases,
}
use echo_proxy_core.WebSocket.{Item}
use echo_proxy_core.Text.{starts_with}
use echo_proxy_core.Text.Laws.{starts_with_iff}
use echo_proxy_core.Server.Tokens.{
  UuidApi, UuidLaws, TokenStore, holds, holds-insert, holds-remove, found-remove, holds-nil,
}
use echo_proxy_core.Server.Control.{SemverApi, Action, send_text, process_control}
use echo_proxy_core.Server.Control.Outcome.{process_control-Granted}
use echo_proxy_core.Server.Session.Hello.{await_hello, begin_session}

pub data Handshake (Uuid : Type 0) : Type 0 where
  control : List Item → Uuid → Handshake Uuid
  mux : List Item → Handshake Uuid

-- The tokens that a reply "Hi:" gave out and those whose session began, latest first.
pub record Served (u : UuidApi) : Type 0 where
  pub store : TokenStore u
  pub issued : List u.Uuid
  pub started : List u.Uuid

abbrev pub says_hi : List Action → Bool
says_hi (send_text msg ∷ actions) = starts_with (codes "Hi:") msg
says_hi _ = false

module _ (semver : SemverApi) (u : UuidApi) (users : List Bytes) where
  abbrev pub nothing_served : Served u
  nothing_served = record { store = []; issued = []; started = [] }

  begun : Option (u.Uuid × List Item) → Option (List Item) → List u.Uuid → List u.Uuid
  begun (some (t, items)) (some rest) started = t ∷ started
  begun _ _ started = started

  unfoldable pub handshake : Handshake u.Uuid → Served u → Served u
  unfolding begun
  handshake (control items fresh) s =
      let (actions, store) = process_control semver u users s.store fresh items in
      record s { store = store; issued = if says_hi actions then fresh ∷ s.issued else s.issued }
  handshake (mux items) s =
      let (rest, store) = begin_session u items s.store in
      record s { store = store; started = begun (await_hello u items) rest s.started }

  unfoldable pub handshakes : List (Handshake u.Uuid) → Served u → Served u
  handshakes [] s = s
  handshakes (h ∷ hs) s = handshakes hs (handshake h s)

  abbrev pub times : u.Uuid → List u.Uuid → ℕ
  times t [] = 0
  times t (x ∷ xs) = (if u.eq x t then 1 else 0) + times t xs

  module _ (laws : UuidLaws u) where
    -- What has begun, and what may still begin, was issued as often at least.
    abbrev Inv : Served u → Type 0
    Inv s =
        (t : u.Uuid) → times t s.started + (if holds u t s.store then 1 else 0) ≤ times t s.issued

    control-Inv :
        (items : List Item) (fresh : u.Uuid) (s : Served u)
        → Inv s
        → Inv (handshake (control items fresh) s)
    unfolding handshake
    control-Inv items fresh s v t =
        elim (process_control-Granted semver u users s.store fresh items) [
          | inl e ↦ rw e (ground (arith, v t))
          | inr (msg, rest, e, k, g, p) ↦ rw p (
              ground (
                arith,
                v t,
                holds-insert laws fresh t s.store,
                (starts_with_iff (codes "Hi:") (codes "Hi:" ++ u.show fresh)).1
                    (u.show fresh, refl),
              ))
        ]

    mux-Inv : (items : List Item) (s : Served u) → Inv s → Inv (handshake (mux items) s)
    unfolding handshake begin_session
    mux-Inv items s v t = elim (Option-cases (await_hello u items)) [
      | inl n ↦ rw (n, handshake, begin_session) (v t)
      | inr ((t', rest), n) ↦
          rw (n, handshake, begin_session)
            (ground (
              arith,
              v t,
              holds-remove laws t' t s.store,
              found-remove laws t' s.store,
              laws.eq_iff t' t,
            ))
    ]

    handshake-Inv : (h : Handshake u.Uuid) (s : Served u) → Inv s → Inv (handshake h s)
    handshake-Inv (control items fresh) s v = control-Inv items fresh s v
    handshake-Inv (mux items) s v = mux-Inv items s v

    handshakes-Inv : (hs : List (Handshake u.Uuid)) (s : Served u) → Inv s → Inv (handshakes hs s)
    unfolding handshakes
    handshakes-Inv [] s v = v
    handshakes-Inv (h ∷ hs) s v = handshakes-Inv hs (handshake h s) (handshake-Inv h s v)

    -- In every history of handshakes from an empty store, a token begins at most as many sessions as
    -- the number of times a reply of /control gave it out.
    pub times-started-le-issued :
        (hs : List (Handshake u.Uuid)) (t : u.Uuid)
        → times t (handshakes hs nothing_served).started
          ≤ times t (handshakes hs nothing_served).issued
    times-started-le-issued hs t =
        omega (arith, handshakes-Inv hs nothing_served (λ t. rw (holds-nil laws t) (omega arith)) t)
