-- ===== src/Client/Token/EndToEnd.antt =====
-- The whole way of a session token: /control to the client to /mux.
use echo_proxy_core.Base.{
  ◌≡◌, refl, ◌∙◌, true, false, some, List, [], ◌∷◌, ◌++◌, arith, Bytes, codes,
}
use echo_proxy_core.Text.{has_byte}
use echo_proxy_core.Text.Laws.{strip_prefix-append}
use echo_proxy_core.Text.Utf8.{is_utf8}
use echo_proxy_core.Frame.{hello}
use echo_proxy_core.Frame.RoundTrip.{decode-encode}
use echo_proxy_core.WebSocket.{Item, text, binary}
use echo_proxy_core.Server.Tokens.{
  UuidApi, UuidLaws, TokenStore, insert, holds, holds-insert, holds-remove, found-remove,
}
use echo_proxy_core.Server.Control.{SemverApi, send_text, process_control, is_user}
use echo_proxy_core.Server.Control.Outcome.{process_control-greeting, reply}
use echo_proxy_core.Server.Session.Hello.{hello_token, await_hello, begin_session}
use echo_proxy_core.Client.Token.{hello_text, token_of_reply, hello_frame}

module _ (semver : SemverApi) (u : UuidApi) (laws : UuidLaws u) where
  hello_token-hello_frame :
      (t : u.Uuid) → is_utf8 (u.show t) ≡ true → hello_token u (hello_frame (u.show t)) ≡ some t
  unfolding hello_token hello_frame
  hello_token-hello_frame t h =
      rw (hello_token, decode-encode (hello (u.show t)) h) (laws.parse-show t)

  begin_session-issued :
      (t : u.Uuid) (items : List Item) (store : TokenStore u)
      → is_utf8 (u.show t) ≡ true
      → holds u t store ≡ true
      → (begin_session u (binary (hello_frame (u.show t)) ∷ items) store).0 ≡ some items
        × (holds u t (begin_session u (binary (hello_frame (u.show t)) ∷ items) store).1 ≡ false)
  unfolding begin_session await_hello
  begin_session-issued t items store h k =
      rw (begin_session, await_hello, hello_token-hello_frame t h, found-remove laws t store, k)
        (refl, ground (arith, holds-remove laws t t store, laws.eq_iff t t))

  -- A client of a supported version, without a colon in it, whose user is listed gets the fresh token
  -- from the reply to its greeting, and the HELLO that it sends with it begins a session that reads on
  -- behind it; the token is then used up.
  pub token-begins_session :
      (users : List Bytes) (store : TokenStore u) (fresh : u.Uuid) (version user : Bytes)
      (v : semver.Version) (rest items : List Item)
      → has_byte b':' version ≡ false
      → semver.parse version ≡ some v
      → semver.matches_supported v ≡ true
      → is_user user users ≡ true
      → is_utf8 (u.show fresh) ≡ true
      → (granted : Bytes) × (store' : TokenStore u) × (process_control semver u users store fresh
            (text (hello_text version user) ∷ rest)
          ≡ (send_text granted ∷ [], store'))
        × (token_of_reply granted ≡ some (u.show fresh))
        × ((begin_session u (binary (hello_frame (u.show fresh)) ∷ items) store').0 ≡ some items)
        × (holds u fresh (begin_session u (binary (hello_frame (u.show fresh)) ∷ items) store').1
            ≡ false)
  unfolding hello_text token_of_reply
  token-begins_session users store fresh version user v rest items c p m k h =
      let held : holds u fresh (insert u fresh store) ≡ true =
        ground (arith, holds-insert laws fresh fresh store, laws.eq_iff fresh fresh) in
      let session = begin_session-issued fresh items (insert u fresh store) h held in
      (
        codes "Hi:" ++ u.show fresh,
        insert u fresh store,
        process_control-greeting semver u users store fresh version user rest c
            ∙ rw (p, reply, m, k) refl,
        strip_prefix-append (codes "Hi:") (u.show fresh),
        session.0,
        session.1,
      )
