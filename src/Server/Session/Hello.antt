-- ===== src/Server/Session/Hello.antt =====
-- server/src/lib.rs: the HELLO that opens a /mux session and consumes its token.
use echo_proxy_core.Base.{Option, none, some, List, [], ◌∷◌, Bytes, if◌then◌else◌, ok, ◌>>=◌}
use echo_proxy_core.Frame.{hello, decode}
use echo_proxy_core.WebSocket.{Item, binary, ping}
use echo_proxy_core.Server.Tokens.{UuidApi, TokenStore, remove}

module _ (u : UuidApi) where
  unfoldable pub hello_token : Bytes → Option u.Uuid
  hello_token d = elim (decode d) [ ok (hello t) ↦ u.parse t | _ ↦ none ]

  -- Pings are skipped; the first other item must be a HELLO with a token.
  unfoldable pub await_hello : List Item → Option (u.Uuid × List Item)
  await_hello [] = none
  await_hello (ping ∷ items) = await_hello items
  await_hello (binary d ∷ items) = do t ← hello_token d; some (t, items)
  await_hello (_ ∷ items) = none

  -- The token is taken from the store. `some` when the session goes on, with what is left to read.
  unfoldable pub begin_session : List Item → TokenStore u → Option (List Item) × TokenStore u
  begin_session items store = elim (await_hello items) [
    | none ↦ (none, store)
    | some (t, rest) ↦
        let (found, store') = remove u t store in ((if found then some rest else none), store')
  ]
