-- ===== src/Client/Socks/Refuses.antt =====
-- What is written to a SOCKS5 client that is refused.
use echo_proxy_core.Base.{
  ℕ, ◌≡◌, not, ◌||◌, Option, none, some, List, [], ◌∷◌, Bytes, ◌==◌, if◌then◌else◌,
}
use echo_proxy_core.Text.{has_byte}
use echo_proxy_core.Client.Talk.{Talked}
use echo_proxy_core.Client.Socks.{socks5_reply}

abbrev pub Refused : List Bytes → Talked Bytes → Type 0
Refused written t = (t.value ≡ none) × (t.written ≡ written)

-- What is written to a client whose request is at fault: nothing for another version, code 7 for a
-- command other than CONNECT and code 8 for an unknown address type. `none` is no fault.
abbrev pub request_fault : ℕ → ℕ → ℕ → Option (List Bytes)
request_fault version cmd kind =
    if not (version == 5)
    then some []
    else if not (cmd == 1)
    then some (socks5_reply 7 ∷ [])
    else if kind == 1 || kind == 3 || kind == 4
    then none
    else some (socks5_reply 8 ∷ [])

-- The same from the greeting on: nothing for another version, 0xff for methods without NO_AUTH, and
-- the selection of NO_AUTH before the fault of the request.
abbrev pub fault : ℕ → Bytes → ℕ → ℕ → ℕ → Option (List Bytes)
fault greeting_version methods version cmd kind =
    if not (greeting_version == 5)
    then some []
    else if not (has_byte 0 methods)
    then some ((5 ∷ 0xff ∷ []) ∷ [])
    else elim (request_fault version cmd kind) [
      | none ↦ none
      | some written ↦ some ((5 ∷ 0 ∷ []) ∷ written)
    ]
