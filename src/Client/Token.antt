-- ===== src/Client/Token.antt =====
-- client/src/lib.rs: the addresses of the server and the handshake with /control.
pub mod EndToEnd
use echo_proxy_core.Base.{
  ℕ, zero, suc, ◌+◌, ◌-◌, ◌*◌, ◌/◌, ◌%◌, ◌^◌, ◌≤◌, ◌<◌, min, String, ◌≡◌, refl, sym, ap, ◌∙◌, subst,
  ◌≢◌, ◌↔◌, ◌⊎◌, inl, inr, Bool, true, false, not, ◌&&◌, ◌||◌, Option, none, some, List, [], ◌∷◌,
  ◌++◌, map, reverse, arith, Bytes, codes, ltb, leb, ◌==◌, if◌then◌else◌, within, leb→le, ltb→lt,
  lt→ltb, ==_iff, Bool-cases, Option-cases, bytes_eq, bytes_eq_sound, bytes_eq_refl, bytes_eq_iff,
  length, take, drop, any, all, All, length-append, take-append, drop-append, take-append-drop,
  length-take, length-drop, any-split, any-append, append_laws, Result, ok, err, ◌>>=◌, ◌>>◌, guard,
  or_default, or_else, >>=-eq-some,
}
use echo_proxy_core.Text.{ends_with, strip_prefix}
use echo_proxy_core.Frame.{Frame, hello, encode}

-- The endpoint with a slash at its end.
unfoldable pub base_url : Bytes → Bytes
base_url endpoint = if ends_with (codes "/") endpoint then endpoint else endpoint ++ codes "/"

unfoldable pub control_url : Bytes → Bytes
control_url endpoint = base_url endpoint ++ codes "control"

unfoldable pub mux_url : Bytes → Bytes
mux_url endpoint = base_url endpoint ++ codes "mux"

-- The text that opens the handshake.
unfoldable pub hello_text : Bytes → Bytes → Bytes
hello_text version user = codes "Hello:" ++ (version ++ b':' ∷ user)

-- The token in the reply, if it was granted.
unfoldable pub token_of_reply : Bytes → Option Bytes
token_of_reply text = strip_prefix (codes "Hi:") text

-- `obtain_token_with_version`, over what the network answers: whether the connection is made,
-- whether the greeting is sent and flushed, and the text of the first message, if one comes.
unfoldable pub obtain_token_with_version :
    (connects : Bytes → Bool) (exchange : Bytes → Option Bytes) (endpoint user version : Bytes)
    → Option Bytes
obtain_token_with_version connects exchange endpoint user version = do
  guard (connects (control_url endpoint))
  text ← exchange (hello_text version user)
  token_of_reply text

-- The first WebSocket message of /mux.
unfoldable pub hello_frame : Bytes → Bytes
hello_frame token = encode (hello token)
