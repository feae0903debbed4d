-- ===== src/Server/Accept.antt =====
-- server/src/lib.rs: `accept_connection`, up to the WebSocket sessions.
pub mod Paths
use echo_proxy_core.Base.{
  Bool, not, ◌||◌, Option, none, some, [], ◌∷◌, Bytes, codes, if◌then◌else◌, bytes_eq,
}
use echo_proxy_core.Text.{to_ascii_lowercase, starts_with, ends_with, contains}

-- What is answered to a new connection. The WebSocket handshake is that of async-tungstenite.
pub data Answer : Type 0 where
  hang_up : Answer
  plain_http : Bytes → Answer
  run_control : Answer
  run_mux : Answer

abbrev pub running_page : Bytes
running_page =
    codes "HTTP/1.1 200 OK\r\nContent-Length: 12\r\nConnection: close\r\n\r\nI am running"

abbrev pub not_found_page : Bytes
not_found_page = codes "HTTP/1.1 404 Not Found\r\nContent-Length: 0\r\nConnection: close\r\n\r\n"

-- Some window of nine bytes spells "websocket" in any case.
unfoldable pub is_websocket : Bytes → Bool
is_websocket header_bytes = contains (codes "websocket") (to_ascii_lowercase header_bytes)

-- The handshake's callback: the other paths are refused.
unfoldable pub accepts_path : Bytes → Bool
accepts_path path = bytes_eq path (codes "/control") || bytes_eq path (codes "/mux")

-- `peeked` is what `peek` shows, at most 4096 bytes; `handshake` is the path that the handshake hands
-- to the callback, if the request is one, after which it succeeds for an accepted path.
unfoldable pub accept_connection : Option Bytes → Option Bytes → Answer
accept_connection none handshake = hang_up
accept_connection (some []) handshake = hang_up
accept_connection (some (b ∷ bs)) handshake =
    if not (is_websocket (b ∷ bs))
    then plain_http (if starts_with (codes "GET / ") (b ∷ bs) then running_page else not_found_page)
    else elim handshake [
      | none ↦ hang_up
      | some path ↦
          if not (accepts_path path)
          then hang_up
          else if ends_with (codes "control") path
          then run_control
          else run_mux
    ]
