-- ===== src/WebSocket.antt =====
-- What a WebSocket stream of async-tungstenite yields: `Some(Ok(message))` or `Some(Err(_))`. The
-- end of the list of items is `None`. The program tells apart text, binary and ping messages.
use echo_proxy_core.Base.{Bytes}

pub data Item : Type 0 where
  text : Bytes → Item
  binary : Bytes → Item
  ping : Item
  other_message : Item
  failed : Item
