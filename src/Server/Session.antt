-- ===== src/Server/Session.antt =====
-- server/src/lib.rs, "/mux session": `run_server_mux_session` and `handle_open`. The tasks of a session
-- share the registry and the frame channel; a session is the sequence of their atomic steps, an
-- arbitrary interleaving. Between two wait points a step is atomic.
pub mod Hello
pub mod Protocol
pub mod Dialled
pub mod Replies
use echo_proxy_core.Base.{
  ℕ, zero, suc, ◌+◌, ◌-◌, ◌*◌, ◌/◌, ◌%◌, ◌^◌, ◌≤◌, ◌<◌, min, String, ◌≡◌, refl, sym, ap, ◌∙◌, subst,
  ◌≢◌, ◌↔◌, ◌⊎◌, inl, inr, Bool, true, false, not, ◌&&◌, ◌||◌, Option, none, some, List, [], ◌∷◌,
  ◌++◌, map, reverse, arith, Bytes, codes, ltb, leb, ◌==◌, if◌then◌else◌, within, leb→le, ltb→lt,
  lt→ltb, ==_iff, Bool-cases, Option-cases, bytes_eq, bytes_eq_sound, bytes_eq_refl, bytes_eq_iff,
  length, take, drop, any, all, All, length-append, take-append, drop-append, take-append-drop,
  length-take, length-drop, any-split, any-append, append_laws, Result, ok, err, ◌>>=◌, ◌>>◌, guard,
  or_default, or_else, >>=-eq-some,
}
use echo_proxy_core.Frame.{
  Frame, hello, open_stream, open_ack, data_frame, close, FrameError, decode,
}
use echo_proxy_core.Session
use echo_proxy_core.Session.{StreamRegistry, Delivery}
use echo_proxy_core.WebSocket.{Item, text, binary, ping, other_message, failed}
use echo_proxy_core.Server.Ssrf.{is_dest_allowed}

-- Where the reader loop stands: at `ws_src.next()`, inside `handle_open` with an OPEN_ACK to send, or
-- past its end.
pub data Reader : Type 0 where
  reading : Reader
  acking : ℕ → Bool → Reader
  ended : Reader

-- One session. `outbox` is what `frame_tx` has taken, oldest first; `writer_up` is false once the
-- writer loop has ended, after which a send on `frame_tx` fails. `relays` are the ids whose spawned
-- task copies from TCP, `leaving` those whose task is past its loop and its CLOSE. `dialled` are the
-- destinations given to `TcpStream::connect`, and `delivered` the sends on stream channels.
pub record MuxSession (Tx : Type 0) : Type 0 where
  pub registry : StreamRegistry Tx
  pub outbox : List Frame
  pub writer_up : Bool
  pub reader : Reader
  pub relays : List ℕ
  pub leaving : List ℕ
  pub dialled : List Bytes
  pub delivered : List (Delivery Tx)

-- What happens next: the reader takes the next item of the stream (`none` at its end) or sends the
-- OPEN_ACK, the writer loop ends because a WebSocket send failed, the relay of a stream reads bytes,
-- comes to its end (`Ok(0)` or an error), or unregisters its stream. `connected` is whether
-- `TcpStream::connect` succeeds and `tx` the sender of a new channel, both used by an OPEN alone.
pub data Event (Tx : Type 0) : Type 0 where
  received : Option Item → Bool → Tx → Event Tx
  ack_sent : Event Tx
  writer_ended : Event Tx
  tcp_read : ℕ → Bytes → Event Tx
  tcp_ended : ℕ → Event Tx
  relay_left : ℕ → Event Tx

abbrev pub mem_id : ℕ → List ℕ → Bool
mem_id i [] = false
mem_id i (x ∷ xs) = x == i || mem_id i xs

-- One task leaves.
unfoldable pub without_id : ℕ → List ℕ → List ℕ
without_id i [] = []
without_id i (x ∷ xs) = if x == i then xs else x ∷ without_id i xs

module _ {Tx : Type 0} where
  unfoldable pub start : MuxSession Tx
  start = record {
    registry = Session.new;
    outbox = [];
    writer_up = true;
    reader = reading;
    relays = [];
    leaving = [];
    dialled = [];
    delivered = [];
  }

  -- `frame_tx.send(frame).await`; its result is `writer_up`.
  unfoldable pub send : Frame → MuxSession Tx → MuxSession Tx
  send f s = if s.writer_up then record s { outbox = s.outbox ++ f ∷ [] } else s

  abbrev registered : ℕ → Tx → StreamRegistry Tx → StreamRegistry Tx
  registered id tx r = (Session.register (λ _. (tx, tt)) id r).1

  -- Up to the OPEN_ACK: a refused destination is not dialled.
  unfoldable pub handle_open : ℕ → Bytes → Bool → Tx → MuxSession Tx → MuxSession Tx
  handle_open id dest connected tx s =
      if not (is_dest_allowed dest)
      then record s { reader = acking id false }
      else if connected
      then record s {
        dialled = dest ∷ s.dialled;
        registry = registered id tx s.registry;
        reader = acking id true;
      }
      else record s {
        dialled = dest ∷ s.dialled;
        registry = Session.close id s.registry;
        reader = acking id false;
      }

  -- The OPEN_ACK, and for a stream that is open the task that copies from TCP.
  unfoldable pub finish_open : Reader → MuxSession Tx → MuxSession Tx
  finish_open (acking id true) s =
      let sent = send (open_ack id true) s in
      record sent { reader = reading; relays = id ∷ sent.relays }
  finish_open (acking id false) s = record (send (open_ack id false) s) { reader = reading }
  finish_open _ s = s

  unfoldable pub deliver : ℕ → Bytes → MuxSession Tx → MuxSession Tx
  deliver id bytes s = elim (Session.route id bytes s.registry) [
    | none ↦ s
    | some d ↦ record s { delivered = d ∷ s.delivered }
  ]

  -- The `match Frame::decode(&data)` of the reader loop.
  unfoldable pub dispatch : Result FrameError Frame → Bool → Tx → MuxSession Tx → MuxSession Tx
  dispatch (ok (open_stream id dest)) connected tx s = handle_open id dest connected tx s
  dispatch (ok (data_frame id bytes)) connected tx s = deliver id bytes s
  dispatch (ok (close id)) connected tx s = record s { registry = Session.close id s.registry }
  dispatch _ connected tx s = s

  -- The reader loop has ended.
  unfoldable pub stop_reading : MuxSession Tx → MuxSession Tx
  stop_reading s = record s { registry = Session.close_all s.registry; reader = ended }

  -- One turn of the reader loop.
  unfoldable pub receive : Option Item → Bool → Tx → MuxSession Tx → MuxSession Tx
  receive (some (binary d)) connected tx s = dispatch (decode d) connected tx s
  receive (some ping) connected tx s = s
  receive _ connected tx s = stop_reading s

  -- The turn waits while `handle_open` runs, and there is none after the end.
  unfoldable pub reader_turn : Reader → Option Item → Bool → Tx → MuxSession Tx → MuxSession Tx
  reader_turn reading item connected tx s = receive item connected tx s
  reader_turn _ item connected tx s = s

  abbrev leave : ℕ → MuxSession Tx → MuxSession Tx
  leave id s = record s { relays = without_id id s.relays; leaving = id ∷ s.leaving }

  -- One read of a relay, sent as DATA: a failed send ends the loop, and no CLOSE can be sent then.
  unfoldable pub relay_read : ℕ → Bytes → MuxSession Tx → MuxSession Tx
  relay_read id bytes s = if s.writer_up then send (data_frame id bytes) s else leave id s

  unfoldable pub relay_end : ℕ → MuxSession Tx → MuxSession Tx
  relay_end id s = leave id (send (close id) s)

  -- The last act of a relay.
  unfoldable pub unregister : ℕ → MuxSession Tx → MuxSession Tx
  unregister id s = record s {
    registry = Session.close id s.registry;
    leaving = without_id id s.leaving;
  }

  -- An event of a task that is not running changes nothing.
  unfoldable pub step : Event Tx → MuxSession Tx → MuxSession Tx
  unfolding reader_turn receive dispatch finish_open relay_read relay_end unregister
  step (received item connected tx) s = reader_turn s.reader item connected tx s
  step ack_sent s = finish_open s.reader s
  step writer_ended s = record s { writer_up = false; registry = Session.close_all s.registry }
  step (tcp_read id bytes) s = if mem_id id s.relays then relay_read id bytes s else s
  step (tcp_ended id) s = if mem_id id s.relays then relay_end id s else s
  step (relay_left id) s = if mem_id id s.leaving then unregister id s else s

  unfoldable pub run : List (Event Tx) → MuxSession Tx → MuxSession Tx
  run [] s = s
  run (e ∷ es) s = run es (step e s)
