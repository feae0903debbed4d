-- ===== src/Tunnel.antt =====
-- The client's handlers and connection, one WebSocket, and the server's session on its other end.
-- The frames of each direction arrive in the order in which they were sent, and an end of the
-- connection may cut off the last of them. A channel of a stream is named by its stream's id.
pub mod Flow
pub mod ServerEnd
pub mod ClientEnd
pub mod Uploads
pub mod Sent
pub mod EndToEnd
pub mod Downloads
pub mod Flowing
pub mod Growth
pub mod Integrity
pub mod Exact
pub mod Steps
pub mod Complete
pub mod Pools
pub mod Fits
pub mod Typed
pub mod Finished
pub mod Exchange
use echo_proxy_core.Base.{
  ℕ, zero, suc, ◌+◌, ◌-◌, ◌*◌, ◌/◌, ◌%◌, ◌^◌, ◌≤◌, ◌<◌, min, String, ◌≡◌, refl, sym, ap, ◌∙◌, subst,
  ◌≢◌, ◌↔◌, ◌⊎◌, inl, inr, Bool, true, false, not, ◌&&◌, ◌||◌, Option, none, some, List, [], ◌∷◌,
  ◌++◌, map, reverse, arith, Bytes, codes, ltb, leb, ◌==◌, if◌then◌else◌, within, leb→le, ltb→lt,
  lt→ltb, ==_iff, Bool-cases, Option-cases, bytes_eq, bytes_eq_sound, bytes_eq_refl, bytes_eq_iff,
  length, take, drop, get_elem?, any, all, All, length-append, take-append, drop-append,
  take-append-drop, length-take, length-drop, any-split, any-append, append_laws, Result, ok, err,
  guard, or_default, or_else, >>=-eq-some,
}
use echo_proxy_core.Frame.{Frame, hello, open_stream, open_ack, data_frame, close, encode}
use echo_proxy_core.WebSocket.{Item, binary}
use echo_proxy_core.Server.Session
use echo_proxy_core.Server.Session.{MuxSession, Reader, reading}
use echo_proxy_core.Client.Task.{Call, Reply, send_frame, register, insert_ack}
use echo_proxy_core.Client.Pool
use echo_proxy_core.Client.Pool.{Pool, Job, call_of}

-- `sent_up` are the frames that the client's handlers sent, oldest first, of which the server took the
-- first `taken_up`; the client took the first `taken_down` of those in the server's `outbox`.
pub record Tunnel : Type 0 where
  pub pool : Pool ℕ ℕ
  pub server : MuxSession ℕ
  pub sent_up : List Frame
  pub taken_up : ℕ
  pub taken_down : ℕ

-- A handler is spawned, or makes its next call; the server's reader takes the next frame (`connected`
-- as in the session), or the client's does; either reader comes to its end; the client's writer ends,
-- its keeper closes the connection, or its one-shots alone are cleared; one of the server's other tasks moves.
pub data Event : Type 0 where
  spawned : ℕ → Job → Event
  moves : ℕ → ((c : Call) → Reply c) → Event
  up_taken : Bool → Event
  down_taken : Event
  up_ends : Event
  down_ends : Event
  writer_stops : Event
  closes : Event
  clears_acks : Event
  ack_sent : Event
  server_writer_ended : Event
  tcp_read : ℕ → Bytes → Event
  tcp_ended : ℕ → Event
  relay_left : ℕ → Event

abbrev pub stream_id : Frame → ℕ
stream_id (hello t) = 0
stream_id (open_stream id dest) = id
stream_id (open_ack id is_ok) = id
stream_id (data_frame id bytes) = id
stream_id (close id) = id

abbrev pub is_reading : Reader → Bool
is_reading reading = true
is_reading _ = false

-- The channel that a call makes.
abbrev pub channel_of : Option Call → ℕ
channel_of (some (register id)) = id
channel_of (some (insert_ack id)) = id
channel_of _ = 0

-- What a call puts on the wire.
abbrev pub put_on_wire : ((c : Call) → Reply c) → Option Call → List Frame
put_on_wire answer (some (send_frame f)) = if answer (send_frame f) then f ∷ [] else []
put_on_wire answer _ = []

abbrev pub taking : Bool → Frame → Tunnel → Tunnel
taking connected f t = record t {
  server =
      Session.step (Session.received (some (binary (encode f))) connected (stream_id f)) t.server;
  taken_up = suc t.taken_up;
}

-- The reader takes nothing while it is busy, or past its end.
unfoldable pub take_up : Bool → Tunnel → Tunnel
take_up connected t = elim (get_elem? t.sent_up t.taken_up) [
  | none ↦ t
  | some f ↦ if is_reading t.server.reader then taking connected f t else t
]

abbrev pub serve : Session.Event ℕ → Tunnel → Tunnel
serve e t = record t { server = Session.step e t.server }

module _ (should_bypass : Bytes → ℕ → Bool) where
  abbrev pub act : Pool.Event ℕ ℕ → Tunnel → Tunnel
  act e t = record t { pool = Pool.step should_bypass e t.pool }

  unfoldable pub take_down : Tunnel → Tunnel
  take_down t = elim (get_elem? t.server.outbox t.taken_down) [
    | none ↦ t
    | some f ↦ record (act (Pool.arrives (some (binary (encode f)))) t) {
      taken_down = suc t.taken_down;
    }
  ]

  unfoldable pub step : Event → Tunnel → Tunnel
  step (spawned id job) t = act (Pool.spawned id job) t
  step (moves n answer) t =
      let call = call_of n t.pool.running in
      record (act (Pool.moves n answer (channel_of call) (channel_of call)) t) {
        sent_up = t.sent_up ++ put_on_wire answer call;
      }
  step (up_taken connected) t = take_up connected t
  step down_taken t = take_down t
  step up_ends t = serve (Session.received none false 0) t
  step down_ends t = act (Pool.arrives none) t
  step writer_stops t = act Pool.writer_stops t
  step closes t = act Pool.closes t
  step clears_acks t = act Pool.clears_acks t
  step ack_sent t = serve Session.ack_sent t
  step server_writer_ended t = serve Session.writer_ended t
  step (tcp_read id bytes) t = serve (Session.tcp_read id bytes) t
  step (tcp_ended id) t = serve (Session.tcp_ended id) t
  step (relay_left id) t = serve (Session.relay_left id) t

  unfoldable pub run : List Event → Tunnel → Tunnel
  run [] t = t
  run (e ∷ es) t = run es (step e t)

unfoldable pub start : Tunnel
start = record {
  pool = Pool.start;
  server = Session.start;
  sent_up = [];
  taken_up = 0;
  taken_down = 0;
}
