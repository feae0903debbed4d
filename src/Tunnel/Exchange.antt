-- ===== src/Tunnel/Exchange.antt =====
-- The whole life of one stream, from its OPEN to the end on both sides.
pub mod Frames
pub mod Opening
pub mod Closing
pub mod Jobs
pub mod Begins
pub mod Behind
pub mod Ends
pub mod Whole
pub mod Data
use echo_proxy_core.Base.{
  ℕ, zero, suc, ◌+◌, ◌-◌, ◌*◌, ◌/◌, ◌%◌, ◌^◌, ◌≤◌, ◌<◌, min, String, ◌≡◌, refl, sym, ap, ◌∙◌, subst,
  ◌≢◌, ◌↔◌, ◌⊎◌, inl, inr, Bool, true, false, not, ◌&&◌, ◌||◌, Option, none, some, List, [], ◌∷◌,
  ◌++◌, map, reverse, arith, Bytes, codes, ltb, leb, ◌==◌, if◌then◌else◌, within, leb→le, ltb→lt,
  lt→ltb, ==_iff, Bool-cases, Option-cases, bytes_eq, bytes_eq_sound, bytes_eq_refl, bytes_eq_iff,
  length, take, drop, get_elem?, any, all, All, length-append, take-append, drop-append,
  take-append-drop, length-take, length-drop, any-split, any-append, append_laws, Result, ok, err,
  guard, or_default, or_else, >>=-eq-some,
}
use echo_proxy_core.Frame.{Frame, IsFrame, open_stream, open_ack, data_frame, close}
use echo_proxy_core.Client.Task.{
  Task, Call, Reply, send_frame, recv_ack, write_local, write_upstream, connect, snapshot_mux,
  register, insert_ack, close_stream, spawn_writer, relay_tcp,
}
use echo_proxy_core.Client.Conn.{MuxConn}
use echo_proxy_core.Server.Session.{MuxSession}
use echo_proxy_core.Tunnel.{
  Tunnel, Event, spawned, moves, up_taken, down_taken, ack_sent, tcp_read, tcp_ended, relay_left,
  step, run,
}

-- Every call succeeds.
abbrev pub grants : (c : Call) → Reply c
grants (send_frame f) = true
grants (recv_ack id t) = some true
grants (write_local b) = true
grants (write_upstream b) = true
grants (connect h) = true
grants snapshot_mux = true
grants (register id) = tt
grants (insert_ack id) = tt
grants (close_stream id) = tt
grants (spawn_writer id) = tt
grants relay_tcp = tt

abbrev pub moving : Event
moving = moves 0 grants

-- The two ends, where each has taken all frames of the other.
abbrev pub level : List (ℕ × Task) → MuxConn ℕ ℕ → MuxSession ℕ → List Frame → Tunnel
level ts c s sent = record {
  pool = record { running = ts; conn = c };
  server = s;
  sent_up = sent;
  taken_up = length sent;
  taken_down = length s.outbox;
}
