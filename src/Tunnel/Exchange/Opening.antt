-- ===== src/Tunnel/Exchange/Opening.antt =====
-- A handler opens its stream: its OPEN and the answer.
use echo_proxy_core.Base.{
  ℕ, ◌^◌, ◌<◌, ◌≡◌, refl, ap, ◌∙◌, Bool, true, some, List, [], ◌∷◌, ◌++◌, arith, Bytes, ◌==◌,
  if◌then◌else◌, length, ok,
}
use echo_proxy_core.Frame.{Frame, IsFrame, open_stream, open_ack}
use echo_proxy_core.Session
use echo_proxy_core.Session.Table.{lookup, insert, remove, lookup-insert, remove_value}
use echo_proxy_core.Client.Task.{Task, ask, send_frame}
use echo_proxy_core.Client.Conn
use echo_proxy_core.Client.Conn.{MuxConn}
use echo_proxy_core.Server.Session as Mux
use echo_proxy_core.Server.Session.{MuxSession, reading, acking, mem_id, send}
use echo_proxy_core.Server.Ssrf.{is_dest_allowed}
use echo_proxy_core.Tunnel.{Event, up_taken, down_taken, ack_sent, step, run, take_down}
use echo_proxy_core.Tunnel.Exchange.{moving, level}
use echo_proxy_core.Tunnel.Exchange.Frames.{run-then, run-frame_up, take_down-last}

-- The stream is registered at both ends, and the relay of the server runs.
abbrev pub awaiting : ℕ → MuxConn ℕ ℕ → MuxConn ℕ ℕ
awaiting id c = record c {
  registry = record { inner = insert id id c.registry.inner };
  pending_acks = insert id id c.pending_acks;
}

abbrev pub told : ℕ → MuxConn ℕ ℕ → MuxConn ℕ ℕ
told id c = record c {
  registry = record { inner = insert id id c.registry.inner };
  pending_acks = (remove id (insert id id c.pending_acks)).1;
  acked = (id, true) ∷ c.acked;
}

abbrev pub dialled : ℕ → Bytes → MuxSession ℕ → MuxSession ℕ
dialled id target s = record s {
  dialled = target ∷ s.dialled;
  registry = record { inner = insert id id s.registry.inner };
  reader = acking id true;
}

abbrev pub relayed : ℕ → Bytes → MuxSession ℕ → MuxSession ℕ
relayed id target s = record s {
  dialled = target ∷ s.dialled;
  registry = record { inner = insert id id s.registry.inner };
  reader = reading;
  relays = id ∷ s.relays;
  outbox = s.outbox ++ open_ack id true ∷ [];
}

server_open :
    (id : ℕ) (target : Bytes) (s : MuxSession ℕ)
    → is_dest_allowed target ≡ true
    → Mux.dispatch (ok (open_stream id target)) true id s ≡ dialled id target s
unfolding Mux.dispatch Mux.handle_open Session.register
server_open id target s a = rw (Mux.dispatch, Mux.handle_open, a) refl

server_ack :
    (id : ℕ) (target : Bytes) (s : MuxSession ℕ)
    → s.writer_up ≡ true
    → Mux.step Mux.ack_sent (dialled id target s) ≡ relayed id target s
unfolding Mux.step Mux.finish_open Mux.send
server_ack id target s u = rw u refl

client_ack :
    (id : ℕ) (c : MuxConn ℕ ℕ) → Conn.dispatch (ok (open_ack id true)) (awaiting id c) ≡ told id c
unfolding Conn.dispatch Conn.resolve
client_ack id c =
    let own : (id == id) ≡ true = ground arith in
    let e : (remove id (insert id id c.pending_acks)).0 ≡ some id =
      remove_value id (insert id id c.pending_acks)
      ∙ lookup-insert id id id c.pending_acks
      ∙ ap (λ q. if q then some id else lookup id c.pending_acks) own in
    rw (Conn.dispatch, Conn.resolve, e) refl

-- OPEN is sent and taken, OPEN_ACK is sent and taken.
abbrev pub opening : List Event
opening = (moving ∷ up_taken true ∷ []) ++ (ack_sent ∷ down_taken ∷ [])

module _ (should_bypass : Bytes → ℕ → Bool) where
  acked :
      (id : ℕ) (target : Bytes) (ts : List (ℕ × Task)) (c : MuxConn ℕ ℕ) (s : MuxSession ℕ)
      (sent : List Frame)
      → id < 2 ^ 32
      → c.reading ≡ true
      → s.writer_up ≡ true
      → run should_bypass
          (ack_sent ∷ down_taken ∷ [])
          (level ts (awaiting id c) (dialled id target s) sent)
        ≡ level ts (told id c) (relayed id target s) sent
  unfolding run step
  acked id target ts c s sent w r u =
      ap
        (λ s'.
          take_down should_bypass
            (record (level ts (awaiting id c) s' sent) { taken_down = length s.outbox }))
        (server_ack id target s u)
      ∙ take_down-last should_bypass (open_ack id true) ts (awaiting id c) (relayed id target s)
          sent s.outbox w r refl
      ∙ ap (λ c. level ts c (relayed id target s) sent) (client_ack id c)

  pub run-opening :
      (id : ℕ) (target : Bytes) (k : Bool → Task) (ts : List (ℕ × Task)) (c : MuxConn ℕ ℕ)
      (s : MuxSession ℕ) (sent : List Frame)
      → IsFrame (open_stream id target)
      → is_dest_allowed target ≡ true
      → c.reading ≡ true
      → s.reader ≡ reading
      → s.writer_up ≡ true
      → run should_bypass opening
          (level ((id, ask (send_frame (open_stream id target)) k) ∷ ts) (awaiting id c) s sent)
        ≡ level
            ((id, k true) ∷ ts)
            (told id c)
            (relayed id target s)
            (sent ++ open_stream id target ∷ [])
  run-opening id target k ts c s sent w a r q u =
      let out = open_stream id target in
      run-then should_bypass (moving ∷ up_taken true ∷ []) _ _ _ _
        (run-frame_up should_bypass id out k ts (awaiting id c) s sent w q
          ∙ ap (λ s. level ((id, k true) ∷ ts) (awaiting id c) s (sent ++ out ∷ []))
              (server_open id target s a))
        (acked id target ((id, k true) ∷ ts) c s (sent ++ out ∷ []) w.0 r u)
