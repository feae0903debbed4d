-- ===== src/Tunnel/Typed.antt =====
-- Every frame that is sent fits the frame format, if the ids are those of a u32 and the targets texts.
use echo_proxy_core.Base.{
  ℕ, zero, suc, ◌^◌, ◌<◌, ◌≡◌, refl, sym, subst, inl, inr, Bool, true, Option, none, some, List, [],
  ◌∷◌, Bytes, Bool-cases, Option-cases, get_elem?, All,
}
use echo_proxy_core.Frame.{IsFrame}
use echo_proxy_core.Text.Utf8.{is_utf8}
use echo_proxy_core.Client.Task.{Task, Call, Reply, finish, ask, send_frame}
use echo_proxy_core.Client.Handlers.{
  handle_local_connection, handle_local_connection_resilient, handle_socks_connection_resilient,
}
use echo_proxy_core.Client.Handlers.Frames.{
  Sends, SentIs, local-Sends, resilient-Sends, socks-Sends,
}
use echo_proxy_core.Client.Pool
use echo_proxy_core.Client.Pool.{Job, local, resilient, socks, handler, advance, call_of}
use echo_proxy_core.Server.Session as Mux
use echo_proxy_core.Server.Session.{MuxSession, Reader, reading, acking, mem_id, without_id}
use echo_proxy_core.Tunnel.{
  Tunnel, Event, spawned, moves, up_taken, down_taken, up_ends, down_ends, writer_stops, closes,
  clears_acks, ack_sent, server_writer_ended, tcp_read, tcp_ended, relay_left, is_reading,
  put_on_wire, take_up, take_down, serve, step, run, start,
}
use echo_proxy_core.Tunnel.Exchange.Jobs.{target_of}
use echo_proxy_core.Tunnel.Flowing.{All-get_elem?, reading_of}
use echo_proxy_core.Tunnel.ServerEnd
use echo_proxy_core.Tunnel.Sent.{down_taken-kept}
use echo_proxy_core.Tunnel.Downloads.{down_taken-server}
use echo_proxy_core.Tunnel.Fits.{
  IsId, Fits, IsQuiet, All-append, dispatch-Fits, turn-Fits, step-Fits,
}

-- The ids are those of a u32, and a target is a text.
abbrev IsTarget : Option Bytes → Type 0
IsTarget none = Unit
IsTarget (some target) = is_utf8 target ≡ true

abbrev pub IsTyped : List Event → Type 0
IsTyped [] = Unit
IsTyped (spawned id job ∷ es) = ((id < 2 ^ 32) × IsTarget (target_of job)) × IsTyped es
IsTyped (_ ∷ es) = IsTyped es

abbrev AllSend : List (ℕ × Task) → Type 0
AllSend [] = Unit
AllSend ((j, t) ∷ ts) = Sends IsFrame t × AllSend ts

record Proper (t : Tunnel) : Type 0 where
  pub tasks : AllSend t.pool.running
  pub sent : All IsFrame t.sent_up
  pub server : Fits t.server

module _ (answer : (c : Call) → Reply c) where
  advance-AllSend : (n : ℕ) (ts : List (ℕ × Task)) → AllSend ts → AllSend (advance n answer ts)
  unfolding advance
  advance-AllSend n [] h = tt
  advance-AllSend zero ((j, finish) ∷ ts) h = h.1
  advance-AllSend zero ((j, ask c k) ∷ ts) h = (h.0.1 (answer c), h.1)
  advance-AllSend (suc n) ((j, t) ∷ ts) h = (h.0, advance-AllSend n ts h.1)

  call-IsFrame : (c : Call) → SentIs IsFrame c → All IsFrame (put_on_wire answer (some c))
  call-IsFrame (send_frame f) h = elim (Bool-cases (answer (send_frame f))) [
    | inl e ↦ rw e (h, tt)
    | inr e ↦ rw e tt
  ]
  call-IsFrame _ h = tt

  put_on_wire-IsFrame :
      (n : ℕ) (ts : List (ℕ × Task)) → AllSend ts → All IsFrame (put_on_wire answer (call_of n ts))
  unfolding call_of
  put_on_wire-IsFrame n [] h = tt
  put_on_wire-IsFrame zero ((j, finish) ∷ ts) h = tt
  put_on_wire-IsFrame zero ((j, ask c k) ∷ ts) h = call-IsFrame c h.0.0
  put_on_wire-IsFrame (suc n) ((j, t) ∷ ts) h = put_on_wire-IsFrame n ts h.1

serve-Proper : (e : Mux.Event ℕ) (t : Tunnel) → IsQuiet e → Proper t → Proper (serve e t)
serve-Proper e t q v = record {
  tasks = v.tasks;
  sent = v.sent;
  server = step-Fits e t.server q v.server;
}

take_up-Proper : (connected : Bool) (t : Tunnel) → Proper t → Proper (take_up connected t)
unfolding take_up
take_up-Proper connected t v = elim (Option-cases (get_elem? t.sent_up t.taken_up)) [
  | inl e ↦ rw (take_up, e) v
  | inr (f, e) ↦ elim (Bool-cases (is_reading t.server.reader)) [
    | inr r ↦ rw (take_up, e, r) v
    | inl r ↦
        let w = All-get_elem? t.sent_up t.taken_up f e v.sent in
        rw (take_up, e, r)
          record {
            tasks = v.tasks;
            sent = v.sent;
            server =
                subst Fits
                  (sym (ServerEnd.step-taken f connected t.server (reading_of t.server.reader r) w))
                  (dispatch-Fits f connected t.server w v.server);
          }
  ]
]

module _ (should_bypass : Bytes → ℕ → Bool) where
  handler-Sends :
      (id : ℕ) (job : Job)
      → IsId id
      → IsTarget (target_of job)
      → Sends IsFrame (handler should_bypass id job)
  unfolding handler handle_local_connection handle_local_connection_resilient
      handle_socks_connection_resilient
  handler-Sends id (local none reads) w h = tt
  handler-Sends id (local (some request) reads) w h =
      local-Sends IsFrame id (λ b. w) w should_bypass reads request (w, h)
  handler-Sends id (resilient none reads) w h = tt
  handler-Sends id (resilient (some request) reads) w h =
      resilient-Sends IsFrame id (λ b. w) w should_bypass reads request (w, h)
  handler-Sends id (socks none reads) w h = tt
  handler-Sends id (socks (some target) reads) w h =
      socks-Sends IsFrame id (λ b. w) w should_bypass reads target (w, h)

  take_down-Proper : (t : Tunnel) → Proper t → Proper (take_down should_bypass t)
  take_down-Proper t v =
      let (r, s) = down_taken-kept should_bypass t in
      record {
        tasks = subst AllSend (sym r) v.tasks;
        sent = subst (All IsFrame) (sym s) v.sent;
        server = subst Fits (sym (down_taken-server should_bypass t)) v.server;
      }

  step-Proper :
      (e : Event) (t : Tunnel) → IsTyped (e ∷ []) → Proper t → Proper (step should_bypass e t)
  unfolding step Pool.step Mux.step
  step-Proper (spawned id job) t h v = record {
    tasks = (handler-Sends id job h.0.0 h.0.1, v.tasks);
    sent = v.sent;
    server = v.server;
  }
  step-Proper (moves n answer) t h v = record {
    tasks = advance-AllSend answer n t.pool.running v.tasks;
    sent = All-append t.sent_up _ v.sent (put_on_wire-IsFrame answer n t.pool.running v.tasks);
    server = v.server;
  }
  step-Proper (up_taken connected) t h v = take_up-Proper connected t v
  step-Proper down_taken t h v = take_down-Proper t v
  step-Proper up_ends t h v = record {
    tasks = v.tasks;
    sent = v.sent;
    server = turn-Fits t.server.reader t.server refl v.server;
  }
  step-Proper down_ends t h v = record { tasks = v.tasks; sent = v.sent; server = v.server }
  step-Proper writer_stops t h v = record { tasks = v.tasks; sent = v.sent; server = v.server }
  step-Proper closes t h v = record { tasks = v.tasks; sent = v.sent; server = v.server }
  step-Proper clears_acks t h v = record { tasks = v.tasks; sent = v.sent; server = v.server }
  step-Proper ack_sent t h v = serve-Proper Mux.ack_sent t tt v
  step-Proper server_writer_ended t h v = serve-Proper Mux.writer_ended t tt v
  step-Proper (tcp_read id bytes) t h v = serve-Proper (Mux.tcp_read id bytes) t tt v
  step-Proper (tcp_ended id) t h v = serve-Proper (Mux.tcp_ended id) t tt v
  step-Proper (relay_left id) t h v = serve-Proper (Mux.relay_left id) t tt v

  IsTyped-cons : (e : Event) (es : List Event) → IsTyped (e ∷ es) → IsTyped (e ∷ []) × IsTyped es
  IsTyped-cons (spawned id job) es h = ((h.0, tt), h.1)
  IsTyped-cons _ es h = (tt, h)

  run-Proper :
      (es : List Event) (t : Tunnel) → IsTyped es → Proper t → Proper (run should_bypass es t)
  unfolding run
  run-Proper [] t h v = v
  run-Proper (e ∷ es) t h v =
      let (a, b) = IsTyped-cons e es h in
      run-Proper es (step should_bypass e t) b (step-Proper e t a v)

  start-Proper : Proper start
  unfolding start Pool.start Mux.start
  start-Proper = record {
    tasks = tt;
    sent = tt;
    server = record { reader = tt; relays = tt; outbox = tt };
  }

  pub run-later_frames :
      (es₀ es : List Event)
      → IsTyped es₀
      → IsTyped es
      → All IsFrame (run should_bypass es (run should_bypass es₀ start)).sent_up
        × All IsFrame (run should_bypass es (run should_bypass es₀ start)).server.outbox
  run-later_frames es₀ es h k =
      let v = run-Proper es (run should_bypass es₀ start) k (run-Proper es₀ start h start-Proper) in
      (v.sent, v.server.outbox)

  -- In every run in which handlers are spawned with ids of a u32 and with targets in UTF-8, every frame
  -- that either side sends fits the frame format, so that the other side decodes it.
  pub run-start-frames :
      (es : List Event)
      → IsTyped es
      → All IsFrame (run should_bypass es start).sent_up
        × All IsFrame (run should_bypass es start).server.outbox
  run-start-frames es h = let v = run-Proper es start h start-Proper in (v.sent, v.server.outbox)
