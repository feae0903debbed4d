-- ===== src/Client/Task.antt =====
-- The async functions that handle one request, as the calls that they make. A call is answered by
-- the world: by the shared connection, by a peer or by the operating system.
use echo_proxy_core.Base.{ℕ, Bool, Option, Bytes}
use echo_proxy_core.Frame.{Frame}

pub data Call : Type 0 where
  -- `registry.register(id)`, `pending_acks.insert(id, ack_tx)`, `registry.close(id)`
  register : ℕ → Call
  insert_ack : ℕ → Call
  close_stream : ℕ → Call
  -- `frame_tx.send(frame).await.is_ok()`
  send_frame : Frame → Call
  -- `ack_rx.recv().await`, with the seconds of a timeout around it; `none` is an error of either
  recv_ack : ℕ → Option ℕ → Call
  -- `tcp_stream.write_all(bytes).await.is_ok()`, and the same on the stream to the target
  write_local : Bytes → Call
  write_upstream : Bytes → Call
  -- `TcpStream::connect(host).await.is_ok()`
  connect : Bytes → Call
  -- the task from the stream's channel to the local TCP stream, and `relay_tcp`
  spawn_writer : ℕ → Call
  relay_tcp : Call
  -- `shared_mux.lock().unwrap().clone().is_some()`
  snapshot_mux : Call

abbrev pub Reply : Call → Type 0
Reply (send_frame f) = Bool
Reply (recv_ack id t) = Option Bool
Reply (write_local b) = Bool
Reply (write_upstream b) = Bool
Reply (connect h) = Bool
Reply snapshot_mux = Bool
Reply _ = Unit {0}

pub data Task : Type 0 where
  finish : Task
  ask : (c : Call) → (Reply c → Task) → Task

infixl 5 ◌>>◌
-- One function after another.
abbrev pub ◌>>◌ : Task → Task → Task
finish >> t = t
ask c k >> t = ask c (λ r. k r >> t)

-- A property of every run, whatever the answers: `next` follows the calls and `at_end` holds when
-- the function returns.
abbrev pub Ends {ℓ} :
    {S : Type ℓ} → (S → (c : Call) → Reply c → S) → (S → Type 0) → S → Task → Type 0
Ends next at_end s finish = at_end s
Ends next at_end s (ask c k) = (r : Reply c) → Ends next at_end (next s c r) (k r)

module _ {ℓ} {S : Type ℓ} (next : S → (c : Call) → Reply c → S) where
  pub Ends-seq :
      (P Q : S → Type 0) (s : S) (t u : Task)
      → Ends next P s t
      → ((s' : S) → P s' → Ends next Q s' u)
      → Ends next Q s (t >> u)
  Ends-seq P Q s finish u h k = k s h
  Ends-seq P Q s (ask c f) u h k = λ r. Ends-seq P Q (next s c r) (f r) u (h r) k
