-- ===== src/Tunnel/Finished.antt =====
-- What comes for a stream whose handler has returned.
use echo_proxy_core.Base.{
  ℕ, ◌≡◌, refl, sym, ap, ◌∙◌, subst, inl, inr, Bool, true, false, Option, none, List, [], ◌∷◌, ◌++◌,
  arith, Bytes, ◌==◌, Bool-cases, Option-cases, get_elem?, All, ok,
}
use mathlib.Core.List.{append-nil}
use echo_proxy_core.Frame.{Frame, IsFrame, hello, open_stream, open_ack, data_frame, close}
use echo_proxy_core.Session.{Delivery}
use echo_proxy_core.Session.Table.{lookup}
use echo_proxy_core.Client.Task.{Task}
use echo_proxy_core.Client.Conn
use echo_proxy_core.Client.Conn.{MuxConn}
use echo_proxy_core.Client.Pool
use echo_proxy_core.Client.Pool.{Pool, Job}
use echo_proxy_core.Client.Pool.Phases.{runs}
use echo_proxy_core.Client.Pool.Registered.{run-start-runs}
use echo_proxy_core.Client.Pool.Owned.{Quiet, advance-Quiet}
use echo_proxy_core.Tunnel.{
  Tunnel, Event, spawned, moves, up_taken, down_taken, step, run, start, take_down,
}
use echo_proxy_core.Tunnel.Flow.{payloads_to, brought, Keys, Keyed}
use echo_proxy_core.Tunnel.Sent.{jobs_of, take_up-kept, down_taken-kept}
use echo_proxy_core.Tunnel.Typed.{IsTyped, run-start-frames, run-later_frames}
use echo_proxy_core.Tunnel.EndToEnd.{jobs_of-cons-nil}
use echo_proxy_core.Tunnel.Flowing.{Flowing, step-Flowing, All-get_elem?}
use echo_proxy_core.Tunnel.Growth.{All-Grown, run-Grows}
use echo_proxy_core.Tunnel.Integrity.{run-Flowing, start-Flowing}
use echo_proxy_core.Tunnel.ClientEnd
use echo_proxy_core.Tunnel.Steps
use echo_proxy_core.Tunnel.Pools.{PoolsFrom, run-pools, Pool_run-append, no_event}

module _ (should_bypass : Bytes → ℕ → Bool) where
  abbrev Reached : Tunnel → Type 0
  Reached t = PoolsFrom should_bypass Pool.start t.pool

  start-Reached : Reached start
  unfolding start
  start-Reached = no_event should_bypass Pool.start start.pool refl

  run-Reached : (es : List Event) (t : Tunnel) → Reached t → Reached (run should_bypass es t)
  run-Reached es t (a, p) =
      let (b, q) = run-pools should_bypass es t in
      (
        a ++ b,
        q ∙ ap (Pool.run should_bypass b) p ∙ sym (Pool_run-append should_bypass a b Pool.start),
      )

  -- A stream that no handler runs for has no channel.
  Quiet-runs : (id : ℕ) (ts : List (ℕ × Task)) → Quiet id ts → runs id ts ≡ false
  Quiet-runs id [] q = refl
  Quiet-runs id ((j, t) ∷ ts) (n, q) = let h = Quiet-runs id ts q in ground (arith, n, h)

  Reached-lookup :
      (id : ℕ) (t : Tunnel)
      → Reached t
      → Quiet id t.pool.running
      → lookup id t.pool.conn.registry.inner ≡ none
  Reached-lookup id t (pes, p) q = elim (Option-cases (lookup id t.pool.conn.registry.inner)) [
    | inl n ↦ n
    | inr (tx, e) ↦
        let r : runs id t.pool.running ≡ true =
          subst (λ p. runs id p.running ≡ true) (sym p)
            (run-start-runs should_bypass pes id tx
              (ap (λ p. lookup id p.conn.registry.inner) (sym p) ∙ e)) in
        absurd (let n = Quiet-runs id t.pool.running q in ground (arith, r, n))
  ]

  -- A frame that the client takes brings nothing to a stream without a channel.
  brought-nothing :
      (id j : ℕ) (bytes : Bytes) (o : Option ℕ) (ds : List (Delivery ℕ))
      → Keyed j o
      → (j ≡ id → o ≡ none)
      → payloads_to id (brought o bytes ds) ≡ payloads_to id ds
  brought-nothing id j bytes o ds (inl n) h = rw n refl
  brought-nothing id j bytes o ds (inr e) h = elim (Bool-cases (j == id)) [
    | inl q ↦ absurd (let n : o ≡ none = h (ground arith) in ground (arith, n))
    | inr q ↦ rw (e, q, append-nil) refl
  ]

  dispatch-nothing :
      (id : ℕ) (f : Frame) (c : MuxConn ℕ ℕ)
      → Keys c.registry
      → lookup id c.registry.inner ≡ none
      → payloads_to id (Conn.dispatch (ok f) c).delivered ≡ payloads_to id c.delivered
  unfolding Conn.dispatch
  dispatch-nothing id (data_frame j bytes) c k o = rw (ClientEnd.deliver-delivered j bytes c) (
      brought-nothing id j bytes (lookup j c.registry.inner) c.delivered (k j)
        (λ e. ap (λ i. lookup i c.registry.inner) e ∙ o))
  dispatch-nothing id (open_ack j is_ok) c k o = rw (ClientEnd.resolve-delivered j is_ok c) refl
  dispatch-nothing id (close j) c k o = refl
  dispatch-nothing id (hello t) c k o = refl
  dispatch-nothing id (open_stream j dest) c k o = refl

  down_taken-nothing :
      (id : ℕ) (t : Tunnel)
      → All IsFrame t.server.outbox
      → Flowing t
      → lookup id t.pool.conn.registry.inner ≡ none
      → payloads_to id (take_down should_bypass t).pool.conn.delivered
        ≡ payloads_to id t.pool.conn.delivered
  unfolding take_down Pool.step
  down_taken-nothing id t b v o = elim (Option-cases (get_elem? t.server.outbox t.taken_down)) [
    | inl e ↦ rw (take_down, e) refl
    | inr (f, e) ↦
        let w = All-get_elem? t.server.outbox t.taken_down f e b in
        elim (ClientEnd.taken_cases f t.pool.conn w) [
          | inl q ↦ rw (take_down, e) (ap (λ c. payloads_to id c.delivered) q)
          | inr q ↦
              rw (take_down, e)
                (ap (λ c. payloads_to id c.delivered) q
                  ∙ dispatch-nothing id f t.pool.conn v.down.keys o)
        ]
  ]

  step-payloads_kept :
      (id : ℕ) (e : Event) (t : Tunnel)
      → All IsFrame t.server.outbox
      → Flowing t
      → lookup id t.pool.conn.registry.inner ≡ none
      → payloads_to id (step should_bypass e t).pool.conn.delivered
        ≡ payloads_to id t.pool.conn.delivered
  unfolding step
  step-payloads_kept id e t b v o = elim (Steps.step-down should_bypass e t) [
    | inl q ↦ rw q (down_taken-nothing id t b v o)
    | inr (d, k) ↦ ap (payloads_to id) d
  ]

  step-Quiet :
      (id : ℕ) (e : Event) (t : Tunnel)
      → jobs_of id (e ∷ []) ≡ []
      → Quiet id t.pool.running
      → Quiet id (step should_bypass e t).pool.running
  unfolding step Pool.step
  step-Quiet id (spawned j job) t h q = ((λ e. ground (arith, h)), q)
  step-Quiet id (moves n answer) t h q = advance-Quiet answer id n t.pool.running q
  step-Quiet id (up_taken connected) t h q =
      subst (Quiet id) (sym (ap (λ p. p.running) (take_up-kept connected t).0)) q
  step-Quiet id down_taken t h q = subst (Quiet id) (sym (down_taken-kept should_bypass t).0) q
  step-Quiet id _ t h q = q

  run-Quiet_kept :
      (id : ℕ) (es : List Event) (t : Tunnel)
      → jobs_of id es ≡ []
      → All IsFrame (run should_bypass es t).sent_up
      → All IsFrame (run should_bypass es t).server.outbox
      → Reached t
      → Flowing t
      → Quiet id t.pool.running
      → payloads_to id (run should_bypass es t).pool.conn.delivered
        ≡ payloads_to id t.pool.conn.delivered
  unfolding run
  run-Quiet_kept id [] t h a b r v q = refl
  run-Quiet_kept id (e ∷ es) t h a b r v q =
      let (h0, hs) = jobs_of-cons-nil id e es h in
      let (ga, gb) = run-Grows should_bypass (e ∷ es) t in
      let a0 = All-Grown _ _ ga a in
      let b0 = All-Grown _ _ gb b in
      run-Quiet_kept id es (step should_bypass e t) hs a b (run-Reached (e ∷ []) t r)
        (step-Flowing should_bypass e t a0 b0 v) (step-Quiet id e t h0 q)
      ∙ step-payloads_kept id e t b0 v (Reached-lookup id t r q)

  -- From a point of any run at which no handler of a stream runs, and as long as none is spawned for it
  -- again, nothing more is handed to a handler of that stream, whatever the server still sends for it,
  -- if the handlers have ids of a u32 and targets in UTF-8.
  pub run-answer_dropped :
      (id : ℕ) (es₀ es : List Event)
      → jobs_of id es ≡ []
      → Quiet id (run should_bypass es₀ start).pool.running
      → IsTyped es₀
      → IsTyped es
      → payloads_to id (run should_bypass es (run should_bypass es₀ start)).pool.conn.delivered
        ≡ payloads_to id (run should_bypass es₀ start).pool.conn.delivered
  run-answer_dropped id es₀ es h q w₀ w =
      let t = run should_bypass es₀ start in
      let (a, b) = run-later_frames should_bypass es₀ es w₀ w in
      let (a₀, b₀) = run-start-frames should_bypass es₀ w₀ in
      run-Quiet_kept id es t h a b (run-Reached es₀ start start-Reached)
        (run-Flowing should_bypass es₀ start a₀ b₀ (start-Flowing should_bypass)) q
