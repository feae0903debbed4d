-- ===== src/Tunnel/Complete.antt =====
-- While a stream has its channel, nothing that was sent for it is lost.
use echo_proxy_core.Base.{
  ℕ, ◌≤◌, ◌≡◌, sym, subst, inl, inr, Bool, List, [], ◌∷◌, ◌++◌, Bytes, length, take, drop, All,
}
use echo_proxy_core.Frame.{IsFrame}
use echo_proxy_core.Tunnel.{Tunnel, Event, step, run, start}
use echo_proxy_core.Tunnel.Flow.{payloads_to, payloads_of}
use echo_proxy_core.Tunnel.Exact.{Exact, Exact-start}
use echo_proxy_core.Tunnel.ServerEnd.{Grown}
use echo_proxy_core.Tunnel.Flowing.{Flowing, step-Flowing}
use echo_proxy_core.Tunnel.Growth.{All-Grown, run-Grows, step-Grows}
use echo_proxy_core.Tunnel.Integrity.{run-Flowing, start-Flowing}
use echo_proxy_core.Tunnel.Steps.{
  Way, up, down, delivered_on, sent_on, taken_on, IsOpen, IsExact, Exact-kept, up_taken-Exact,
  down_taken-Exact, step-up, step-down,
}
use echo_proxy_core.Tunnel.Typed.{IsTyped, run-later_frames}

module _ (should_bypass : Bytes → ℕ → Bool) where
  abbrev Proper : Tunnel → Type 0
  Proper t = All IsFrame t.sent_up × All IsFrame t.server.outbox

  quiet-Exact :
      (way : Way) (id from : ℕ) (before : List Bytes) (e : Event) (t : Tunnel)
      → Grown (sent_on way t) (sent_on way (step should_bypass e t))
      → (delivered_on way (step should_bypass e t) ≡ delivered_on way t)
        × (taken_on way (step should_bypass e t) ≡ taken_on way t)
      → IsExact way id before from t
      → IsExact way id before from (step should_bypass e t)
  quiet-Exact way id from before e t g (d, k) x =
      subst
        (λ n.
          Exact id before from (delivered_on way (step should_bypass e t))
            (sent_on way (step should_bypass e t)) n)
        (sym k) (Exact-kept id from before _ _ _ _ (taken_on way t) d g x)

  step-Exact :
      (way : Way) (id from : ℕ) (before : List Bytes) (e : Event) (t : Tunnel)
      → Proper t
      → Flowing t
      → IsOpen way id t
      → IsExact way id before from t
      → IsExact way id before from (step should_bypass e t)
  unfolding step
  step-Exact up id from before e t (a, b) v o x = elim (step-up should_bypass e t) [
    | inl (connected, q) ↦
        subst (λ e. IsExact up id before from (step should_bypass e t)) (sym q)
          (up_taken-Exact id from before connected t a v o x)
    | inr k ↦ quiet-Exact up id from before e t (step-Grows should_bypass e t).0 k x
  ]
  step-Exact down id from before e t (a, b) v o x = elim (step-down should_bypass e t) [
    | inl q ↦
        subst (λ e. IsExact down id before from (step should_bypass e t)) (sym q)
          (down_taken-Exact should_bypass id from before t b v o x)
    | inr k ↦ quiet-Exact down id from before e t (step-Grows should_bypass e t).1 k x
  ]

  -- The stream has its channel before each of the events.
  abbrev pub StaysOpen : Way → ℕ → List Event → Tunnel → Type 0
  StaysOpen way id [] t = Unit
  StaysOpen way id (e ∷ es) t = IsOpen way id t × StaysOpen way id es (step should_bypass e t)

  run-Exact :
      (way : Way) (id from : ℕ) (before : List Bytes) (es : List Event) (t : Tunnel)
      → Proper (run should_bypass es t)
      → Flowing t
      → StaysOpen way id es t
      → IsExact way id before from t
      → IsExact way id before from (run should_bypass es t)
  unfolding run
  run-Exact way id from before [] t p v o x = x
  run-Exact way id from before (e ∷ es) t (a, b) v (o, os) x =
      let (g, h) = run-Grows should_bypass (e ∷ es) t in
      let p : Proper t = (All-Grown _ _ g a, All-Grown _ _ h b) in
      run-Exact way id from before es (step should_bypass e t) (a, b)
        (step-Flowing should_bypass e t p.0 p.1 v) os (step-Exact way id from before e t p v o x)

  taken_on_le : (way : Way) (t : Tunnel) → Flowing t → taken_on way t ≤ length (sent_on way t)
  taken_on_le up t v = (v.up.flows 0).taken
  taken_on_le down t v = (v.down.flows 0).taken

  -- The same of frames of any kind, as long as they fit the frame format.
  run-payloads_complete :
      (way : Way) (id : ℕ) (es₀ es : List Event)
      → All IsFrame (run should_bypass es (run should_bypass es₀ start)).sent_up
      → All IsFrame (run should_bypass es (run should_bypass es₀ start)).server.outbox
      → StaysOpen way id es (run should_bypass es₀ start)
      → payloads_to id (delivered_on way (run should_bypass es (run should_bypass es₀ start)))
        ≡ payloads_to id (delivered_on way (run should_bypass es₀ start))
          ++ payloads_of id (
              drop (taken_on way (run should_bypass es₀ start)) (
                take
                  (taken_on way (run should_bypass es (run should_bypass es₀ start)))
                  (sent_on way (run should_bypass es (run should_bypass es₀ start)))))
  run-payloads_complete way id es₀ es a b o =
      let t = run should_bypass es₀ start in
      let (g, h) = run-Grows should_bypass es t in
      let v =
        run-Flowing should_bypass es₀ start (All-Grown _ _ g a) (All-Grown _ _ h b)
          (start-Flowing should_bypass) in
      (run-Exact way id (taken_on way t) (payloads_to id (delivered_on way t)) es t (a, b) v o
        (Exact-start id (delivered_on way t) (sent_on way t) (taken_on way t)
          (taken_on_le way t v))).exact

  -- From any point of any run whose handlers have ids of a u32 and targets in UTF-8, as long as the
  -- receiving end has the channel of a stream (and, on the client, its reader runs), what it hands to
  -- the channel is exactly, one after another, the payloads of all the DATA frames for the stream among
  -- the frames that it takes: nothing is lost in either direction.
  pub run-all_arrive :
      (way : Way) (id : ℕ) (es₀ es : List Event)
      → IsTyped es₀
      → IsTyped es
      → StaysOpen way id es (run should_bypass es₀ start)
      → payloads_to id (delivered_on way (run should_bypass es (run should_bypass es₀ start)))
        ≡ payloads_to id (delivered_on way (run should_bypass es₀ start))
          ++ payloads_of id (
              drop (taken_on way (run should_bypass es₀ start)) (
                take
                  (taken_on way (run should_bypass es (run should_bypass es₀ start)))
                  (sent_on way (run should_bypass es (run should_bypass es₀ start)))))
  run-all_arrive way id es₀ es w₀ w o =
      let (a, b) = run-later_frames should_bypass es₀ es w₀ w in
      run-payloads_complete way id es₀ es a b o
