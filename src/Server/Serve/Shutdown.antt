-- ===== src/Server/Serve/Shutdown.antt =====
-- What the shutdown channel stops.
use echo_proxy_core.Base.{
  ℕ, suc, ◌+◌, ◌≤◌, ◌≡◌, refl, ◌∙◌, Bool, true, false, not, ◌&&◌, List, [], ◌∷◌, arith, ◌==◌,
  ==_iff, length,
}
use echo_proxy_core.Server.Serve.{
  Event, accepted, accept_failed, sent, sender_dropped, loop_hears, task_listens, task_hears,
  task_ends, Service, mem_id, without_id, start, take_signal, end_loop, step, run,
}

abbrev pub hear_all : {E : Type 0} → List ℕ → List (Event E)
hear_all [] = []
hear_all (i ∷ is) = task_hears i ∷ hear_all is

abbrev pub count : Bool → ℕ
count true = 1
count false = 0

-- How many messages are sent.
abbrev pub sends : {E : Type 0} → List (Event E) → ℕ
sends [] = 0
sends (sent ∷ es) = suc (sends es)
sends (_ ∷ es) = sends es

abbrev pub drops : {E : Type 0} → List (Event E) → Bool
drops [] = false
drops (sender_dropped ∷ es) = true
drops (_ ∷ es) = drops es

abbrev pub fails : {E : Type 0} → List (Event E) → Bool
fails [] = false
fails (accept_failed e ∷ es) = true
fails (_ ∷ es) = fails es

mem_id-without_id :
    (i j : ℕ) (xs : List ℕ) → mem_id j (without_id i xs) ≡ (mem_id j xs && not (i == j))
mem_id-without_id i j [] = refl
mem_id-without_id i j (x ∷ xs) = ground (arith, mem_id-without_id i j xs)

mem_id-nil : (xs : List ℕ) → ((j : ℕ) → mem_id j xs ≡ false) → xs ≡ []
mem_id-nil [] h = refl
mem_id-nil (x ∷ xs) h = absurd (ground (arith, h x))

module _ {E : Type 0} where
  -- The tasks that the channel has stopped: those of connections, and the loop.
  abbrev pub halted : Service E → ℕ
  halted s = length s.stopped + count (not s.is_serving)

  step-halted :
      (e : Event E) (es : List (Event E)) (s : Service E)
      → s.closed ≡ false
      → drops (e ∷ es) ≡ false
      → fails (e ∷ es) ≡ false
      → halted (step e s) + count (step e s).message + sends es
        ≤ halted s + count s.message + sends (e ∷ es)
  unfolding step take_signal end_loop
  step-halted accepted es s c d f = ground arith
  step-halted (accept_failed e) es s c d f = absurd cc
  step-halted sent es s c d f = ground arith
  step-halted sender_dropped es s c d f = absurd cc
  step-halted loop_hears es s c d f = ground arith
  step-halted (task_listens i) es s c d f = ground arith
  step-halted (task_hears i) es s c d f = ground arith
  step-halted (task_ends i) es s c d f = ground arith

  step-open :
      (e : Event E) (es : List (Event E)) (s : Service E)
      → s.closed ≡ false
      → drops (e ∷ es) ≡ false
      → (step e s).closed ≡ false
  unfolding step take_signal end_loop
  step-open accepted es s c d = ground arith
  step-open (accept_failed e) es s c d = ground arith
  step-open sent es s c d = ground arith
  step-open sender_dropped es s c d = absurd cc
  step-open loop_hears es s c d = ground arith
  step-open (task_listens i) es s c d = ground arith
  step-open (task_hears i) es s c d = ground arith
  step-open (task_ends i) es s c d = ground arith

  drops-tail : (e : Event E) (es : List (Event E)) → drops (e ∷ es) ≡ false → drops es ≡ false
  drops-tail sender_dropped es d = absurd cc
  drops-tail _ es d = d

  fails-tail : (e : Event E) (es : List (Event E)) → fails (e ∷ es) ≡ false → fails es ≡ false
  fails-tail (accept_failed e) es d = absurd cc
  fails-tail _ es d = d

  run-halted :
      (es : List (Event E)) (s : Service E)
      → s.closed ≡ false
      → drops es ≡ false
      → fails es ≡ false
      → halted (run es s) ≤ halted s + count s.message + sends es
  unfolding run
  run-halted [] s c d f = omega arith
  run-halted (e ∷ es) s c d f =
      let k =
        run-halted es (step e s) (step-open e es s c d) (drops-tail e es d) (fails-tail e es f) in
      omega (arith, k, step-halted e es s c d f)

  -- While no sender is dropped and no accept fails, the loop and the tasks of connections together end
  -- by the shutdown at most as often as it was sent: one message does not stop them all.
  pub run-start-halted_le :
      (es : List (Event E))
      → drops es ≡ false
      → fails es ≡ false
      → length (run es start).stopped + count (not (run es start).is_serving) ≤ sends es
  unfolding start
  run-start-halted_le es d f = omega (arith, run-halted es start refl d f)

  hears-closed :
      (i j : ℕ) (s : Service E)
      → s.closed ≡ true
      → ((step (task_hears i) s).closed ≡ true)
        × ((step (task_hears i) s).is_serving ≡ s.is_serving)
        × (mem_id j (step (task_hears i) s).listening ≡ (mem_id j s.listening && not (i == j)))
        × (mem_id j (step (task_hears i) s).live
            ≡ (mem_id j s.live && not (i == j && mem_id i s.listening)))
  unfolding step take_signal
  hears-closed i j s c = (
    ground arith,
    ground arith,
    grind (arith, mem_id-without_id i j s.listening, ==_iff i j),
    grind (arith, mem_id-without_id i j s.live, ==_iff i j),
  )

  run-hear_all :
      (is : List ℕ) (j : ℕ) (s : Service E)
      → s.closed ≡ true
      → ((run (hear_all is) s).is_serving ≡ s.is_serving)
        × (mem_id j (run (hear_all is) s).listening ≡ (mem_id j s.listening && not (mem_id j is)))
        × (mem_id j (run (hear_all is) s).live
            ≡ (mem_id j s.live && not (mem_id j is && mem_id j s.listening)))
  unfolding run
  run-hear_all [] j s c = (refl, ground arith, ground arith)
  run-hear_all (i ∷ is) j s c =
      let (a, b, d, l) = hears-closed i j s c in
      let (p, q, m) = run-hear_all is j (step (task_hears i) s) a in
      (p ∙ b, ground (arith, q, d), grind (arith, m, d, l, ==_iff i j))

  -- The loop hears the shutdown, and then each task that listens.
  abbrev pub all_hear : Service E → Service E
  all_hear s = run (loop_hears ∷ hear_all s.listening) s

  loop-closed :
      (s : Service E)
      → s.closed ≡ true
      → ((step loop_hears s).closed ≡ true)
        × ((step loop_hears s).is_serving ≡ false)
        × ((step loop_hears s).live ≡ s.live)
        × ((step loop_hears s).listening ≡ s.listening)
  unfolding step take_signal end_loop
  loop-closed s c = (ground arith, ground arith, ground arith, ground arith)

  all_hear-drained :
      (s : Service E) (j : ℕ)
      → s.closed ≡ true
      → ((all_hear s).listening ≡ [])
        × ((all_hear s).is_serving ≡ false)
        × (mem_id j (all_hear s).live ≡ (mem_id j s.live && not (mem_id j s.listening)))
  unfolding run
  all_hear-drained s j c =
      let (a, b, d, l) = loop-closed s c in
      let r = λ (i : ℕ). run-hear_all s.listening i (step loop_hears s) a in
      (mem_id-nil _ (λ i. ground (arith, (r i).1, l)), (r 0).0 ∙ b, ground (arith, (r j).2, d, l))

  step-closed : (e : Event E) (s : Service E) → s.closed ≡ true → (step e s).closed ≡ true
  unfolding step take_signal end_loop
  step-closed accepted s c = ground arith
  step-closed (accept_failed e) s c = ground arith
  step-closed sent s c = ground arith
  step-closed sender_dropped s c = refl
  step-closed loop_hears s c = ground arith
  step-closed (task_listens i) s c = ground arith
  step-closed (task_hears i) s c = ground arith
  step-closed (task_ends i) s c = ground arith

  run-closed : (es : List (Event E)) (s : Service E) → s.closed ≡ true → (run es s).closed ≡ true
  unfolding run
  run-closed [] s c = c
  run-closed (e ∷ es) s c = run-closed es (step e s) (step-closed e s c)

  -- A run in whose midst the last sender is dropped.
  abbrev pub dropped_in : List (Event E) → List (Event E) → Service E
  dropped_in es fs = run fs (step sender_dropped (run es start))

  -- Once the last sender is dropped, at any later point, the loop and each task that is past its
  -- handshake can hear the shutdown; when they have, the loop has ended, no task listens, and of the
  -- connections' tasks exactly those are left that were still in their handshake.
  pub run-start-drained :
      (es fs : List (Event E)) (j : ℕ)
      → ((all_hear (dropped_in es fs)).listening ≡ [])
        × ((all_hear (dropped_in es fs)).is_serving ≡ false)
        × (mem_id j (all_hear (dropped_in es fs)).live
            ≡ (mem_id j (dropped_in es fs).live && not (mem_id j (dropped_in es fs).listening)))
  unfolding step
  run-start-drained es fs j =
      all_hear-drained (dropped_in es fs) j
        (run-closed fs (step sender_dropped (run es start)) refl)
