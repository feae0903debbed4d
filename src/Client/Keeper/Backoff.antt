-- ===== src/Client/Keeper/Backoff.antt =====
-- How long the keeper waits between its attempts.
use echo_proxy_core.Base.{
  ℕ, zero, suc, ◌*◌, ◌^◌, ◌≤◌, min, ◌≡◌, refl, ap, ◌∙◌, true, none, List, [], ◌∷◌, arith, All,
}
use native.Mathlib.Nat.{pow-suc}
use echo_proxy_core.Client.Keeper.{
  Keeper, Event, no_token, no_mux, no_hello, connected, disconnected, shut_down, start, step, run,
  reconnect_initial_ms, max_backoff,
}

-- The delay after `n` failures in a row: doubled each time, at most thirty seconds.
abbrev pub delay : ℕ → ℕ
delay n = min (500 * 2 ^ n) 30000

delay-suc : (n : ℕ) → min (delay n * 2) max_backoff ≡ delay (suc n)
delay-suc n = rw pow-suc (omega arith)

abbrev pub same_delays : ℕ → ℕ → List ℕ → List ℕ
same_delays zero d ds = ds
same_delays (suc n) d ds = same_delays n d (d ∷ ds)

-- The delays of `n` failures that follow `m` others, latest first.
abbrev pub delays : ℕ → ℕ → List ℕ → List ℕ
delays zero m ds = ds
delays (suc n) m ds = delays n (suc m) (delay m ∷ ds)

module _ {Conn : Type 0} where
  abbrev pub failures : ℕ → List (Event Conn)
  failures zero = []
  failures (suc n) = no_token ∷ failures n

  failures-run :
      (n m : ℕ) (k : Keeper Conn)
      → k.running ≡ true
      → k.shared ≡ none
      → k.backoff ≡ delay m
      → (run (failures n) k).sleeps ≡ delays n m k.sleeps
  unfolding run step
  failures-run zero m k r s b = refl
  failures-run (suc n) m k r s b =
      let slept : (step no_token k).sleeps ≡ delay m ∷ k.sleeps = ground arith in
      failures-run n (suc m) (step no_token k) (ground arith) (ground arith)
        (ground (arith, delay-suc m))
      ∙ ap (delays n (suc m)) slept

  -- A backoff is never shorter than half a second nor longer than thirty seconds, and so is each sleep.
  abbrev pub InBounds : Keeper Conn → Type 0
  InBounds k = (500 ≤ k.backoff) × (k.backoff ≤ 30000) × All (λ d. (500 ≤ d) × (d ≤ 30000)) k.sleeps

  step-InBounds : (e : Event Conn) (k : Keeper Conn) → InBounds k → InBounds (step e k)
  unfolding step
  step-InBounds no_token k v = ground arith
  step-InBounds no_mux k v = ground arith
  step-InBounds no_hello k v = ground arith
  step-InBounds (connected c) k v = ground arith
  step-InBounds disconnected k v = ground arith
  step-InBounds shut_down k v = ground arith

  run-InBounds : (es : List (Event Conn)) (k : Keeper Conn) → InBounds k → InBounds (run es k)
  unfolding run
  run-InBounds [] k v = v
  run-InBounds (e ∷ es) k v = run-InBounds es (step e k) (step-InBounds e k v)

  -- In every run each sleep lasts between half a second and thirty seconds.
  pub run-start-InBounds : (es : List (Event Conn)) → InBounds (run es start)
  unfolding start
  run-start-InBounds es = run-InBounds es start (omega arith)

  -- While the keeper runs, has no connection and its backoff is the first one, `n` refused handshakes in
  -- a row wait for 500, 1000, 2000, ... milliseconds, at most 30000 each: the i-th waits
  -- min (500 * 2 ^ i) 30000.
  pub sleeps-failures :
      (n : ℕ) (k : Keeper Conn)
      → k.running ≡ true
      → k.shared ≡ none
      → k.backoff ≡ reconnect_initial_ms
      → (run (failures n) k).sleeps ≡ delays n 0 k.sleeps
  sleeps-failures n k r s b = failures-run n 0 k r s b

  abbrev pub mux_failures : ℕ → List (Event Conn)
  mux_failures zero = []
  mux_failures (suc n) = no_mux ∷ mux_failures n

  -- Failures to connect to /mux, each after a token was granted, never lengthen the wait: it is 500
  -- milliseconds each time, however many there are.
  pub sleeps-mux_failures :
      (n : ℕ) (k : Keeper Conn)
      → k.running ≡ true
      → k.shared ≡ none
      → (run (mux_failures n) k).sleeps ≡ same_delays n 500 k.sleeps
  unfolding run step
  sleeps-mux_failures zero k r s = refl
  sleeps-mux_failures (suc n) k r s =
      let slept : (step no_mux k).sleeps ≡ 500 ∷ k.sleeps = ground arith in
      sleeps-mux_failures n (step no_mux k) (ground arith) (ground arith)
      ∙ ap (same_delays n 500) slept
