-- ===== src/Tunnel/Sent.antt =====
-- What is sent for a stream in a whole run, against the data of the two peers.
use echo_proxy_core.Base.{
  ℕ, ◌≡◌, refl, sym, ap, ◌∙◌, subst, ◌≢◌, inl, inr, Bool, none, List, [], ◌∷◌, ◌++◌, arith, Bytes,
  ◌==◌, if◌then◌else◌, Bool-cases, Option-cases, get_elem?,
}
use echo_proxy_core.Frame.{Frame}
use echo_proxy_core.Client.Task.{Task, Call, Reply}
use echo_proxy_core.Client.Handlers.Protocol.{idle, Settles, handlers-Settle}
use echo_proxy_core.Client.Handlers.Uploads.{Upload, Carries, nothing_sent, data_of, handlers-Carry}
use echo_proxy_core.Client.Pool
use echo_proxy_core.Client.Pool.{Pool, Job, local, resilient, socks, handler, call_of, advance}
use echo_proxy_core.Client.Pool.Owned.{Owns, Owned, At-Owns, Quiet, advance-Owned, advance-Quiet}
use echo_proxy_core.Tunnel.{
  Tunnel, Event, spawned, moves, up_taken, down_taken, is_reading, put_on_wire, take_up, take_down,
  step,
}
use echo_proxy_core.Tunnel.Flow.{payloads_of, payloads_of-append}
use echo_proxy_core.Tunnel.Uploads.{Sending, silent_call, advance-Sending}

-- The handlers spawned with the id, and the data that one of them has to send.
abbrev pub jobs_of : ℕ → List Event → List Job
jobs_of id [] = []
jobs_of id (spawned j job ∷ es) = (if j == id then job ∷ [] else []) ++ jobs_of id es
jobs_of id (_ ∷ es) = jobs_of id es

abbrev pub data_of_job : Job → List Bytes
data_of_job (local request reads) = data_of request reads
data_of_job (resilient request reads) = data_of request reads
data_of_job (socks target reads) = reads

-- Before the stream's handler is spawned, and after.
pub record Before (id : ℕ) (ts : List (ℕ × Task)) (sent : List Frame) : Type 0 where
  pub owned : Owned ts
  pub quiet : Quiet id ts
  pub nothing : payloads_of id sent ≡ []

pub record After (id : ℕ) (expected : List Bytes) (ts : List (ℕ × Task)) (sent : List Frame)
    : Type 0 where
  pub owned : Owned ts
  pub sender : (s : Upload) × (s.sent ≡ payloads_of id sent) × Sending id expected s ts

abbrev pub IsBefore : ℕ → Tunnel → Type 0
IsBefore id t = Before id t.pool.running t.sent_up

abbrev pub IsAfter : ℕ → List Bytes → Tunnel → Type 0
IsAfter id expected t = After id expected t.pool.running t.sent_up

-- What the reader of the server takes changes neither the handlers nor what they sent.
pub take_up-kept :
    (connected : Bool) (t : Tunnel)
    → ((take_up connected t).pool ≡ t.pool) × ((take_up connected t).sent_up ≡ t.sent_up)
unfolding take_up
take_up-kept connected t = elim (Option-cases (get_elem? t.sent_up t.taken_up)) [
  | inl e ↦ rw (take_up, e) (refl, refl)
  | inr (f, e) ↦ elim (Bool-cases (is_reading t.server.reader)) [
    | inl r ↦ rw (take_up, e, r) (refl, refl)
    | inr r ↦ rw (take_up, e, r) (refl, refl)
  ]
]

module _ (answer : (c : Call) → Reply c) (id : ℕ) where
  moves-Before :
      (n : ℕ) (ts : List (ℕ × Task)) (sent : List Frame)
      → Before id ts sent
      → Before id (advance n answer ts) (sent ++ put_on_wire answer (call_of n ts))
  moves-Before n ts sent v = record {
    owned = advance-Owned answer n ts v.owned;
    quiet = advance-Quiet answer id n ts v.quiet;
    nothing =
        payloads_of-append id sent (put_on_wire answer (call_of n ts))
        ∙ rw (v.nothing) (silent_call answer id n ts v.owned v.quiet);
  }

  moves-After :
      (expected : List Bytes) (n : ℕ) (ts : List (ℕ × Task)) (sent : List Frame)
      → After id expected ts sent
      → After id expected (advance n answer ts) (sent ++ put_on_wire answer (call_of n ts))
  moves-After expected n ts sent v =
      let (s, e, l) = v.sender in
      let (s', g, l') = advance-Sending answer id expected s n ts v.owned l in
      record {
        owned = advance-Owned answer n ts v.owned;
        sender = (
          s',
          g
              ∙ ap (λ xs. xs ++ payloads_of id (put_on_wire answer (call_of n ts))) e
              ∙ sym (payloads_of-append id sent (put_on_wire answer (call_of n ts))),
          l',
        );
      }

module _ (should_bypass : Bytes → ℕ → Bool) where
  handler-Carries : (id : ℕ) (job : Job) → Carries (data_of_job job) (handler should_bypass id job)
  unfolding handler
  handler-Carries id (local request reads) = (handlers-Carry should_bypass id reads request none).0
  handler-Carries id (resilient request reads) =
      (handlers-Carry should_bypass id reads request none).1
  handler-Carries id (socks target reads) = (handlers-Carry should_bypass id reads none target).2

  handler-Settles : (id : ℕ) (job : Job) → Settles id (handler should_bypass id job)
  unfolding handler
  handler-Settles id (local request reads) = (handlers-Settle should_bypass id reads request none).0
  handler-Settles id (resilient request reads) =
      (handlers-Settle should_bypass id reads request none).1
  handler-Settles id (socks target reads) = (handlers-Settle should_bypass id reads none target).2

  handler-Owns : (id : ℕ) (job : Job) → Owns id (handler should_bypass id job)
  handler-Owns id job = At-Owns id idle (handler should_bypass id job) (handler-Settles id job)

  pub down_taken-kept :
      (t : Tunnel)
      → ((take_down should_bypass t).pool.running ≡ t.pool.running)
        × ((take_down should_bypass t).sent_up ≡ t.sent_up)
  unfolding take_down Pool.step
  down_taken-kept t = elim (Option-cases (get_elem? t.server.outbox t.taken_down)) [
    | inl e ↦ rw (take_down, e) (refl, refl)
    | inr (f, e) ↦ rw (take_down, e) (refl, refl)
  ]

  -- Another stream's handler is spawned.
  spawned-Sending :
      (id j : ℕ) (expected : List Bytes) (s : Upload) (t : Task) (ts : List (ℕ × Task))
      → j ≢ id
      → Sending id expected s ts
      → Sending id expected s ((j, t) ∷ ts)
  spawned-Sending id j expected s t ts n (inl l) = inl (inr (n, l))
  spawned-Sending id j expected s t ts n (inr (q, c)) = inr ((n, q), c)

  pub step-After :
      (id : ℕ) (expected : List Bytes) (e : Event) (t : Tunnel)
      → jobs_of id (e ∷ []) ≡ []
      → IsAfter id expected t
      → IsAfter id expected (step should_bypass e t)
  unfolding step Pool.step
  step-After id expected (spawned j job) t h v =
      let (s, e, l) = v.sender in
      let n : j ≢ id = λ q. ground (arith, h) in
      record {
        owned = (handler-Owns j job, v.owned);
        sender = (s, e, spawned-Sending id j expected s _ t.pool.running n l);
      }
  step-After id expected (moves n answer) t h v =
      moves-After answer id expected n t.pool.running t.sent_up v
  step-After id expected (up_taken connected) t h v =
      let (p, q) = take_up-kept connected t in
      subst (λ ts. After id expected ts (take_up connected t).sent_up) (sym (ap (λ p. p.running) p))
        (subst (After id expected t.pool.running) (sym q) v)
  step-After id expected down_taken t h v =
      let (p, q) = down_taken-kept t in
      subst (λ ts. After id expected ts (take_down should_bypass t).sent_up) (sym p)
        (subst (After id expected t.pool.running) (sym q) v)
  step-After id expected _ t h v = v

  pub step-Before :
      (id : ℕ) (e : Event) (t : Tunnel)
      → jobs_of id (e ∷ []) ≡ []
      → IsBefore id t
      → IsBefore id (step should_bypass e t)
  unfolding step Pool.step
  step-Before id (spawned j job) t h v =
      let n : j ≢ id = λ q. ground (arith, h) in
      record { owned = (handler-Owns j job, v.owned); quiet = (n, v.quiet); nothing = v.nothing }
  step-Before id (moves n answer) t h v = moves-Before answer id n t.pool.running t.sent_up v
  step-Before id (up_taken connected) t h v =
      let (p, q) = take_up-kept connected t in
      subst (λ ts. Before id ts (take_up connected t).sent_up) (sym (ap (λ p. p.running) p))
        (subst (Before id t.pool.running) (sym q) v)
  step-Before id down_taken t h v =
      let (p, q) = down_taken-kept t in
      subst (λ ts. Before id ts (take_down should_bypass t).sent_up) (sym p)
        (subst (Before id t.pool.running) (sym q) v)
  step-Before id _ t h v = v

  -- The stream's own handler is spawned.
  pub spawned-After :
      (id : ℕ) (job : Job) (t : Tunnel)
      → IsBefore id t
      → IsAfter id (data_of_job job) (step should_bypass (spawned id job) t)
  unfolding step Pool.step
  spawned-After id job t v = record {
    owned = (handler-Owns id job, v.owned);
    sender = (nothing_sent, sym v.nothing, inl (inl (refl, handler-Carries id job, v.quiet)));
  }
