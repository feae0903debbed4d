-- ===== src/Tunnel/EndToEnd.antt =====
-- From the local peer's data to what the server hands to TCP, and back.
use echo_proxy_core.Base.{
  ℕ, ◌≡◌, refl, sym, ap, ◌∙◌, subst, ◌⊎◌, inl, inr, Bool, List, [], ◌∷◌, ◌++◌, arith, Bytes, ◌==◌,
  if◌then◌else◌, ==_iff, Bool-cases,
}
use mathlib.Core.List.{Sublist, append_assoc, append-nil, sublist-append_left}
use mathlib.Core.List
use echo_proxy_core.Client.Task.{Task}
use echo_proxy_core.Client.Handlers.Uploads.{Upload}
use echo_proxy_core.Client.Pool
use echo_proxy_core.Client.Pool.{Job}
use echo_proxy_core.Client.Pool.Owned.{Live, FromUpload-prefix}
use echo_proxy_core.Tunnel.{Tunnel, Event, spawned, step, run, start}
use echo_proxy_core.Tunnel.Flow.{payloads_of, payloads_to}
use echo_proxy_core.Tunnel.Uploads.{Sending}
use echo_proxy_core.Tunnel.Sent.{
  jobs_of, data_of_job, IsBefore, IsAfter, step-After, step-Before, spawned-After,
}
use echo_proxy_core.Tunnel.Downloads.{reads_of, run-start-reads}
use echo_proxy_core.Tunnel.Integrity.{run-start-payloads_sound}
use echo_proxy_core.Tunnel.Typed.{IsTyped, run-start-frames}

jobs_of-cons :
    (id : ℕ) (e : Event) (es : List Event)
    → jobs_of id (e ∷ es) ≡ jobs_of id (e ∷ []) ++ jobs_of id es
jobs_of-cons id (spawned j job) es =
    ap (λ l. l ++ jobs_of id es) (sym (append-nil (if j == id then job ∷ [] else [])))
jobs_of-cons id _ es = refl

event_jobs :
    (id : ℕ) (e : Event) → (jobs_of id (e ∷ []) ≡ []) ⊎ ((job : Job) × (e ≡ spawned id job))
event_jobs id (spawned j job) = elim (Bool-cases (j == id)) [
  | inl e ↦ inr (job, ap (λ i. spawned i job) ((==_iff j id).0 e))
  | inr e ↦ inl (ground (arith, e))
]
event_jobs id _ = inl refl

pub jobs_of-cons-nil :
    (id : ℕ) (e : Event) (es : List Event)
    → jobs_of id (e ∷ es) ≡ []
    → (jobs_of id (e ∷ []) ≡ []) × (jobs_of id es ≡ [])
jobs_of-cons-nil id (spawned j job) es h = ground arith
jobs_of-cons-nil id _ es h = (refl, h)

jobs_of-spawned :
    (id : ℕ) (job job' : Job) (es : List Event)
    → jobs_of id (spawned id job' ∷ es) ≡ job ∷ []
    → (job' ≡ job) × (jobs_of id es ≡ [])
jobs_of-spawned id job job' es h = ground arith

-- What a live handler sent is a first part of its data.
Live-prefix :
    (id : ℕ) (expected : List Bytes) (s : Upload) (ts : List (ℕ × Task))
    → Live id expected s ts
    → (rest : List Bytes) × (expected ≡ s.sent ++ rest)
Live-prefix id expected s [] l = elim l [ ]
Live-prefix id expected s ((j, t) ∷ ts) (inl (e, u, q)) = FromUpload-prefix expected s t u
Live-prefix id expected s ((j, t) ∷ ts) (inr (n, l)) = Live-prefix id expected s ts l

Sending-prefix :
    (id : ℕ) (expected : List Bytes) (s : Upload) (ts : List (ℕ × Task))
    → Sending id expected s ts
    → (rest : List Bytes) × (expected ≡ s.sent ++ rest)
Sending-prefix id expected s ts (inl l) = Live-prefix id expected s ts l
Sending-prefix id expected s ts (inr (q, c)) = c.0

module _ (should_bypass : Bytes → ℕ → Bool) where
  run-After :
      (id : ℕ) (expected : List Bytes) (es : List Event) (t : Tunnel)
      → jobs_of id es ≡ []
      → IsAfter id expected t
      → IsAfter id expected (run should_bypass es t)
  unfolding run
  run-After id expected [] t h v = v
  run-After id expected (e ∷ es) t h v =
      let (a, b) = jobs_of-cons-nil id e es h in
      run-After id expected es (step should_bypass e t) b
        (step-After should_bypass id expected e t a v)

  run-Before :
      (id : ℕ) (job : Job) (es : List Event) (t : Tunnel)
      → jobs_of id es ≡ job ∷ []
      → IsBefore id t
      → IsAfter id (data_of_job job) (run should_bypass es t)
  unfolding run
  run-Before id job [] t h v = absurd cc
  run-Before id job (e ∷ es) t h v = elim (event_jobs id e) [
    | inl n ↦
        run-Before id job es (step should_bypass e t)
          (sym (ap (λ l. l ++ jobs_of id es) n) ∙ sym (jobs_of-cons id e es) ∙ h)
          (step-Before should_bypass id e t n v)
    | inr (job', q) ↦
        (let (a, b) = jobs_of-spawned id job job' es (ap (λ e. jobs_of id (e ∷ es)) (sym q) ∙ h) in
          run-After id (data_of_job job) es (step should_bypass e t) b (
            subst (λ e. IsAfter id (data_of_job job) (step should_bypass e t)) (sym q)
              (subst (λ j. IsAfter id (data_of_job j) (step should_bypass (spawned id job') t)) a
                (spawned-After should_bypass id job' t v))))
  ]

  start-IsBefore : (id : ℕ) → IsBefore id start
  unfolding start Pool.start
  start-IsBefore id = record { owned = tt; quiet = tt; nothing = refl }

  -- In every run in which one handler is spawned with an id, the payloads of the DATA frames sent for
  -- that id are a first part of the data of that handler's peer.
  pub run-start-sent :
      (id : ℕ) (job : Job) (es : List Event)
      → jobs_of id es ≡ job ∷ []
      → (rest : List Bytes) × (data_of_job job
          ≡ payloads_of id (run should_bypass es start).sent_up ++ rest)
  run-start-sent id job es h =
      let v = run-Before id job es start h (start-IsBefore id) in
      let (s, e, l) = v.sender in
      let (rest, p) =
        Sending-prefix id (data_of_job job) s (run should_bypass es start).pool.running l in
      (rest, p ∙ ap (λ l. l ++ rest) e)

  -- In every run of the handlers of any jobs, with ids of a u32 and targets in UTF-8, the connection and
  -- the server's session, in any interleaving, in which one handler is spawned with an id, what the
  -- server hands to the TCP side of that stream is, in order, some of the data of the handler's local
  -- peer, and what the client hands to the handler is, in order, some of what the server's TCP peer of
  -- the stream sent.
  pub run-start-end_to_end :
      (id : ℕ) (job : Job) (es : List Event)
      → jobs_of id es ≡ job ∷ []
      → IsTyped es
      → Sublist (payloads_to id (run should_bypass es start).server.delivered) (data_of_job job)
        × Sublist (payloads_to id (run should_bypass es start).pool.conn.delivered) (reads_of id es)
  run-start-end_to_end id job es h w =
      let (a, b) = run-start-frames should_bypass es w in
      let (u, d) = run-start-payloads_sound should_bypass es id a b in
      let (rest, p) = run-start-sent id job es h in
      (
        List.Sublist.trans u
            (rw p (sublist-append_left (payloads_of id (run should_bypass es start).sent_up) rest)),
        List.Sublist.trans d (run-start-reads should_bypass id es),
      )
