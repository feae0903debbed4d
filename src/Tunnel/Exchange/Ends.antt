-- ===== src/Tunnel/Exchange/Ends.antt =====
-- What the whole life of one stream is, and what it leaves behind at both ends.
use echo_proxy_core.Base.{
  ℕ, ◌≡◌, refl, sym, ap, ◌∙◌, true, Option, none, some, List, [], ◌∷◌, ◌++◌, map, arith, Bytes,
  ◌==◌, if◌then◌else◌, length,
}
use mathlib.Core.List.{append_assoc}
use echo_proxy_core.Frame.{Frame, open_stream, data_frame}
use echo_proxy_core.Session
use echo_proxy_core.Session.{Delivery}
use echo_proxy_core.Session.Table.{HashMap, insert, remove, lookup, lookup-insert, lookup-remove}
use echo_proxy_core.Client.Task.{Task, ask, recv_ack}
use echo_proxy_core.Client.Conn.{MuxConn}
use echo_proxy_core.Client.Pool.{Job, local, resilient, socks}
use echo_proxy_core.Server.Session.{MuxSession, without_id}
use echo_proxy_core.Tunnel.{Tunnel, Event, spawned}
use echo_proxy_core.Tunnel.Flow.{payloads_to}
use echo_proxy_core.Tunnel.Sent.{data_of_job}
use echo_proxy_core.Tunnel.Exchange.Opening.{opening, told, relayed}
use echo_proxy_core.Tunnel.Exchange.Data.{
  gets, payloads_to-gets, uploading, downloading, has_got, has_sent, was_told,
}
use echo_proxy_core.Tunnel.Exchange.Closing.{
  closing, client_closed, server_closed, relay_ended, relay_gone,
}
use echo_proxy_core.Tunnel.Exchange.Jobs.{
  target_of, reads_of_job, first_data, first_data-reads, before, behind, rest_of,
}

-- The events of an exchange up to the answer of its handler's OPEN.
abbrev pub until_answer : ℕ → Job → List Event
until_answer id job = (spawned id job ∷ before job) ++ opening

-- A handler opens its stream, sends its peer's data, the target answers, and both end.
abbrev pub exchange : ℕ → Job → List Bytes → List Event
exchange id job answers =
    until_answer id job
    ++ (behind job ++ (uploading (reads_of_job job) ++ (downloading id answers ++ closing id)))

-- What such an exchange leaves behind: the target was dialled, each side has the other's data, and the
-- stream is gone at both ends.
abbrev pub Served :
    ℕ → Job → Bytes → List Bytes → List (ℕ × Task) → MuxConn ℕ ℕ → MuxSession ℕ → Tunnel → Type 0
Served id job target answers ts c s t =
    (payloads_to id t.server.delivered ≡ payloads_to id s.delivered ++ data_of_job job)
    × (payloads_to id t.pool.conn.delivered ≡ payloads_to id c.delivered ++ answers)
    × (t.server.dialled ≡ target ∷ s.dialled)
    × (t.pool.running ≡ ts)
    × (t.server.relays ≡ s.relays)
    × (t.server.leaving ≡ s.leaving)
    × (lookup id t.server.registry.inner ≡ none)
    × (lookup id t.pool.conn.registry.inner ≡ none)
    × (t.taken_up ≡ length t.sent_up)
    × (t.taken_down ≡ length t.server.outbox)

-- For which stream's OPEN_ACK the handler that was spawned last waits.
abbrev pub waits_for : List (ℕ × Task) → Option ℕ
waits_for ((i, ask (recv_ack id timeout) k) ∷ ts) = some id
waits_for _ = none

-- Then the handler waits, the last that the reader has handed to a one-shot is success to its own,
-- which is no longer in the table, and both ends have the stream.
abbrev pub Answered : ℕ → MuxConn ℕ ℕ → Tunnel → Type 0
Answered id c t =
    (waits_for t.pool.running ≡ some id)
    × (t.pool.conn.acked ≡ (id, true) ∷ c.acked)
    × (lookup id t.pool.conn.pending_acks ≡ none)
    × (lookup id t.pool.conn.registry.inner ≡ some id)
    × (lookup id t.server.registry.inner ≡ some id)

-- Where the two ends are after the data, and after the end.
abbrev pub client_open : ℕ → List Bytes → MuxConn ℕ ℕ → MuxConn ℕ ℕ
client_open id answers c = was_told id answers (told id c)

abbrev pub server_open : ℕ → Job → Bytes → List Bytes → MuxSession ℕ → MuxSession ℕ
server_open id job target answers s =
    has_sent id answers
      (has_got id (reads_of_job job) (has_got id (first_data job) (relayed id target s)))

abbrev pub client_after : ℕ → List Bytes → MuxConn ℕ ℕ → MuxConn ℕ ℕ
client_after id answers c = client_closed id (client_closed id (client_open id answers c))

abbrev pub server_after : ℕ → Job → Bytes → List Bytes → MuxSession ℕ → MuxSession ℕ
server_after id job target answers s =
    relay_gone id (relay_ended id (server_closed id (server_open id job target answers s)))

abbrev pub sent_open : ℕ → Job → Bytes → List Frame → List Frame
sent_open id job target sent =
    ((sent ++ open_stream id target ∷ []) ++ map (data_frame id) (first_data job))
    ++ map (data_frame id) (reads_of_job job)

pub own_id : (id : ℕ) → (id == id) ≡ true
own_id id = ground arith

pub lookup-closed :
    (id : ℕ) (r : Session.StreamRegistry ℕ) → lookup id (Session.close id r).inner ≡ none
unfolding Session.close
lookup-closed id r =
    lookup-remove id id r.inner ∙ ap (λ q. if q then none else lookup id r.inner) (own_id id)

pub lookup-registered : (id : ℕ) (m : HashMap ℕ) → lookup id (insert id id m) ≡ some id
lookup-registered id m =
    lookup-insert id id id m ∙ ap (λ q. if q then some id else lookup id m) (own_id id)

pub without_own : (id : ℕ) (xs : List ℕ) → without_id id (id ∷ xs) ≡ xs
unfolding without_id
without_own id xs = ap (λ q. if q then xs else id ∷ without_id id xs) (own_id id)

pub payloads_to-all :
    (id : ℕ) (job : Job) (ds : List (Delivery ℕ))
    → payloads_to id (gets id (reads_of_job job) (gets id (first_data job) ds))
      ≡ payloads_to id ds ++ data_of_job job
payloads_to-all id job ds =
    payloads_to-gets id (reads_of_job job) (gets id (first_data job) ds)
    ∙ ap (λ l. l ++ reads_of_job job) (payloads_to-gets id (first_data job) ds)
    ∙ append_assoc (payloads_to id ds) (first_data job) (reads_of_job job)
    ∙ ap (λ l. payloads_to id ds ++ l) (sym (first_data-reads job))

pub lookup-removed : (id : ℕ) (m : HashMap ℕ) → lookup id (remove id m).1 ≡ none
lookup-removed id m = lookup-remove id id m ∙ ap (λ q. if q then none else lookup id m) (own_id id)

pub waits_for-rest :
    (id : ℕ) (job : Job) (target : Bytes) (ts : List (ℕ × Task))
    → target_of job ≡ some target
    → waits_for ((id, rest_of id job true) ∷ ts) ≡ some id
waits_for-rest id (local (some request) reads) target ts h = refl
waits_for-rest id (resilient (some request) reads) target ts h = refl
waits_for-rest id (socks (some host) reads) target ts h = refl
waits_for-rest id (local none reads) target ts h = absurd cc
waits_for-rest id (resilient none reads) target ts h = absurd cc
waits_for-rest id (socks none reads) target ts h = absurd cc
