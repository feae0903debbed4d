-- ===== src/Tunnel/Flowing.antt =====
-- Both directions under one event.
use echo_proxy_core.Base.{
  ℕ, zero, suc, ◌≡◌, refl, sym, subst, inl, inr, Bool, true, some, List, [], ◌∷◌, ◌++◌, Bytes,
  Bool-cases, Option-cases, get_elem?, All,
}
use echo_proxy_core.Frame.{Frame, IsFrame}
use echo_proxy_core.Session.{StreamRegistry, Delivery}
use echo_proxy_core.Server.Session
use echo_proxy_core.Server.Session.{MuxSession, Reader, reading, acking, ended}
use echo_proxy_core.Client.Pool
use echo_proxy_core.Client.Pool.{Pool, call_of}
use echo_proxy_core.Tunnel.{
  Tunnel, Event, spawned, moves, up_taken, down_taken, up_ends, down_ends, writer_stops, closes,
  clears_acks, ack_sent, server_writer_ended, tcp_read, tcp_ended, relay_left, is_reading, taking,
  take_up, serve, take_down, step,
}
use echo_proxy_core.Tunnel.Flow.{Flow, Flow-send, Keys}
use echo_proxy_core.Tunnel.ServerEnd.{
  Grown, step-Grown, step-taken, dispatch-Keys, dispatch-Flow, step-delivered, step-Keys, IsOther,
}
use echo_proxy_core.Tunnel.ClientEnd.{
  IsSame, taken-Keys, taken-Flow, ends-IsSame, writer_ended-IsSame, keeper_closed-IsSame,
  acks_cleared-IsSame, perform-IsSame,
}

pub All-get_elem? :
    (xs : List Frame) (k : ℕ) (f : Frame) → get_elem? xs k ≡ some f → All IsFrame xs → IsFrame f
All-get_elem? [] k f h a = absurd cc
All-get_elem? (x ∷ xs) zero f h (a, rest) = let e : x ≡ f = cc in subst IsFrame e a
All-get_elem? (x ∷ xs) (suc k) f h (a, rest) = All-get_elem? xs k f h rest

-- One direction: the frames sent, how many were taken, what the channels got, and the registry.
pub record Direction (ds : List (Delivery ℕ)) (r : StreamRegistry ℕ) (sent : List Frame) (k : ℕ)
    : Type 0 where
  pub flows : (id : ℕ) → Flow id ds sent k
  pub keys : Keys r

Direction-Grown :
    (ds : List (Delivery ℕ)) (r : StreamRegistry ℕ) (sent sent' : List Frame) (k : ℕ)
    → Grown sent sent'
    → Direction ds r sent k
    → Direction ds r sent' k
Direction-Grown ds r sent sent' k (new, p) v = record {
  flows = λ id. subst (λ l. Flow id ds l k) (sym p) (Flow-send id ds sent new k (v.flows id));
  keys = v.keys;
}

Direction-kept :
    (ds ds' : List (Delivery ℕ)) (r r' : StreamRegistry ℕ) (sent : List Frame) (k : ℕ)
    → ds' ≡ ds
    → (Keys r → Keys r')
    → Direction ds r sent k
    → Direction ds' r' sent k
Direction-kept ds ds' r r' sent k p h v = record {
  flows = λ id. subst (λ l. Flow id l sent k) (sym p) (v.flows id);
  keys = h v.keys;
}

abbrev pub Up : Tunnel → Type 0
Up t = Direction t.server.delivered t.server.registry t.sent_up t.taken_up

abbrev pub Down : Tunnel → Type 0
Down t = Direction t.pool.conn.delivered t.pool.conn.registry t.server.outbox t.taken_down

pub record Flowing (t : Tunnel) : Type 0 where
  pub up : Up t
  pub down : Down t

serve-Flowing : (e : Session.Event ℕ) (t : Tunnel) → IsOther e → Flowing t → Flowing (serve e t)
serve-Flowing e t o v = record {
  up =
      Direction-kept t.server.delivered _ t.server.registry _ t.sent_up t.taken_up
        (step-delivered e t.server o) (step-Keys e t.server o) v.up;
  down =
      Direction-Grown t.pool.conn.delivered t.pool.conn.registry t.server.outbox _ t.taken_down
        (step-Grown e t.server) v.down;
}

-- A step of the client's side that takes no frame.
pool-Flowing :
    (p : Pool ℕ ℕ) (new : List Frame) (t : Tunnel)
    → IsSame t.pool.conn p.conn
    → Flowing t
    → Flowing (record t { pool = p; sent_up = t.sent_up ++ new })
pool-Flowing p new t (d, h) v = record {
  up = Direction-Grown t.server.delivered t.server.registry t.sent_up _ t.taken_up (new, refl) v.up;
  down =
      Direction-kept t.pool.conn.delivered _ t.pool.conn.registry _ t.server.outbox t.taken_down d h
        v.down;
}

act-Flowing :
    (p : Pool ℕ ℕ) (t : Tunnel)
    → IsSame t.pool.conn p.conn
    → Flowing t
    → Flowing (record t { pool = p })
act-Flowing p t (d, h) v = record {
  up = v.up;
  down =
      Direction-kept t.pool.conn.delivered _ t.pool.conn.registry _ t.server.outbox t.taken_down d h
        v.down;
}

taking-Flowing :
    (connected : Bool) (f : Frame) (t : Tunnel)
    → t.server.reader ≡ reading
    → get_elem? t.sent_up t.taken_up ≡ some f
    → IsFrame f
    → Flowing t
    → Flowing (taking connected f t)
taking-Flowing connected f t r e w v =
    let p = step-taken f connected t.server r w in
    record {
      up = record {
        flows = λ id.
            subst (λ s. Flow id s.delivered t.sent_up (suc t.taken_up)) (sym p)
              (dispatch-Flow id t.taken_up t.sent_up f connected t.server e v.up.keys
                (v.up.flows id));
        keys = subst (λ s. Keys s.registry) (sym p) (dispatch-Keys f connected t.server v.up.keys);
      };
      down =
          Direction-Grown t.pool.conn.delivered t.pool.conn.registry t.server.outbox _ t.taken_down
            (step-Grown _ t.server) v.down;
    }

pub reading_of : (r : Reader) → is_reading r ≡ true → r ≡ reading
reading_of reading h = refl
reading_of (acking id is_ok) h = absurd cc
reading_of ended h = absurd cc

up_taken-Flowing :
    (connected : Bool) (t : Tunnel)
    → All IsFrame t.sent_up
    → Flowing t
    → Flowing (take_up connected t)
unfolding take_up
up_taken-Flowing connected t a v = elim (Option-cases (get_elem? t.sent_up t.taken_up)) [
  | inl e ↦ rw (take_up, e) v
  | inr (f, e) ↦ elim (Bool-cases (is_reading t.server.reader)) [
    | inl r ↦
        rw (take_up, e, r)
          (taking-Flowing connected f t (reading_of t.server.reader r) e
            (All-get_elem? t.sent_up t.taken_up f e a) v)
    | inr r ↦ rw (take_up, e, r) v
  ]
]

module _ (should_bypass : Bytes → ℕ → Bool) where
  down_taken-Flowing :
      (t : Tunnel) → All IsFrame t.server.outbox → Flowing t → Flowing (take_down should_bypass t)
  unfolding take_down Pool.step
  down_taken-Flowing t a v = elim (Option-cases (get_elem? t.server.outbox t.taken_down)) [
    | inl e ↦ rw (take_down, e) v
    | inr (f, e) ↦
        let w = All-get_elem? t.server.outbox t.taken_down f e a in
        rw (take_down, e)
          record {
            up = v.up;
            down = record {
              flows = λ id.
                  taken-Flow id t.taken_down t.server.outbox f t.pool.conn w e v.down.keys
                    (v.down.flows id);
              keys = taken-Keys f t.pool.conn w v.down.keys;
            };
          }
  ]

  pub step-Flowing :
      (e : Event) (t : Tunnel)
      → All IsFrame t.sent_up
      → All IsFrame t.server.outbox
      → Flowing t
      → Flowing (step should_bypass e t)
  unfolding step Pool.step
  step-Flowing (spawned id job) t a b v = act-Flowing _ t (refl, λ h. h) v
  step-Flowing (moves n answer) t a b v =
      pool-Flowing _ _ t (perform-IsSame (call_of n t.pool.running) t.pool.conn) v
  step-Flowing (up_taken connected) t a b v = up_taken-Flowing connected t a v
  step-Flowing down_taken t a b v = down_taken-Flowing t b v
  step-Flowing up_ends t a b v = serve-Flowing _ t tt v
  step-Flowing down_ends t a b v = act-Flowing _ t (ends-IsSame t.pool.conn) v
  step-Flowing writer_stops t a b v = act-Flowing _ t (writer_ended-IsSame t.pool.conn) v
  step-Flowing closes t a b v = act-Flowing _ t (keeper_closed-IsSame t.pool.conn) v
  step-Flowing clears_acks t a b v = act-Flowing _ t (acks_cleared-IsSame t.pool.conn) v
  step-Flowing ack_sent t a b v = serve-Flowing _ t tt v
  step-Flowing server_writer_ended t a b v = serve-Flowing _ t tt v
  step-Flowing (tcp_read id bytes) t a b v = serve-Flowing _ t tt v
  step-Flowing (tcp_ended id) t a b v = serve-Flowing _ t tt v
  step-Flowing (relay_left id) t a b v = serve-Flowing _ t tt v
