-- ===== src/Tunnel/Steps.antt =====
-- One event in either direction: it takes the next frame, or delivers nothing.
use echo_proxy_core.Base.{
  ℕ, ◌≡◌, refl, sym, ap, ◌∙◌, subst, ◌⊎◌, inl, inr, Bool, true, some, List, Bytes, Bool-cases,
  Option-cases, get_elem?, All,
}
use echo_proxy_core.Frame.{Frame, IsFrame}
use echo_proxy_core.Session.{Delivery}
use echo_proxy_core.Session.Table.{lookup}
use echo_proxy_core.Client.Pool
use echo_proxy_core.Client.Pool.{Pool, call_of}
use echo_proxy_core.Tunnel.{
  Tunnel, Event, spawned, moves, up_taken, down_taken, up_ends, down_ends, writer_stops, closes,
  clears_acks, ack_sent, server_writer_ended, tcp_read, tcp_ended, relay_left, is_reading, take_up,
  take_down, step,
}
use echo_proxy_core.Tunnel.Flow.{payloads_to}
use echo_proxy_core.Tunnel.Exact.{Exact, Exact-send, Exact-more, server-payloads, client-payloads}
use echo_proxy_core.Tunnel.ServerEnd
use echo_proxy_core.Tunnel.ServerEnd.{Grown, step-Grown, step-delivered, IsOther}
use echo_proxy_core.Tunnel.ClientEnd
use echo_proxy_core.Tunnel.ClientEnd.{
  ends-IsSame, writer_ended-IsSame, keeper_closed-IsSame, acks_cleared-IsSame, perform-IsSame,
}
use echo_proxy_core.Tunnel.Flowing.{All-get_elem?, reading_of, Flowing}

-- From the client to the server, or from the server to the client.
pub data Way : Type 0 where
  up : Way
  down : Way

abbrev pub delivered_on : Way → Tunnel → List (Delivery ℕ)
delivered_on up t = t.server.delivered
delivered_on down t = t.pool.conn.delivered

abbrev pub sent_on : Way → Tunnel → List Frame
sent_on up t = t.sent_up
sent_on down t = t.server.outbox

abbrev pub taken_on : Way → Tunnel → ℕ
taken_on up t = t.taken_up
taken_on down t = t.taken_down

-- The receiving end has the stream's channel, and on the client its reader runs.
abbrev pub IsOpen : Way → ℕ → Tunnel → Type 0
IsOpen up id t = lookup id t.server.registry.inner ≡ some id
IsOpen down id t = (lookup id t.pool.conn.registry.inner ≡ some id) × (t.pool.conn.reading ≡ true)

abbrev pub IsExact : Way → ℕ → List Bytes → ℕ → Tunnel → Type 0
IsExact way id before from t =
    Exact id before from (delivered_on way t) (sent_on way t) (taken_on way t)

-- One step at a time: the sends grow, and what is delivered is as before.
pub Exact-kept :
    (id from : ℕ) (before : List Bytes) (ds ds' : List (Delivery ℕ)) (sent sent' : List Frame)
    (k : ℕ)
    → ds' ≡ ds
    → Grown sent sent'
    → Exact id before from ds sent k
    → Exact id before from ds' sent' k
Exact-kept id from before ds ds' sent sent' k d (new, p) v =
    subst (λ l. Exact id before from l sent' k) (sym d)
      (subst (λ l. Exact id before from ds l k) (sym p) (Exact-send id from before ds sent new k v))

pub up_taken-down :
    (connected : Bool) (t : Tunnel)
    → ((take_up connected t).pool ≡ t.pool) × ((take_up connected t).taken_down ≡ t.taken_down)
unfolding take_up
up_taken-down connected t = elim (Option-cases (get_elem? t.sent_up t.taken_up)) [
  | inl e ↦ rw (take_up, e) (refl, refl)
  | inr (f, e) ↦ elim (Bool-cases (is_reading t.server.reader)) [
    | inl r ↦ rw (take_up, e, r) (refl, refl)
    | inr r ↦ rw (take_up, e, r) (refl, refl)
  ]
]

pub up_taken-Exact :
    (id from : ℕ) (before : List Bytes) (connected : Bool) (t : Tunnel)
    → All IsFrame t.sent_up
    → Flowing t
    → IsOpen up id t
    → IsExact up id before from t
    → IsExact up id before from (take_up connected t)
unfolding take_up
up_taken-Exact id from before connected t a v o x =
    elim (Option-cases (get_elem? t.sent_up t.taken_up)) [
      | inl e ↦ rw (take_up, e) x
      | inr (f, e) ↦ elim (Bool-cases (is_reading t.server.reader)) [
        | inl r ↦
            let p =
              ServerEnd.step-taken f connected t.server (reading_of t.server.reader r)
                (All-get_elem? t.sent_up t.taken_up f e a) in
            rw (take_up, e, r)
              (Exact-more id from before t.server.delivered _ t.sent_up t.taken_up f e
                (ap (λ s. payloads_to id s.delivered) p
                  ∙ server-payloads id f connected t.server v.up.keys o)
                x)
        | inr r ↦ rw (take_up, e, r) x
      ]
    ]

module _ (should_bypass : Bytes → ℕ → Bool) where
  down_taken-up :
      (t : Tunnel)
      → ((take_down should_bypass t).server ≡ t.server)
        × ((take_down should_bypass t).taken_up ≡ t.taken_up)
  unfolding take_down
  down_taken-up t = elim (Option-cases (get_elem? t.server.outbox t.taken_down)) [
    | inl e ↦ rw (take_down, e) (refl, refl)
    | inr (f, e) ↦ rw (take_down, e) (refl, refl)
  ]

  pub down_taken-Exact :
      (id from : ℕ) (before : List Bytes) (t : Tunnel)
      → All IsFrame t.server.outbox
      → Flowing t
      → IsOpen down id t
      → IsExact down id before from t
      → IsExact down id before from (take_down should_bypass t)
  unfolding take_down Pool.step
  down_taken-Exact id from before t a v o x =
      elim (Option-cases (get_elem? t.server.outbox t.taken_down)) [
        | inl e ↦ rw (take_down, e) x
        | inr (f, e) ↦
            let p =
              ClientEnd.step-taken f t.pool.conn o.1
                (All-get_elem? t.server.outbox t.taken_down f e a) in
            rw (take_down, e)
              (Exact-more id from before t.pool.conn.delivered _ t.server.outbox t.taken_down f e
                (ap (λ c. payloads_to id c.delivered) p
                  ∙ client-payloads id f t.pool.conn v.down.keys o.0)
                x)
      ]

  pub step-up :
      (e : Event) (t : Tunnel)
      → ((connected : Bool) × (e ≡ up_taken connected))
        ⊎ (((step should_bypass e t).server.delivered ≡ t.server.delivered)
            × ((step should_bypass e t).taken_up ≡ t.taken_up))
  unfolding step
  step-up (up_taken connected) t = inl (connected, refl)
  step-up down_taken t = inr (ap (λ s. s.delivered) (down_taken-up t).0, (down_taken-up t).1)
  step-up (spawned id job) t = inr (refl, refl)
  step-up (moves n answer) t = inr (refl, refl)
  step-up down_ends t = inr (refl, refl)
  step-up writer_stops t = inr (refl, refl)
  step-up closes t = inr (refl, refl)
  step-up clears_acks t = inr (refl, refl)
  step-up up_ends t = inr (step-delivered _ t.server tt, refl)
  step-up ack_sent t = inr (step-delivered _ t.server tt, refl)
  step-up server_writer_ended t = inr (step-delivered _ t.server tt, refl)
  step-up (tcp_read id bytes) t = inr (step-delivered _ t.server tt, refl)
  step-up (tcp_ended id) t = inr (step-delivered _ t.server tt, refl)
  step-up (relay_left id) t = inr (step-delivered _ t.server tt, refl)

  pub step-down :
      (e : Event) (t : Tunnel)
      → (e ≡ down_taken)
        ⊎ (((step should_bypass e t).pool.conn.delivered ≡ t.pool.conn.delivered)
            × ((step should_bypass e t).taken_down ≡ t.taken_down))
  unfolding step Pool.step
  step-down down_taken t = inl refl
  step-down (up_taken connected) t =
      inr (ap (λ p. p.conn.delivered) (up_taken-down connected t).0, (up_taken-down connected t).1)
  step-down (moves n answer) t =
      inr ((perform-IsSame (call_of n t.pool.running) t.pool.conn).0, refl)
  step-down down_ends t = inr ((ends-IsSame t.pool.conn).0, refl)
  step-down writer_stops t = inr ((writer_ended-IsSame t.pool.conn).0, refl)
  step-down closes t = inr ((keeper_closed-IsSame t.pool.conn).0, refl)
  step-down clears_acks t = inr ((acks_cleared-IsSame t.pool.conn).0, refl)
  step-down _ t = inr (refl, refl)
