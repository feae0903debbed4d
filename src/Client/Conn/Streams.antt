-- ===== src/Client/Conn/Streams.antt =====
-- Which stream channel gets which bytes.
use echo_proxy_core.Base.{
  ℕ, ◌≡◌, refl, ap, ◌∙◌, Bool, true, false, Option, none, some, List, [], ◌∷◌, arith, Bytes, ◌==◌,
  if◌then◌else◌, Result, ok,
}
use echo_proxy_core.Frame.{Frame, open_ack, data_frame, close, FrameError, decode}
use echo_proxy_core.Session
use echo_proxy_core.Session.{StreamRegistry, Delivery}
use echo_proxy_core.Session.Table.{lookup, lookup-insert, lookup-remove, lookup-empty}
use echo_proxy_core.WebSocket.{Item, binary, ping}
use echo_proxy_core.Client.Conn.{
  MuxConn, Event, received, registers, awaits, unregisters, writer_ended, keeper_closed,
  acks_cleared, new_conn, close_conn, dispatch, stop_reading, receive, step, run,
}

-- Whether the reader goes on.
abbrev pub goes_on : Option Item → Bool
goes_on (some (binary d)) = true
goes_on (some ping) = true
goes_on _ = false

module _ {Tx : Type 0} where
  abbrev pub closed_by : ℕ → Result FrameError Frame → Option Tx → Option Tx
  closed_by id (ok (close j)) tx = if j == id then none else tx
  closed_by id _ tx = tx

  abbrev pub heard : ℕ → Option Item → Option Tx → Option Tx
  heard id (some (binary d)) tx = closed_by id (decode d) tx
  heard id (some ping) tx = tx
  heard id _ tx = none

  abbrev pub delivered_to : Option Tx → Bytes → List (Delivery Tx) → List (Delivery Tx)
  delivered_to none bytes ds = ds
  delivered_to (some tx) bytes ds = record { to = tx; payload = bytes } ∷ ds

module _ {Tx Ack : Type 0} where
  -- The channel of stream `id` after one event, from the events alone, and whether the reader still
  -- reads: the last registration that no CLOSE, no unregistering and no end of the connection followed.
  abbrev pub channel_after : ℕ → Event Tx Ack → Bool × Option Tx → Bool × Option Tx
  channel_after id (received item) (true, tx) = (goes_on item, heard id item tx)
  channel_after id (received item) (false, tx) = (false, tx)
  channel_after id (registers j tx') (up, tx) = (up, if j == id then some tx' else tx)
  channel_after id (awaits j ack) (up, tx) = (up, tx)
  channel_after id (unregisters j) (up, tx) = (up, if j == id then none else tx)
  channel_after id writer_ended (up, tx) = (up, none)
  channel_after id keeper_closed (up, tx) = (up, none)
  channel_after id acks_cleared (up, tx) = (up, tx)

  abbrev pub channel : ℕ → List (Event Tx Ack) → Bool × Option Tx → Bool × Option Tx
  channel id [] s = s
  channel id (e ∷ es) s = channel id es (channel_after id e s)

  abbrev pub seen : ℕ → MuxConn Tx Ack → Bool × Option Tx
  seen id c = (c.reading, lookup id c.registry.inner)

  dispatch-seen :
      (id : ℕ) (r : Result FrameError Frame) (c : MuxConn Tx Ack)
      → seen id (dispatch r c) ≡ (c.reading, closed_by id r (lookup id c.registry.inner))
  unfolding dispatch Session.close
  dispatch-seen id (ok (close j)) c = ground (arith, lookup-remove j id c.registry.inner)
  dispatch-seen id (ok (open_ack j is_ok)) c = ground arith
  dispatch-seen id (ok (data_frame j bytes)) c = ground arith
  dispatch-seen id _ c = refl

  stop-seen : (id : ℕ) (c : MuxConn Tx Ack) → seen id (stop_reading c) ≡ (false, none)
  unfolding stop_reading Session.close_all
  stop-seen id c = ground (arith, lookup-empty {V = Tx} id)

  receive-seen :
      (id : ℕ) (item : Option Item) (c : MuxConn Tx Ack)
      → c.reading ≡ true
      → seen id (receive item c) ≡ (goes_on item, heard id item (lookup id c.registry.inner))
  unfolding receive
  receive-seen id (some (binary d)) c h = ground (arith, dispatch-seen id (decode d) c)
  receive-seen id (some ping) c h = ground arith
  receive-seen id none c h = stop-seen id c
  receive-seen id (some _) c h = stop-seen id c

  pub step-seen :
      (id : ℕ) (e : Event Tx Ack) (c : MuxConn Tx Ack)
      → seen id (step e c) ≡ channel_after id e (seen id c)
  unfolding step close_conn Session.register Session.close Session.close_all
  step-seen id (received item) c = ground (arith, receive-seen id item c)
  step-seen id (registers j tx) c = ground (arith, lookup-insert j id tx c.registry.inner)
  step-seen id (awaits j ack) c = refl
  step-seen id (unregisters j) c = ground (arith, lookup-remove j id c.registry.inner)
  step-seen id writer_ended c = ground (arith, lookup-empty {V = Tx} id)
  step-seen id keeper_closed c = ground (arith, lookup-empty {V = Tx} id)
  step-seen id acks_cleared c = refl

  -- In every interleaving the registry maps each id to the channel of its last registration, unless a
  -- CLOSE, an unregistering or the end of the connection came since; so no stream disturbs another.
  pub run-seen :
      (id : ℕ) (es : List (Event Tx Ack)) (c : MuxConn Tx Ack)
      → seen id (run es c) ≡ channel id es (seen id c)
  unfolding run
  run-seen id [] c = refl
  run-seen id (e ∷ es) c = run-seen id es (step e c) ∙ ap (channel id es) (step-seen id e c)

  data-delivered :
      (d : Bytes) (id : ℕ) (bytes : Bytes) (c : MuxConn Tx Ack)
      → c.reading ≡ true
      → decode d ≡ ok (data_frame id bytes)
      → (step (received (some (binary d))) c).delivered
        ≡ delivered_to (lookup id c.registry.inner) bytes c.delivered
  unfolding step dispatch Session.route
  data-delivered d id bytes c h e = ground arith

  -- In every interleaving from a new connection, a DATA frame for `id` that the reader takes is sent
  -- once, to the channel of the last registration of `id` that nothing has ended since; if there is
  -- none its bytes are dropped.
  pub run-data :
      (es : List (Event Tx Ack)) (d : Bytes) (id : ℕ) (bytes : Bytes)
      → (channel id es (true, none)).0 ≡ true
      → decode d ≡ ok (data_frame id bytes)
      → (step (received (some (binary d))) (run es new_conn)).delivered
        ≡ delivered_to (channel id es (true, none)).1 bytes (run es new_conn).delivered
  unfolding new_conn Session.new
  run-data es d id bytes h e =
      let new : seen id (new_conn {Tx = Tx} {Ack = Ack}) ≡ (true, none) =
        ground (arith, lookup-empty {V = Tx} id) in
      let k : seen id (run es new_conn) ≡ channel id es (true, none) =
        run-seen id es new_conn ∙ ap (channel id es) new in
      data-delivered d id bytes (run es new_conn) (ap (λ p. p.0) k ∙ h) e
      ∙ ap (λ p. delivered_to p.1 bytes (run es new_conn).delivered) k
