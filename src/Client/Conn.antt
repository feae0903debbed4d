-- ===== src/Client/Conn.antt =====
-- client/src/lib.rs: what the tasks of one mux connection share, `MuxConn`, and its reader,
-- `run_client_reader`. A run is the sequence of the atomic steps of the reader and the request
-- handlers, in any interleaving. `Tx` and `Ack` are the senders of a stream channel and of a one-shot
-- channel for OPEN_ACK.
--
-- `MuxConn::close` and the end of the reader lock the two tables one after the other; the events
-- `writer_ended` and `acks_cleared` are the step on either table alone, so that others may move in
-- between. The writer of `run_proxy_with_routing` closes nothing when it ends: there a run has no
-- `writer_ended`, and no event of the keeper.
pub mod Streams
pub mod Acks
pub mod Waiting
use echo_proxy_core.Base.{
  ℕ, zero, suc, ◌+◌, ◌-◌, ◌*◌, ◌/◌, ◌%◌, ◌^◌, ◌≤◌, ◌<◌, min, String, ◌≡◌, refl, sym, ap, ◌∙◌, subst,
  ◌≢◌, ◌↔◌, ◌⊎◌, inl, inr, Bool, true, false, not, ◌&&◌, ◌||◌, Option, none, some, List, [], ◌∷◌,
  ◌++◌, map, reverse, arith, Bytes, codes, ltb, leb, ◌==◌, if◌then◌else◌, within, leb→le, ltb→lt,
  lt→ltb, ==_iff, Bool-cases, Option-cases, bytes_eq, bytes_eq_sound, bytes_eq_refl, bytes_eq_iff,
  length, take, drop, any, all, All, length-append, take-append, drop-append, take-append-drop,
  length-take, length-drop, any-split, any-append, append_laws, Result, ok, err, ◌>>=◌, ◌>>◌, guard,
  or_default, or_else, >>=-eq-some,
}
use echo_proxy_core.Frame.{
  Frame, hello, open_stream, open_ack, data_frame, close, FrameError, decode,
}
use echo_proxy_core.Session
use echo_proxy_core.Session.{StreamRegistry, Delivery}
use echo_proxy_core.Session.Table.{HashMap, empty, lookup, insert, remove}
use echo_proxy_core.WebSocket.{Item, text, binary, ping, other_message, failed}

-- `delivered` are the sends on stream channels and `acked` those on one-shot channels, latest first.
pub record MuxConn (Tx Ack : Type 0) : Type 0 where
  pub registry : StreamRegistry Tx
  pub pending_acks : HashMap Ack
  pub reading : Bool
  pub delivered : List (Delivery Tx)
  pub acked : List (Ack × Bool)

-- The reader takes an item (`none` at the end of the stream); a handler registers its stream, inserts
-- its one-shot, or unregisters the stream; the writer ends, the keeper closes, or the one-shots alone
-- are cleared.
pub data Event (Tx Ack : Type 0) : Type 0 where
  received : Option Item → Event Tx Ack
  registers : ℕ → Tx → Event Tx Ack
  awaits : ℕ → Ack → Event Tx Ack
  unregisters : ℕ → Event Tx Ack
  writer_ended : Event Tx Ack
  keeper_closed : Event Tx Ack
  acks_cleared : Event Tx Ack

module _ {Tx Ack : Type 0} where
  unfoldable pub new_conn : MuxConn Tx Ack
  new_conn = record {
    registry = Session.new;
    pending_acks = empty;
    reading = true;
    delivered = [];
    acked = [];
  }

  -- `MuxConn::close`
  unfoldable pub close_conn : MuxConn Tx Ack → MuxConn Tx Ack
  close_conn c = record c { registry = Session.close_all c.registry; pending_acks = empty }

  unfoldable pub resolve : ℕ → Bool → MuxConn Tx Ack → MuxConn Tx Ack
  resolve id is_ok c =
      let (found, pending) = remove id c.pending_acks in
      elim found [
        | none ↦ record c { pending_acks = pending }
        | some ack ↦ record c { pending_acks = pending; acked = (ack, is_ok) ∷ c.acked }
      ]

  unfoldable pub deliver : ℕ → Bytes → MuxConn Tx Ack → MuxConn Tx Ack
  deliver id bytes c = elim (Session.route id bytes c.registry) [
    | none ↦ c
    | some d ↦ record c { delivered = d ∷ c.delivered }
  ]

  unfoldable pub dispatch : Result FrameError Frame → MuxConn Tx Ack → MuxConn Tx Ack
  unfolding resolve deliver
  dispatch (ok (open_ack id is_ok)) c = resolve id is_ok c
  dispatch (ok (data_frame id bytes)) c = deliver id bytes c
  dispatch (ok (close id)) c = record c { registry = Session.close id c.registry }
  dispatch _ c = c

  -- Past the loop: `close_all` and `clear`.
  unfoldable pub stop_reading : MuxConn Tx Ack → MuxConn Tx Ack
  stop_reading c = record c {
    registry = Session.close_all c.registry;
    pending_acks = empty;
    reading = false;
  }

  unfoldable pub receive : Option Item → MuxConn Tx Ack → MuxConn Tx Ack
  receive (some (binary d)) c = dispatch (decode d) c
  receive (some ping) c = c
  receive _ c = stop_reading c

  unfoldable pub step : Event Tx Ack → MuxConn Tx Ack → MuxConn Tx Ack
  unfolding receive
  step (received item) c = if c.reading then receive item c else c
  step (registers id tx) c = record c {
    registry = (Session.register (λ _. (tx, tt)) id c.registry).1;
  }
  step (awaits id ack) c = record c { pending_acks = insert id ack c.pending_acks }
  step (unregisters id) c = record c { registry = Session.close id c.registry }
  step writer_ended c = record c { registry = Session.close_all c.registry }
  step keeper_closed c = close_conn c
  step acks_cleared c = record c { pending_acks = empty }

  unfoldable pub run : List (Event Tx Ack) → MuxConn Tx Ack → MuxConn Tx Ack
  run [] c = c
  run (e ∷ es) c = run es (step e c)
