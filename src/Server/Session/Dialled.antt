-- ===== src/Server/Session/Dialled.antt =====
-- A session connects to allowed destinations only, whatever the client sends.
use echo_proxy_core.Base.{
  ◌≡◌, Bool, true, Option, some, List, [], ◌∷◌, arith, Bytes, All, Result, ok,
}
use echo_proxy_core.Frame.{Frame, open_stream, data_frame, close, FrameError, decode}
use echo_proxy_core.WebSocket.{Item, binary, ping}
use echo_proxy_core.Server.Ssrf.{is_dest_allowed}
use echo_proxy_core.Server.Session.{
  MuxSession, Event, received, ack_sent, writer_ended, tcp_read, tcp_ended, relay_left, start, send,
  handle_open, deliver, dispatch, stop_reading, receive, step, run,
}

abbrev pub AllAllowed : List Bytes → Type 0
AllAllowed = All (λ d. is_dest_allowed d ≡ true)

module _ {Tx : Type 0} where
  dispatch-AllAllowed :
      (r : Result FrameError Frame) (connected : Bool) (tx : Tx) (s : MuxSession Tx)
      → AllAllowed s.dialled
      → AllAllowed (dispatch r connected tx s).dialled
  unfolding dispatch handle_open deliver
  dispatch-AllAllowed (ok (open_stream id dest)) connected tx s h = ground arith
  dispatch-AllAllowed (ok (data_frame id bytes)) connected tx s h = ground arith
  dispatch-AllAllowed (ok (close id)) connected tx s h = h
  dispatch-AllAllowed _ connected tx s h = h

  receive-AllAllowed :
      (item : Option Item) (connected : Bool) (tx : Tx) (s : MuxSession Tx)
      → AllAllowed s.dialled
      → AllAllowed (receive item connected tx s).dialled
  unfolding receive stop_reading
  receive-AllAllowed (some (binary d)) connected tx s h =
      dispatch-AllAllowed (decode d) connected tx s h
  receive-AllAllowed (some ping) connected tx s h = h
  receive-AllAllowed _ connected tx s h = h

  step-AllAllowed :
      (e : Event Tx) (s : MuxSession Tx) → AllAllowed s.dialled → AllAllowed (step e s).dialled
  unfolding step send
  step-AllAllowed (received item connected tx) s h =
      ground (arith, receive-AllAllowed item connected tx s h)
  step-AllAllowed ack_sent s h = ground arith
  step-AllAllowed writer_ended s h = h
  step-AllAllowed (tcp_read id bytes) s h = ground arith
  step-AllAllowed (tcp_ended id) s h = ground arith
  step-AllAllowed (relay_left id) s h = ground arith

  run-AllAllowed :
      (es : List (Event Tx)) (s : MuxSession Tx)
      → AllAllowed s.dialled
      → AllAllowed (run es s).dialled
  unfolding run
  run-AllAllowed [] s h = h
  run-AllAllowed (e ∷ es) s h = run-AllAllowed es (step e s) (step-AllAllowed e s h)

  -- In every interleaving of a session, each destination that the server connects to passed the
  -- SSRF test.
  pub run-start-AllAllowed : (es : List (Event Tx)) → AllAllowed (run es start).dialled
  unfolding start
  run-start-AllAllowed es = run-AllAllowed es start tt
