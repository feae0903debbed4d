-- ===== src/Tunnel/Exchange/Closing.antt =====
-- The end of a stream: the local peer's first, then that of the server's TCP side.
use echo_proxy_core.Base.{
  ℕ, ◌^◌, ◌<◌, ◌≡◌, refl, ap, ◌∙◌, Bool, true, ◌||◌, List, [], ◌∷◌, ◌++◌, arith, Bytes, ◌==◌,
  length,
}
use mathlib.Core.List.{append-nil}
use echo_proxy_core.Frame.{Frame, close}
use echo_proxy_core.Session
use echo_proxy_core.Session.{StreamRegistry}
use echo_proxy_core.Client.Task.{Task, ask, finish, send_frame, close_stream}
use echo_proxy_core.Client.Conn
use echo_proxy_core.Client.Conn.{MuxConn}
use echo_proxy_core.Client.Pool
use echo_proxy_core.Client.Pool.{advance, call_of, perform}
use echo_proxy_core.Server.Session as Mux
use echo_proxy_core.Server.Session.{MuxSession, reading, mem_id, without_id, send}
use echo_proxy_core.Tunnel.{
  Event, up_taken, down_taken, tcp_ended, relay_left, step, run, take_down,
}
use echo_proxy_core.Tunnel.Exchange.{moving, level}
use echo_proxy_core.Tunnel.Exchange.Frames.{run-then, run-frame_up, take_down-last}

-- The handler behind its last read.
abbrev pub ending : ℕ → Task
ending id = ask (send_frame (close id)) (λ _. ask (close_stream id) (λ _. finish))

abbrev pub closing : ℕ → List Event
closing id =
    (moving ∷ up_taken true ∷ [])
    ++ (moving ∷ moving ∷ [])
    ++ (tcp_ended id ∷ down_taken ∷ [])
    ++ (relay_left id ∷ [])

abbrev pub client_closed : ℕ → MuxConn ℕ ℕ → MuxConn ℕ ℕ
client_closed id c = record c { registry = Session.close id c.registry }

abbrev pub server_closed : ℕ → MuxSession ℕ → MuxSession ℕ
server_closed id s = record s { registry = Session.close id s.registry }

abbrev pub relay_ended : ℕ → MuxSession ℕ → MuxSession ℕ
relay_ended id s = record s {
  outbox = s.outbox ++ close id ∷ [];
  relays = without_id id s.relays;
  leaving = id ∷ s.leaving;
}

abbrev pub relay_gone : ℕ → MuxSession ℕ → MuxSession ℕ
relay_gone id s = record s {
  registry = Session.close id s.registry;
  leaving = without_id id s.leaving;
}

server_end :
    (id : ℕ) (s : MuxSession ℕ)
    → s.writer_up ≡ true
    → mem_id id s.relays ≡ true
    → Mux.step (Mux.tcp_ended id) s ≡ relay_ended id s
unfolding Mux.step Mux.relay_end Mux.send
server_end id s u m = rw (Mux.step, m, Mux.relay_end, Mux.send, u) refl

server_left :
    (id : ℕ) (s : MuxSession ℕ)
    → mem_id id s.leaving ≡ true
    → Mux.step (Mux.relay_left id) s ≡ relay_gone id s
unfolding Mux.step Mux.unregister
server_left id s m = rw (Mux.step, m) refl

module _ (should_bypass : Bytes → ℕ → Bool) where
  returned :
      (id : ℕ) (ts : List (ℕ × Task)) (c : MuxConn ℕ ℕ) (s : MuxSession ℕ) (sent : List Frame)
      → run should_bypass
          (moving ∷ moving ∷ [])
          (level ((id, ask (close_stream id) (λ _. finish)) ∷ ts) c s sent)
        ≡ level ts (client_closed id c) s sent
  unfolding run step Pool.step advance call_of perform Conn.step
  returned id ts c s sent =
      ap (λ l. record (level ts (client_closed id c) s sent) { sent_up = l })
        (append-nil (sent ++ []) ∙ append-nil sent)

  relay_stops :
      (id : ℕ) (ts : List (ℕ × Task)) (c : MuxConn ℕ ℕ) (s : MuxSession ℕ) (sent : List Frame)
      → id < 2 ^ 32
      → c.reading ≡ true
      → s.writer_up ≡ true
      → mem_id id s.relays ≡ true
      → run should_bypass (tcp_ended id ∷ down_taken ∷ []) (level ts c s sent)
        ≡ level ts (client_closed id c) (relay_ended id s) sent
  unfolding run step Conn.dispatch
  relay_stops id ts c s sent w r u m =
      ap
        (λ s'.
          take_down should_bypass (record (level ts c s' sent) { taken_down = length s.outbox }))
        (server_end id s u m)
      ∙ take_down-last should_bypass (close id) ts c (relay_ended id s) sent s.outbox w r refl

  relay_goes :
      (id : ℕ) (ts : List (ℕ × Task)) (c : MuxConn ℕ ℕ) (s : MuxSession ℕ) (sent : List Frame)
      → mem_id id s.leaving ≡ true
      → run should_bypass (relay_left id ∷ []) (level ts c s sent)
        ≡ level ts c (relay_gone id s) sent
  unfolding run step
  relay_goes id ts c s sent m =
      ap (λ s'. record (level ts c s' sent) { taken_down = length s.outbox }) (server_left id s m)

  pub run-closing :
      (id : ℕ) (ts : List (ℕ × Task)) (c : MuxConn ℕ ℕ) (s : MuxSession ℕ) (sent : List Frame)
      → id < 2 ^ 32
      → c.reading ≡ true
      → s.reader ≡ reading
      → s.writer_up ≡ true
      → mem_id id s.relays ≡ true
      → run should_bypass (closing id) (level ((id, ending id) ∷ ts) c s sent)
        ≡ level ts
            (client_closed id (client_closed id c))
            (relay_gone id (relay_ended id (server_closed id s)))
            (sent ++ close id ∷ [])
  unfolding Mux.dispatch
  run-closing id ts c s sent w r q u m =
      let own : (id == id) ≡ true = ground arith in
      run-then should_bypass (moving ∷ up_taken true ∷ []) _ _ _ _
        (run-frame_up should_bypass id (close id) (λ _. ask (close_stream id) (λ _. finish)) ts c s
          sent w q)
        (run-then should_bypass (moving ∷ moving ∷ []) _ _ _ _
          (returned id ts c (server_closed id s) (sent ++ close id ∷ []))
          (run-then should_bypass (tcp_ended id ∷ down_taken ∷ []) _ _ _ _
            (relay_stops id ts (client_closed id c) (server_closed id s) (sent ++ close id ∷ []) w r
              u m)
            (relay_goes id ts (client_closed id (client_closed id c))
              (relay_ended id (server_closed id s)) (sent ++ close id ∷ [])
              (ap (λ b. b || mem_id id s.leaving) own))))
