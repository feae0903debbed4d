-- ===== src/Tunnel/Exchange/Begins.antt =====
-- Each handler up to its OPEN.
use echo_proxy_core.Base.{
  ℕ, ◌≡◌, refl, ap, ◌∙◌, Bool, false, not, none, some, List, [], ◌∷◌, Bytes, if◌then◌else◌,
}
use echo_proxy_core.Frame.{Frame, open_stream}
use echo_proxy_core.Session
use echo_proxy_core.Client.Address.{split_host_port}
use echo_proxy_core.Client.Http.{Request}
use echo_proxy_core.Client.Task.{
  Task, ask, finish, send_frame, snapshot_mux, register, insert_ack, write_local,
}
use echo_proxy_core.Client.Socks.{socks5_reply, socks5_rep_general_failure}
use echo_proxy_core.Client.Handlers.{
  bad_gateway, handle_via_mux, handle_local_connection, handle_local_connection_resilient,
  handle_socks_connection_resilient, handle_socks_via_mux,
}
use echo_proxy_core.Client.Conn
use echo_proxy_core.Client.Conn.{MuxConn}
use echo_proxy_core.Client.Pool
use echo_proxy_core.Client.Pool.{Job, local, resilient, socks, handler, perform}
use echo_proxy_core.Server.Session.{MuxSession}
use echo_proxy_core.Tunnel.{spawned, step, run}
use echo_proxy_core.Tunnel.Exchange.{moving, level}
use echo_proxy_core.Tunnel.Exchange.Frames.{run-then, run-call}
use echo_proxy_core.Tunnel.Exchange.Opening.{awaiting}
use echo_proxy_core.Tunnel.Exchange.Jobs.{
  target_of, http_bypasses, bypasses, before, rest_of, registering,
}

module _ (should_bypass : Bytes → ℕ → Bool) where
  registers :
      (id : ℕ) (target : Bytes) (k : Bool → Task) (ts : List (ℕ × Task)) (c : MuxConn ℕ ℕ)
      (s : MuxSession ℕ) (sent : List Frame)
      → run should_bypass
          (moving ∷ moving ∷ [])
          (level ((id, registering id target k) ∷ ts) c s sent)
        ≡ level ((id, ask (send_frame (open_stream id target)) k) ∷ ts) (awaiting id c) s sent
  unfolding perform Conn.step Session.register
  registers id target k ts c s sent =
      run-then should_bypass (moving ∷ []) (moving ∷ []) _ _ _
        (run-call should_bypass id (register id) _ ts c _ s sent refl refl)
        (run-call should_bypass id (insert_ack id) _ ts _ _ s sent refl refl)

  abbrev if_available : Task → Task → Task
  if_available refused t = ask snapshot_mux (λ available. if not available then refused else t)

  -- A handler that does not bypass the tunnel asks for its stream.
  local_asks :
      (id : ℕ) (request : Request) (reads : List Bytes)
      → http_bypasses should_bypass request.host ≡ false
      → handler should_bypass id (local (some request) reads)
        ≡ registering id request.host (rest_of id (local (some request) reads))
  unfolding handler handle_local_connection handle_via_mux
  local_asks id request reads h = rw h refl

  resilient_asks :
      (id : ℕ) (request : Request) (reads : List Bytes)
      → http_bypasses should_bypass request.host ≡ false
      → handler should_bypass id (resilient (some request) reads)
        ≡ if_available
            (ask (write_local bad_gateway) (λ _. finish))
            (registering id request.host (rest_of id (resilient (some request) reads)))
  unfolding handler handle_local_connection_resilient handle_via_mux
  resilient_asks id request reads h = rw h refl

  socks_asks :
      (id : ℕ) (target : Bytes) (reads : List Bytes)
      → should_bypass (split_host_port target).0 (split_host_port target).1 ≡ false
      → handler should_bypass id (socks (some target) reads)
        ≡ if_available
            (ask (write_local (socks5_reply socks5_rep_general_failure)) (λ _. finish))
            (registering id target (rest_of id (socks (some target) reads)))
  unfolding handler handle_socks_connection_resilient handle_socks_via_mux
  socks_asks id target reads h = rw h refl

  spawns :
      (id : ℕ) (job : Job) (t : Task) (ts : List (ℕ × Task)) (c : MuxConn ℕ ℕ) (s : MuxSession ℕ)
      (sent : List Frame)
      → handler should_bypass id job ≡ t
      → run should_bypass (spawned id job ∷ []) (level ts c s sent) ≡ level ((id, t) ∷ ts) c s sent
  unfolding run step Pool.step
  spawns id job t ts c s sent h = ap (λ t. level ((id, t) ∷ ts) c s sent) h

  registers_available :
      (id : ℕ) (target : Bytes) (refused : Task) (k : Bool → Task) (ts : List (ℕ × Task))
      (c : MuxConn ℕ ℕ) (s : MuxSession ℕ) (sent : List Frame)
      → run should_bypass
          (moving ∷ moving ∷ moving ∷ [])
          (level ((id, if_available refused (registering id target k)) ∷ ts) c s sent)
        ≡ level ((id, ask (send_frame (open_stream id target)) k) ∷ ts) (awaiting id c) s sent
  unfolding perform
  registers_available id target refused k ts c s sent =
      run-then should_bypass (moving ∷ []) (moving ∷ moving ∷ []) _ _ _
        (run-call should_bypass id snapshot_mux _ ts c c s sent refl refl)
        (registers id target k ts c s sent)

  -- From the start of the handler to its OPEN.
  pub run-before :
      (id : ℕ) (job : Job) (target : Bytes) (ts : List (ℕ × Task)) (c : MuxConn ℕ ℕ)
      (s : MuxSession ℕ) (sent : List Frame)
      → target_of job ≡ some target
      → bypasses should_bypass job ≡ false
      → run should_bypass (spawned id job ∷ before job) (level ts c s sent)
        ≡ level
            ((id, ask (send_frame (open_stream id target)) (rest_of id job)) ∷ ts)
            (awaiting id c)
            s
            sent
  run-before id (local (some request) reads) target ts c s sent h b =
      let e : request.host ≡ target = cc in
      run-then should_bypass (spawned id (local (some request) reads) ∷ []) (moving ∷ moving ∷ []) _
        _ _ (spawns id (local (some request) reads) _ ts c s sent (local_asks id request reads b))
        (registers id request.host (rest_of id (local (some request) reads)) ts c s sent)
      ∙ ap
          (λ t.
            level
              ((id, ask (send_frame (open_stream id t)) (rest_of id (local (some request) reads)))
                ∷ ts)
              (awaiting id c) s sent)
          e
  run-before id (resilient (some request) reads) target ts c s sent h b =
      let e : request.host ≡ target = cc in
      run-then should_bypass (spawned id (resilient (some request) reads) ∷ [])
        (moving ∷ moving ∷ moving ∷ []) _ _ _
        (spawns id (resilient (some request) reads) _ ts c s sent
          (resilient_asks id request reads b))
        (registers_available id request.host _ (rest_of id (resilient (some request) reads)) ts c s
          sent)
      ∙ ap
          (λ t.
            level
              ((
                id,
                ask (send_frame (open_stream id t)) (rest_of id (resilient (some request) reads)),
              )
                ∷ ts)
              (awaiting id c) s sent)
          e
  run-before id (socks (some host) reads) target ts c s sent h b =
      let e : host ≡ target = cc in
      run-then should_bypass (spawned id (socks (some host) reads) ∷ [])
        (moving ∷ moving ∷ moving ∷ []) _ _ _
        (spawns id (socks (some host) reads) _ ts c s sent (socks_asks id host reads b))
        (registers_available id host _ (rest_of id (socks (some host) reads)) ts c s sent)
      ∙ ap
          (λ t.
            level
              ((id, ask (send_frame (open_stream id t)) (rest_of id (socks (some host) reads)))
                ∷ ts)
              (awaiting id c) s sent)
          e
  run-before id (local none reads) target ts c s sent h b = absurd cc
  run-before id (resilient none reads) target ts c s sent h b = absurd cc
  run-before id (socks none reads) target ts c s sent h b = absurd cc
