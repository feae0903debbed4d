-- ===== src/Tunnel/Exchange/Behind.antt =====
-- Each handler from the answer to its OPEN to its relay.
use echo_proxy_core.Base.{
  ℕ, ◌^◌, ◌<◌, ◌≡◌, refl, sym, ap, ◌∙◌, Bool, true, false, Option, none, some, List, [], ◌∷◌, ◌++◌,
  map, Bytes, if◌then◌else◌,
}
use mathlib.Core.List.{append-nil}
use echo_proxy_core.Frame.{Frame, data_frame}
use echo_proxy_core.Session.Table.{lookup}
use echo_proxy_core.Client.Task.{Task, recv_ack, write_local, spawn_writer, ◌>>◌}
use echo_proxy_core.Client.Socks.{socks5_reply, socks5_rep_success}
use echo_proxy_core.Client.Handlers.{
  upload, open_ack_timeout_secs, do_mux_relay, abandon, established, start_http,
}
use echo_proxy_core.Client.Conn.{MuxConn}
use echo_proxy_core.Client.Pool.{Job, local, resilient, socks, perform}
use echo_proxy_core.Server.Session.{MuxSession, reading}
use echo_proxy_core.Tunnel.{up_taken, run}
use echo_proxy_core.Tunnel.Exchange.{moving, level}
use echo_proxy_core.Tunnel.Exchange.Frames.{run-then, run-call, run-frame_up}
use echo_proxy_core.Tunnel.Exchange.Data.{has_got, server_deliver}
use echo_proxy_core.Tunnel.Exchange.Closing.{ending}
use echo_proxy_core.Tunnel.Exchange.Jobs.{
  target_of, reads_of_job, is_connect, first_of, first_data, behind_http, behind, after_socks,
  after_http, rest_of,
}

module _ (should_bypass : Bytes → ℕ → Bool) where
  http_begins :
      (timeout : Option ℕ) (id : ℕ) (connect : Bool) (bytes : Bytes) (reads : List Bytes)
      (ts : List (ℕ × Task)) (c : MuxConn ℕ ℕ) (s : MuxSession ℕ) (sent : List Frame)
      → id < 2 ^ 32
      → s.reader ≡ reading
      → lookup id s.registry.inner ≡ some id
      → run should_bypass
          (behind_http connect)
          (level ((id, after_http timeout id connect bytes reads true) ∷ ts) c s sent)
        ≡ level
            ((id, upload id reads >> ending id) ∷ ts)
            c
            (has_got id (first_of connect bytes) s)
            (sent ++ map (data_frame id) (first_of connect bytes))
  unfolding perform start_http do_mux_relay
  http_begins timeout id true bytes reads ts c s sent w q o =
      run-then should_bypass (moving ∷ []) (moving ∷ moving ∷ []) _ _ _
        (run-call should_bypass id (recv_ack id timeout) _ ts c c s sent refl refl)
        (run-then should_bypass (moving ∷ []) (moving ∷ []) _ _ _
          (run-call should_bypass id (write_local established) _ ts c c s sent refl refl)
          (run-call should_bypass id (spawn_writer id) _ ts c c s sent refl refl))
      ∙ ap (level ((id, upload id reads >> ending id) ∷ ts) c s) (sym (append-nil sent))
  http_begins timeout id false bytes reads ts c s sent w q o =
      let f = data_frame id bytes in
      run-then should_bypass (moving ∷ []) (moving ∷ up_taken true ∷ moving ∷ []) _ _ _
        (run-call should_bypass id (recv_ack id timeout) _ ts c c s sent refl refl)
        (run-then should_bypass (moving ∷ up_taken true ∷ []) (moving ∷ []) _ _ _
          (run-frame_up should_bypass id f
              (λ sent. if sent then do_mux_relay id reads else abandon id) ts c s sent w q
            ∙ ap (λ s. level ((id, do_mux_relay id reads) ∷ ts) c s (sent ++ f ∷ []))
                (server_deliver id bytes s o))
          (run-call should_bypass id (spawn_writer id) _ ts c c (has_got id (bytes ∷ []) s)
            (sent ++ f ∷ []) refl refl))

  socks_begins :
      (id : ℕ) (reads : List Bytes) (ts : List (ℕ × Task)) (c : MuxConn ℕ ℕ) (s : MuxSession ℕ)
      (sent : List Frame)
      → run should_bypass
          (moving ∷ moving ∷ moving ∷ [])
          (level ((id, after_socks id reads true) ∷ ts) c s sent)
        ≡ level ((id, upload id reads >> ending id) ∷ ts) c s (sent ++ [])
  unfolding perform do_mux_relay
  socks_begins id reads ts c s sent =
      run-then should_bypass (moving ∷ []) (moving ∷ moving ∷ []) _ _ _
        (run-call should_bypass id (recv_ack id (some open_ack_timeout_secs)) _ ts c c s sent refl
          refl)
        (run-then should_bypass (moving ∷ []) (moving ∷ []) _ _ _
          (run-call should_bypass id (write_local (socks5_reply socks5_rep_success)) _ ts c c s sent
            refl refl)
          (run-call should_bypass id (spawn_writer id) _ ts c c s sent refl refl))
      ∙ ap (level ((id, upload id reads >> ending id) ∷ ts) c s) (sym (append-nil sent))

  -- From the answer to the OPEN to the first read of the relay.
  pub run-behind :
      (id : ℕ) (job : Job) (target : Bytes) (ts : List (ℕ × Task)) (c : MuxConn ℕ ℕ)
      (s : MuxSession ℕ) (sent : List Frame)
      → target_of job ≡ some target
      → id < 2 ^ 32
      → s.reader ≡ reading
      → lookup id s.registry.inner ≡ some id
      → run should_bypass (behind job) (level ((id, rest_of id job true) ∷ ts) c s sent)
        ≡ level
            ((id, upload id (reads_of_job job) >> ending id) ∷ ts)
            c
            (has_got id (first_data job) s)
            (sent ++ map (data_frame id) (first_data job))
  run-behind id (local (some request) reads) target ts c s sent h w q o =
      http_begins none id (is_connect request) (request.headers ++ request.body) reads ts c s sent w
        q o
  run-behind id (resilient (some request) reads) target ts c s sent h w q o =
      http_begins (some open_ack_timeout_secs) id (is_connect request)
        (request.headers ++ request.body) reads ts c s sent w q o
  run-behind id (socks (some host) reads) target ts c s sent h w q o =
      socks_begins id reads ts c s sent
  run-behind id (local none reads) target ts c s sent h w q o = absurd cc
  run-behind id (resilient none reads) target ts c s sent h w q o = absurd cc
  run-behind id (socks none reads) target ts c s sent h w q o = absurd cc
