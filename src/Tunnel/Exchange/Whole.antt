-- ===== src/Tunnel/Exchange/Whole.antt =====
-- The whole life of one stream.
use echo_proxy_core.Base.{
  ℕ, ◌≡◌, refl, sym, ap, subst, Bool, true, false, ◌||◌, some, List, [], ◌∷◌, ◌++◌, map, Bytes,
}
use echo_proxy_core.Frame.{Frame, IsFrame, open_stream, data_frame, close}
use echo_proxy_core.Session.Table.{insert}
use echo_proxy_core.Client.Task.{Task}
use echo_proxy_core.Client.Conn.{MuxConn}
use echo_proxy_core.Client.Pool.{Job}
use echo_proxy_core.Server.Session.{MuxSession, reading, mem_id}
use echo_proxy_core.Server.Ssrf.{is_dest_allowed}
use echo_proxy_core.Tunnel.{spawned, run}
use echo_proxy_core.Tunnel.Exchange.{level}
use echo_proxy_core.Tunnel.Exchange.Frames.{run-then}
use echo_proxy_core.Tunnel.Exchange.Opening.{opening, told, relayed, run-opening}
use echo_proxy_core.Tunnel.Exchange.Data.{
  payloads_to-gets, uploading, downloading, has_got, run-uploading, run-downloading,
}
use echo_proxy_core.Tunnel.Exchange.Closing.{ending, run-closing}
use echo_proxy_core.Tunnel.Exchange.Jobs.{
  target_of, bypasses, reads_of_job, first_data, before, behind, rest_of,
}
use echo_proxy_core.Tunnel.Exchange.Begins.{run-before}
use echo_proxy_core.Tunnel.Exchange.Behind.{run-behind}
use echo_proxy_core.Tunnel.Exchange.Ends.{
  until_answer, exchange, Served, Answered, client_open, server_open, client_after, server_after,
  sent_open, own_id, lookup-closed, lookup-registered, without_own, payloads_to-all, lookup-removed,
  waits_for-rest,
}

module _ (should_bypass : Bytes → ℕ → Bool) where
  run-until_answer :
      (id : ℕ) (job : Job) (target : Bytes) (ts : List (ℕ × Task)) (c : MuxConn ℕ ℕ)
      (s : MuxSession ℕ) (sent : List Frame)
      → target_of job ≡ some target
      → IsFrame (open_stream id target)
      → is_dest_allowed target ≡ true
      → bypasses should_bypass job ≡ false
      → c.reading ≡ true
      → s.reader ≡ reading
      → s.writer_up ≡ true
      → run should_bypass (until_answer id job) (level ts c s sent)
        ≡ level
            ((id, rest_of id job true) ∷ ts)
            (told id c)
            (relayed id target s)
            (sent ++ open_stream id target ∷ [])
  run-until_answer id job target ts c s sent g w a h r q u =
      run-then should_bypass (spawned id job ∷ before job) opening _ _ _
        (run-before should_bypass id job target ts c s sent g h)
        (run-opening should_bypass id target (rest_of id job) ts c s sent w a r q u)

  run-exchange :
      (id : ℕ) (job : Job) (target : Bytes) (answers : List Bytes) (ts : List (ℕ × Task))
      (c : MuxConn ℕ ℕ) (s : MuxSession ℕ) (sent : List Frame)
      → target_of job ≡ some target
      → IsFrame (open_stream id target)
      → is_dest_allowed target ≡ true
      → bypasses should_bypass job ≡ false
      → c.reading ≡ true
      → s.reader ≡ reading
      → s.writer_up ≡ true
      → run should_bypass (exchange id job answers) (level ts c s sent)
        ≡ level ts
            (client_after id answers c)
            (server_after id job target answers s)
            (sent_open id job target sent ++ close id ∷ [])
  run-exchange id job target answers ts c s sent g w a h r q u =
      let at_server = lookup-registered id s.registry.inner in
      let relays : mem_id id (id ∷ s.relays) ≡ true =
        ap (λ b. b || mem_id id s.relays) (own_id id) in
      let opened = sent ++ open_stream id target ∷ [] in
      let begun = opened ++ map (data_frame id) (first_data job) in
      let all_up = sent_open id job target sent in
      let got_first = has_got id (first_data job) (relayed id target s) in
      run-then should_bypass (until_answer id job) _ _ _ _
        (run-until_answer id job target ts c s sent g w a h r q u)
        (run-then should_bypass (behind job) _ _ _ _
          (run-behind should_bypass id job target ts (told id c) (relayed id target s) opened g w.0
            refl at_server)
          (run-then should_bypass (uploading (reads_of_job job)) _ _ _ _
            (run-uploading should_bypass id (reads_of_job job) (ending id) ts (told id c) got_first
              begun w.0 refl at_server)
            (run-then should_bypass (downloading id answers) _ _ _ _
              (run-downloading should_bypass id answers ((id, ending id) ∷ ts) (told id c)
                (has_got id (reads_of_job job) got_first) all_up w.0 r u relays
                (lookup-registered id c.registry.inner))
              (run-closing should_bypass id ts (client_open id answers c)
                (server_open id job target answers s) all_up w.0 r refl u relays))))

  run-until_answer-Answered :
      (id : ℕ) (job : Job) (target : Bytes) (ts : List (ℕ × Task)) (c : MuxConn ℕ ℕ)
      (s : MuxSession ℕ) (sent : List Frame)
      → target_of job ≡ some target
      → IsFrame (open_stream id target)
      → is_dest_allowed target ≡ true
      → bypasses should_bypass job ≡ false
      → c.reading ≡ true
      → s.reader ≡ reading
      → s.writer_up ≡ true
      → Answered id c (run should_bypass (until_answer id job) (level ts c s sent))
  run-until_answer-Answered id job target ts c s sent g w a h r q u =
      subst (Answered id c) (sym (run-until_answer id job target ts c s sent g w a h r q u)) (
        waits_for-rest id job target ts g,
        refl,
        lookup-removed id (insert id id c.pending_acks),
        lookup-registered id c.registry.inner,
        lookup-registered id s.registry.inner,
      )

  -- From any state in which each end has taken all that the other sent and reader and writer run, with
  -- whatever other handlers and streams, any handler whose peer asks for an allowed target, in UTF-8 and
  -- with an id of a u32, that does not bypass the tunnel can go through as a whole: the target is
  -- dialled, its TCP side gets all the data of the local peer, the handler gets all that the target
  -- answers, and when both have ended the handler has returned and the stream is gone at both ends.
  -- Where the handler comes to its wait for the OPEN_ACK, the last that the reader has handed to a
  -- one-shot is success to the handler's own, which is the answer that it goes on with.
  pub run-exchange-Served :
      (id : ℕ) (job : Job) (target : Bytes) (answers : List Bytes) (ts : List (ℕ × Task))
      (c : MuxConn ℕ ℕ) (s : MuxSession ℕ) (sent : List Frame)
      → target_of job ≡ some target
      → IsFrame (open_stream id target)
      → is_dest_allowed target ≡ true
      → bypasses should_bypass job ≡ false
      → c.reading ≡ true
      → s.reader ≡ reading
      → s.writer_up ≡ true
      → Answered id c (run should_bypass (until_answer id job) (level ts c s sent))
        × Served id job target answers ts c s
            (run should_bypass (exchange id job answers) (level ts c s sent))
  run-exchange-Served id job target answers ts c s sent g w a h r q u = (
    run-until_answer-Answered id job target ts c s sent g w a h r q u,
    subst (Served id job target answers ts c s)
        (sym (run-exchange id job target answers ts c s sent g w a h r q u))
        (
          payloads_to-all id job s.delivered,
          payloads_to-gets id answers c.delivered,
          refl,
          refl,
          without_own id s.relays,
          without_own id s.leaving,
          lookup-closed id _,
          lookup-closed id _,
          refl,
          refl,
        ),
  )
