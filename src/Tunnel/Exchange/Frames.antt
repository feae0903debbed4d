-- ===== src/Tunnel/Exchange/Frames.antt =====
-- A frame sent and taken, in either direction.
use echo_proxy_core.Base.{
  ℕ, suc, ◌≡◌, refl, sym, ap, ◌∙◌, Bool, true, some, List, [], ◌∷◌, ◌++◌, arith, Bytes, length,
  get_elem?, length-append, ok,
}
use mathlib.Core.List.{append-nil}
use echo_proxy_core.Frame.{Frame, IsFrame}
use echo_proxy_core.Client.Task.{Task, Call, Reply, ask, send_frame}
use echo_proxy_core.Client.Conn
use echo_proxy_core.Client.Conn.{MuxConn}
use echo_proxy_core.Client.Pool
use echo_proxy_core.Client.Pool.{call_of, advance, perform}
use echo_proxy_core.Server.Session as Mux
use echo_proxy_core.Server.Session.{MuxSession, reading, mem_id, send}
use echo_proxy_core.Tunnel.{
  Tunnel, Event, up_taken, step, run, take_up, take_down, stream_id, is_reading, put_on_wire,
  channel_of,
}
use echo_proxy_core.Tunnel.ServerEnd
use echo_proxy_core.Tunnel.ClientEnd
use echo_proxy_core.Tunnel.Exchange.{grants, moving, level}

last_element : (xs : List Frame) (f : Frame) → get_elem? (xs ++ f ∷ []) (length xs) ≡ some f
last_element [] f = refl
last_element (x ∷ xs) f = last_element xs f

length-last : (xs : List Frame) (f : Frame) → length (xs ++ f ∷ []) ≡ suc (length xs)
length-last xs f = omega (arith, length-append {0} xs (f ∷ []))

-- Both ends, with what each has taken.
abbrev ends : List (ℕ × Task) → MuxConn ℕ ℕ → List Frame → MuxSession ℕ → ℕ → ℕ → Tunnel
ends ts c sent s i j = record {
  pool = record { running = ts; conn = c };
  server = s;
  sent_up = sent;
  taken_up = i;
  taken_down = j;
}

ends-eq :
    (ts : List (ℕ × Task)) (c : MuxConn ℕ ℕ) (sent : List Frame) (s s' : MuxSession ℕ)
    (i i' j j' : ℕ)
    → s ≡ s'
    → i ≡ i'
    → j ≡ j'
    → ends ts c sent s i j ≡ ends ts c sent s' i' j'
ends-eq ts c sent s s' i i' j j' p q r =
    ap (λ s. ends ts c sent s i j) p
    ∙ ap (λ i. ends ts c sent s' i j) q
    ∙ ap (λ j. ends ts c sent s' i' j) r

is_reading_of : (r : Mux.Reader) → r ≡ reading → is_reading r ≡ true
is_reading_of r h = rw h refl

module _ (should_bypass : Bytes → ℕ → Bool) where
  run-append :
      (es es' : List Event) (t : Tunnel)
      → run should_bypass (es ++ es') t ≡ run should_bypass es' (run should_bypass es t)
  unfolding run
  run-append [] es' t = refl
  run-append (e ∷ es) es' t = run-append es es' (step should_bypass e t)

  -- One part of a run after another.
  pub run-then :
      (es es' : List Event) (t t' t'' : Tunnel)
      → run should_bypass es t ≡ t'
      → run should_bypass es' t' ≡ t''
      → run should_bypass (es ++ es') t ≡ t''
  run-then es es' t t' t'' p q = run-append es es' t ∙ ap (run should_bypass es') p ∙ q

  take_up-last :
      (f : Frame) (ts : List (ℕ × Task)) (c : MuxConn ℕ ℕ) (s : MuxSession ℕ) (sent : List Frame)
      → IsFrame f
      → s.reader ≡ reading
      → take_up true (ends ts c (sent ++ f ∷ []) s (length sent) (length s.outbox))
        ≡ level ts c (Mux.dispatch (ok f) true (stream_id f) s) (sent ++ f ∷ [])
  unfolding take_up
  take_up-last f ts c s sent w r =
      rw (take_up, last_element sent f, is_reading_of s.reader r)
        (ends-eq ts c (sent ++ f ∷ []) _ _ _ _ _ _ (ServerEnd.step-taken f true s r w)
          (sym (length-last sent f))
          (ap length (sym (ServerEnd.dispatch-outbox (ok f) true (stream_id f) s))))

  -- The handler that was spawned last makes a call that sends nothing.
  pub run-call :
      (id : ℕ) (q : Call) (k : Reply q → Task) (ts : List (ℕ × Task)) (c c' : MuxConn ℕ ℕ)
      (s : MuxSession ℕ) (sent : List Frame)
      → perform (some q) (channel_of (some q)) (channel_of (some q)) c ≡ c'
      → put_on_wire grants (some q) ≡ []
      → run should_bypass (moving ∷ []) (level ((id, ask q k) ∷ ts) c s sent)
        ≡ level ((id, k (grants q)) ∷ ts) c' s sent
  unfolding run step Pool.step advance call_of
  run-call id q k ts c c' s sent p w =
      ap
        (λ c. record (level ((id, k (grants q)) ∷ ts) c s sent) {
          sent_up = sent ++ put_on_wire grants (some q);
        })
        p
      ∙ ap (λ l. record (level ((id, k (grants q)) ∷ ts) c' s sent) { sent_up = l })
          (ap (λ l. sent ++ l) w ∙ append-nil sent)

  -- The handler that was spawned last sends a frame, and the server takes it.
  pub run-frame_up :
      (id : ℕ) (f : Frame) (k : Bool → Task) (ts : List (ℕ × Task)) (c : MuxConn ℕ ℕ)
      (s : MuxSession ℕ) (sent : List Frame)
      → IsFrame f
      → s.reader ≡ reading
      → run should_bypass
          (moving ∷ up_taken true ∷ [])
          (level ((id, ask (send_frame f) k) ∷ ts) c s sent)
        ≡ level ((id, k true) ∷ ts) c (Mux.dispatch (ok f) true (stream_id f) s) (sent ++ f ∷ [])
  unfolding run step Pool.step advance call_of perform
  run-frame_up id f k ts c s sent w r = take_up-last f ((id, k true) ∷ ts) c s sent w r

  -- The client takes the last frame of the server.
  pub take_down-last :
      (f : Frame) (ts : List (ℕ × Task)) (c : MuxConn ℕ ℕ) (s : MuxSession ℕ)
      (sent out : List Frame)
      → IsFrame f
      → c.reading ≡ true
      → s.outbox ≡ out ++ f ∷ []
      → take_down should_bypass (ends ts c sent s (length sent) (length out))
        ≡ level ts (Conn.dispatch (ok f) c) s sent
  unfolding take_down Pool.step
  take_down-last f ts c s sent out w r o =
      let e : get_elem? s.outbox (length out) ≡ some f = rw o (last_element out f) in
      rw (take_down, e)
        (ap (λ c. ends ts c sent s (length sent) (suc (length out))) (ClientEnd.step-taken f c r w)
          ∙ ends-eq ts _ sent s s _ _ _ _ refl refl (sym (length-last out f) ∙ ap length (sym o)))
