-- ===== src/Tunnel/Exchange/Data.antt =====
-- The data of a stream that is open, in either direction.
use echo_proxy_core.Base.{
  ℕ, ◌^◌, ◌<◌, ◌≡◌, refl, sym, ap, ◌∙◌, Bool, true, false, some, List, [], ◌∷◌, ◌++◌, map, arith,
  Bytes, ◌==◌, if◌then◌else◌, length, ok,
}
use mathlib.Core.List.{append_assoc, append-nil}
use echo_proxy_core.Frame.{Frame, data_frame}
use echo_proxy_core.Session
use echo_proxy_core.Session.{Delivery}
use echo_proxy_core.Session.Table.{lookup}
use echo_proxy_core.Client.Task.{Task, finish, ◌>>◌}
use echo_proxy_core.Client.Handlers.{upload}
use echo_proxy_core.Client.Conn
use echo_proxy_core.Client.Conn.{MuxConn}
use echo_proxy_core.Server.Session as Mux
use echo_proxy_core.Server.Session.{MuxSession, reading, mem_id, send}
use echo_proxy_core.Tunnel.{Event, up_taken, down_taken, tcp_read, step, run, take_down}
use echo_proxy_core.Tunnel.Flow.{payloads_to}
use echo_proxy_core.Tunnel.Exchange.{moving, level}
use echo_proxy_core.Tunnel.Exchange.Frames.{run-frame_up, take_down-last}

-- One payload after another for the channel of the stream.
abbrev pub gets : ℕ → List Bytes → List (Delivery ℕ) → List (Delivery ℕ)
gets id [] ds = ds
gets id (bytes ∷ rest) ds = gets id rest (record { to = id; payload = bytes } ∷ ds)

pub payloads_to-gets :
    (id : ℕ) (bs : List Bytes) (ds : List (Delivery ℕ))
    → payloads_to id (gets id bs ds) ≡ payloads_to id ds ++ bs
payloads_to-gets id [] ds = sym (append-nil (payloads_to id ds))
payloads_to-gets id (b ∷ bs) ds =
    let own : (id == id) ≡ true = ground arith in
    payloads_to-gets id bs (record { to = id; payload = b } ∷ ds)
    ∙ ap (λ q. (payloads_to id ds ++ (if q then b ∷ [] else [])) ++ bs) own
    ∙ append_assoc (payloads_to id ds) (b ∷ []) bs

-- Each send is taken at once, and so is each read of the server's TCP side.
abbrev pub uploading : List Bytes → List Event
uploading [] = []
uploading (b ∷ bs) = moving ∷ up_taken true ∷ uploading bs

abbrev pub downloading : ℕ → List Bytes → List Event
downloading id [] = []
downloading id (b ∷ bs) = tcp_read id b ∷ down_taken ∷ downloading id bs

abbrev pub has_got : ℕ → List Bytes → MuxSession ℕ → MuxSession ℕ
has_got id bs s = record s { delivered = gets id bs s.delivered }

abbrev pub has_sent : ℕ → List Bytes → MuxSession ℕ → MuxSession ℕ
has_sent id bs s = record s { outbox = s.outbox ++ map (data_frame id) bs }

abbrev pub was_told : ℕ → List Bytes → MuxConn ℕ ℕ → MuxConn ℕ ℕ
was_told id bs c = record c { delivered = gets id bs c.delivered }

pub server_deliver :
    (id : ℕ) (b : Bytes) (s : MuxSession ℕ)
    → lookup id s.registry.inner ≡ some id
    → Mux.dispatch (ok (data_frame id b)) true id s ≡ has_got id (b ∷ []) s
unfolding Mux.dispatch Mux.deliver Session.route
server_deliver id b s o = rw (Mux.dispatch, Mux.deliver, Session.route, o) refl

server_read :
    (id : ℕ) (b : Bytes) (s : MuxSession ℕ)
    → s.writer_up ≡ true
    → mem_id id s.relays ≡ true
    → Mux.step (Mux.tcp_read id b) s ≡ has_sent id (b ∷ []) s
unfolding Mux.step Mux.relay_read Mux.send
server_read id b s u m = rw (Mux.step, m, Mux.relay_read, u, Mux.send) refl

client_deliver :
    (id : ℕ) (b : Bytes) (c : MuxConn ℕ ℕ)
    → lookup id c.registry.inner ≡ some id
    → Conn.dispatch (ok (data_frame id b)) c ≡ was_told id (b ∷ []) c
unfolding Conn.dispatch Conn.deliver Session.route
client_deliver id b c o = rw (Conn.dispatch, Conn.deliver, Session.route, o) refl

module _ (should_bypass : Bytes → ℕ → Bool) where
  pub run-uploading :
      (id : ℕ) (bs : List Bytes) (rest : Task) (ts : List (ℕ × Task)) (c : MuxConn ℕ ℕ)
      (s : MuxSession ℕ) (sent : List Frame)
      → id < 2 ^ 32
      → s.reader ≡ reading
      → lookup id s.registry.inner ≡ some id
      → run should_bypass (uploading bs) (level ((id, upload id bs >> rest) ∷ ts) c s sent)
        ≡ level ((id, rest) ∷ ts) c (has_got id bs s) (sent ++ map (data_frame id) bs)
  unfolding run upload
  run-uploading id [] rest ts c s sent w r o =
      ap (level ((id, rest) ∷ ts) c s) (sym (append-nil sent))
  run-uploading id (b ∷ bs) rest ts c s sent w r o =
      let f = data_frame id b in
      ap (run should_bypass (uploading bs)) (
        run-frame_up should_bypass id f
          (λ r. elim r [ true ↦ upload id bs | false ↦ finish ] >> rest) ts c s sent w r)
      ∙ ap
          (λ s.
            run should_bypass (uploading bs)
              (level ((id, upload id bs >> rest) ∷ ts) c s (sent ++ f ∷ [])))
          (server_deliver id b s o)
      ∙ run-uploading id bs rest ts c (has_got id (b ∷ []) s) (sent ++ f ∷ []) w r o
      ∙ ap (level ((id, rest) ∷ ts) c (has_got id (b ∷ bs) s))
          (append_assoc sent (f ∷ []) (map (data_frame id) bs))

  pub run-downloading :
      (id : ℕ) (bs : List Bytes) (ts : List (ℕ × Task)) (c : MuxConn ℕ ℕ) (s : MuxSession ℕ)
      (sent : List Frame)
      → id < 2 ^ 32
      → c.reading ≡ true
      → s.writer_up ≡ true
      → mem_id id s.relays ≡ true
      → lookup id c.registry.inner ≡ some id
      → run should_bypass (downloading id bs) (level ts c s sent)
        ≡ level ts (was_told id bs c) (has_sent id bs s) sent
  unfolding run step
  run-downloading id [] ts c s sent w r u m o =
      ap (λ out. level ts c (record s { outbox = out }) sent) (sym (append-nil s.outbox))
  run-downloading id (b ∷ bs) ts c s sent w r u m o =
      let f = data_frame id b in
      ap
        (λ s'.
          run should_bypass (downloading id bs) (
            take_down should_bypass (record (level ts c s' sent) { taken_down = length s.outbox })))
        (server_read id b s u m)
      ∙ ap (run should_bypass (downloading id bs))
          (take_down-last should_bypass f ts c (has_sent id (b ∷ []) s) sent s.outbox w r refl)
      ∙ ap (λ c. run should_bypass (downloading id bs) (level ts c (has_sent id (b ∷ []) s) sent))
          (client_deliver id b c o)
      ∙ run-downloading id bs ts (was_told id (b ∷ []) c) (has_sent id (b ∷ []) s) sent w r u m o
      ∙ ap (λ out. level ts (was_told id (b ∷ bs) c) (record s { outbox = out }) sent)
          (append_assoc s.outbox (f ∷ []) (map (data_frame id) bs))
