-- ===== src/Client/Handlers/Protocol.antt =====
-- The order in which a request handler uses its stream.
use echo_proxy_core.Base.{
  ℕ, ◌≡◌, refl, inl, inr, Bool, true, false, not, ◌||◌, Option, none, some, List, [], ◌∷◌, arith,
  Bytes, codes, ◌==◌, if◌then◌else◌, Bool-cases, or_default,
}
use echo_proxy_core.Frame.{Frame, open_stream, data_frame, close}
use echo_proxy_core.Text.{starts_with}
use echo_proxy_core.Client.Task.{
  Task, Call, Reply, finish, ask, register, insert_ack, close_stream, send_frame, recv_ack,
  write_local, write_upstream, connect, spawn_writer, relay_tcp, snapshot_mux, Ends, Ends-seq,
}
use echo_proxy_core.Client.Http.{Request}
use echo_proxy_core.Client.Socks.{socks5_reply, socks5_rep_success, socks5_rep_general_failure}
use echo_proxy_core.Client.Address.{bare_host_port, split_host_port}
use echo_proxy_core.Client.Handlers.{
  bad_gateway, established, upload, do_mux_relay, start_http, handle_via_mux, handle_direct,
  handle_local_connection, handle_local_connection_resilient, handle_socks_direct,
  handle_socks_via_mux, handle_socks_connection_resilient,
}

-- How far a stream has come: not used, not used since the target is `connected` directly, registered,
-- its one-shot inserted, OPEN sent, OPEN_ACK with success received, the peer told (or the request
-- sent), its relay running, its relay broken, CLOSE sent or tried; `failing` must be unregistered,
-- `gone` is, and `bad` is a call out of order.
pub data Phase : Type 0 where
  idle connected registered awaiting opened granted ready relaying broken closing failing gone bad :
      Phase

unfoldable pub same_id : ℕ → ℕ → Bool
same_id a b = a == b

same_id_refl : (a : ℕ) → same_id a a ≡ true
unfolding same_id
same_id_refl a = ground arith

-- Whether a reply tells the peer of success: an HTTP status 2xx, or a SOCKS5 reply with code 0.
unfoldable pub tells_success : Bytes → Bool
unfolding starts_with
tells_success b = starts_with (codes "HTTP/1.1 2") b || starts_with (5 ∷ 0 ∷ []) b

success_established : tells_success established ≡ true
unfolding tells_success starts_with
success_established = refl

success_bad_gateway : tells_success bad_gateway ≡ false
unfolding tells_success starts_with
success_bad_gateway = refl

success_reply : tells_success (socks5_reply socks5_rep_success) ≡ true
unfolding tells_success starts_with socks5_reply
success_reply = refl

success_failure : tells_success (socks5_reply socks5_rep_general_failure) ≡ false
unfolding tells_success starts_with socks5_reply
success_failure = refl

abbrev need : Bool → Phase → Phase
need b p = if b then p else bad

-- The phase after a frame was sent, or not.
abbrev pub sent_in : ℕ → Phase → Frame → Bool → Phase
sent_in id awaiting (open_stream j dest) sent =
    need (same_id id j) (if sent then opened else failing)
sent_in id granted (data_frame j bytes) sent = need (same_id id j) (if sent then ready else failing)
sent_in id relaying (data_frame j bytes) sent =
    need (same_id id j) (if sent then relaying else broken)
sent_in id relaying (close j) sent = need (same_id id j) closing
sent_in id broken (close j) sent = need (same_id id j) closing
sent_in id _ _ sent = bad

-- The phase after a call and its answer. The peer is told of success where the target is connected, be
-- it directly or by an OPEN_ACK, and only there, and is told of failure everywhere else.
abbrev pub next : ℕ → Phase → (c : Call) → Reply c → Phase
next id idle (register j) r = need (same_id id j) registered
next id idle (connect h) r = if r then connected else idle
next id idle (write_local b) r = need (not (tells_success b)) idle
next id idle snapshot_mux r = idle
next id connected (write_local b) r = need (tells_success b) connected
next id connected (write_upstream b) r = connected
next id connected relay_tcp r = connected
next id registered (insert_ack j) r = need (same_id id j) awaiting
next id p (send_frame f) sent = sent_in id p f sent
next id opened (recv_ack j t) ack =
    need (same_id id j) (if or_default ack false then granted else failing)
next id granted (write_local b) r = need (tells_success b) (if r then ready else failing)
next id ready (spawn_writer j) r = need (same_id id j) relaying
next id failing (close_stream j) r = need (same_id id j) gone
next id closing (close_stream j) r = need (same_id id j) gone
next id gone (write_local b) r = need (not (tells_success b)) gone
next id _ _ r = bad

-- A handler may return where no stream is registered.
abbrev pub is_settled : Phase → Bool
is_settled idle = true
is_settled connected = true
is_settled gone = true
is_settled _ = false

abbrev pub Settles : ℕ → Task → Type 0
Settles id t = Ends (next id) (λ p. is_settled p ≡ true) idle t

abbrev FromPhase : ℕ → Phase → Task → Type 0
FromPhase id p t = Ends (next id) (λ q. is_settled q ≡ true) p t

abbrev is_uploading : Phase → Bool
is_uploading relaying = true
is_uploading broken = true
is_uploading _ = false

upload-Ends :
    (id : ℕ) (reads : List Bytes)
    → Ends (next id) (λ p. is_uploading p ≡ true) relaying (upload id reads)
unfolding upload
upload-Ends id [] = refl
upload-Ends id (b ∷ reads) =
    rw (same_id_refl id) (elim [ true ↦ upload-Ends id reads | false ↦ refl ])

close-Ends :
    (id : ℕ) (p : Phase)
    → is_uploading p ≡ true
    → FromPhase id p (ask (send_frame (close id)) (λ _. ask (close_stream id) (λ _. finish)))
close-Ends id relaying h = rw (same_id_refl id) λ _. rw (same_id_refl id) λ _. refl
close-Ends id broken h = rw (same_id_refl id) λ _. rw (same_id_refl id) λ _. refl
close-Ends id _ h = absurd cc

do_mux_relay-Ends : (id : ℕ) (reads : List Bytes) → FromPhase id ready (do_mux_relay id reads)
unfolding do_mux_relay
do_mux_relay-Ends id reads = rw (same_id_refl id) λ _.
    Ends-seq (next id) (λ p. is_uploading p ≡ true) (λ q. is_settled q ≡ true) relaying
      (upload id reads) _ (upload-Ends id reads) (close-Ends id)

abandon-Ends : (id : ℕ) → FromPhase id failing (ask (close_stream id) (λ _. finish))
abandon-Ends id = rw (same_id_refl id) λ _. refl

refuse-Ends :
    (id : ℕ) (reply : Bytes)
    → tells_success reply ≡ false
    → FromPhase id failing (ask (close_stream id) (λ _. ask (write_local reply) (λ _. finish)))
refuse-Ends id reply h = rw (same_id_refl id) λ _. rw h λ _. refl

start_http-Ends :
    (id : ℕ) (is_connect : Bool) (request : Bytes) (reads : List Bytes)
    → FromPhase id granted (start_http id is_connect request reads)
unfolding start_http
start_http-Ends id true request reads =
    rw success_established elim [ true ↦ do_mux_relay-Ends id reads | false ↦ abandon-Ends id ]
start_http-Ends id false request reads =
    rw (same_id_refl id) (elim [ true ↦ do_mux_relay-Ends id reads | false ↦ abandon-Ends id ])

handle_via_mux-Ends :
    (timeout : Option ℕ) (id : ℕ) (request : Request) (reads : List Bytes)
    → FromPhase id idle (handle_via_mux timeout id request reads)
unfolding handle_via_mux
handle_via_mux-Ends timeout id request reads = simp (same_id_refl id) λ _ _. elim [
  | false ↦ abandon-Ends id
  | true ↦ simp (same_id_refl id) (elim [
    | none ↦ refuse-Ends id bad_gateway success_bad_gateway
    | some false ↦ refuse-Ends id bad_gateway success_bad_gateway
    | some true ↦ start_http-Ends id _ _ reads
  ])
]

handle_direct-Ends : (id : ℕ) (request : Request) → FromPhase id idle (handle_direct request)
unfolding handle_direct
handle_direct-Ends id request = elim [
  | false ↦ rw success_bad_gateway λ _. refl
  | true ↦ elim (Bool-cases (starts_with (codes "CONNECT ") request.headers)) [
    | inl c ↦ rw (c, success_established) (elim [ true ↦ λ _. refl | false ↦ refl ])
    | inr c ↦ rw c (elim [ true ↦ λ _. refl | false ↦ refl ])
  ]
]

handle_socks_direct-Ends : (id : ℕ) (host : Bytes) → FromPhase id idle (handle_socks_direct host)
unfolding handle_socks_direct
handle_socks_direct-Ends id host = elim [
  | false ↦ rw success_failure λ _. refl
  | true ↦ rw success_reply λ _ _. refl
]

handle_socks_via_mux-Ends :
    (id : ℕ) (host : Bytes) (reads : List Bytes)
    → FromPhase id idle (handle_socks_via_mux id host reads)
unfolding handle_socks_via_mux
handle_socks_via_mux-Ends id host reads = simp (same_id_refl id) λ _ _. elim [
  | false ↦ refuse-Ends id (socks5_reply socks5_rep_general_failure) success_failure
  | true ↦ simp (same_id_refl id) (elim [
    | none ↦ refuse-Ends id (socks5_reply socks5_rep_general_failure) success_failure
    | some false ↦ refuse-Ends id (socks5_reply socks5_rep_general_failure) success_failure
    | some true ↦
        rw success_reply (elim [ true ↦ do_mux_relay-Ends id reads | false ↦ abandon-Ends id ])
  ])
]

module _ (route : Bytes → ℕ → Bool) (id : ℕ) (reads : List Bytes) where
  local-Settles :
      (request : Option Request) → Settles id (handle_local_connection route id request reads)
  unfolding handle_local_connection
  local-Settles none = refl
  local-Settles (some request) =
      elim (Bool-cases (route (bare_host_port request.host).0 (bare_host_port request.host).1)) [
        | inl d ↦ rw d (handle_direct-Ends id request)
        | inr d ↦ rw d (handle_via_mux-Ends none id request reads)
      ]

  resilient-Settles :
      (request : Option Request)
      → Settles id (handle_local_connection_resilient route id request reads)
  unfolding handle_local_connection_resilient
  resilient-Settles none = refl
  resilient-Settles (some request) =
      elim (Bool-cases (route (bare_host_port request.host).0 (bare_host_port request.host).1)) [
        | inl d ↦ rw d (handle_direct-Ends id request)
        | inr d ↦ rw d (elim [
          | false ↦ rw success_bad_gateway λ _. refl
          | true ↦ handle_via_mux-Ends _ id request reads
        ])
      ]

  socks-Settles :
      (target : Option Bytes) → Settles id (handle_socks_connection_resilient route id target reads)
  unfolding handle_socks_connection_resilient
  socks-Settles none = refl
  socks-Settles (some host) =
      elim (Bool-cases (route (split_host_port host).0 (split_host_port host).1)) [
        | inl d ↦ rw d (handle_socks_direct-Ends id host)
        | inr d ↦ rw d (elim [
          | false ↦ rw success_failure λ _. refl
          | true ↦ handle_socks_via_mux-Ends id host reads
        ])
      ]

  -- Whatever sends, reads, timeouts and peers answer, each of the three request handlers that use the
  -- tunnel goes through its stream in order, with the calls for its own id alone: registered before
  -- OPEN is sent, DATA sent only after a successful OPEN_ACK, no DATA after a failed send, one CLOSE
  -- behind the last DATA, and unregistered on every way to the return. A reply of success, an HTTP
  -- status 2xx or SOCKS5 code 0, is written only after a successful OPEN_ACK, or a direct connection
  -- that was made, and there no other reply is.
  pub handlers-Settle :
      (request : Option Request) (target : Option Bytes)
      → Settles id (handle_local_connection route id request reads)
        × Settles id (handle_local_connection_resilient route id request reads)
        × Settles id (handle_socks_connection_resilient route id target reads)
  handlers-Settle request target =
      (local-Settles request, resilient-Settles request, socks-Settles target)
