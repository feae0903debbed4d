-- ===== src/Client/Handlers/Uploads.antt =====
-- What the handlers send of their peers' data.
use echo_proxy_core.Base.{
  ℕ, ◌≡◌, refl, sym, ◌∙◌, ◌⊎◌, inl, inr, Bool, true, false, Option, none, some, List, [], ◌∷◌, ◌++◌,
  Bytes, codes, if◌then◌else◌, Bool-cases,
}
use echo_proxy_core.Frame.{data_frame, close}
use echo_proxy_core.Text.{starts_with}
use echo_proxy_core.Client.Task.{
  Task, Call, Reply, finish, ask, close_stream, send_frame, spawn_writer, Ends, Ends-seq,
}
use echo_proxy_core.Client.Http.{Request}
use echo_proxy_core.Client.Address.{bare_host_port, split_host_port}
use echo_proxy_core.Client.Handlers.{
  upload, do_mux_relay, start_http, handle_via_mux, handle_direct, handle_local_connection,
  handle_local_connection_resilient, handle_socks_direct, handle_socks_via_mux,
  handle_socks_connection_resilient,
}
use mathlib.Core.List.{append_assoc, append-nil}

-- The payloads of the DATA frames that were sent, oldest first; whether the relay began, and whether a
-- send failed.
pub record Upload : Type 0 where
  pub sent : List Bytes
  pub relays : Bool
  pub cut : Bool

abbrev pub next : Upload → (c : Call) → Reply c → Upload
next s (send_frame (data_frame j bytes)) true = record s { sent = s.sent ++ bytes ∷ [] }
next s (send_frame f) true = s
next s (send_frame f) false = record s { cut = true }
next s (spawn_writer j) r = record s { relays = true }
next s _ r = s

-- What was sent is a first part of `expected`, and all of it if the relay began and no send failed.
abbrev pub Carried : List Bytes → Upload → Type 0
Carried expected s =
    ((rest : List Bytes) × (expected ≡ s.sent ++ rest))
    × ((s.relays ≡ false) ⊎ (s.cut ≡ true) ⊎ (s.sent ≡ expected))

abbrev pub nothing_sent : Upload
nothing_sent = record { sent = []; relays = false; cut = false }

abbrev pub FromUpload : List Bytes → Upload → Task → Type 0
FromUpload expected s t = Ends next (Carried expected) s t

abbrev pub Carries : List Bytes → Task → Type 0
Carries expected t = FromUpload expected nothing_sent t

-- The data of an HTTP client: behind CONNECT what it sends, else its request first.
abbrev pub data_of : Option Request → List Bytes → List Bytes
data_of none reads = reads
data_of (some request) reads =
    if starts_with (codes "CONNECT ") request.headers
    then reads
    else (request.headers ++ request.body) ∷ reads

upload-Carries :
    (id : ℕ) (expected before reads : List Bytes)
    → expected ≡ before ++ reads
    → FromUpload expected (record { sent = before; relays = true; cut = false }) (upload id reads)
unfolding upload
upload-Carries id expected before [] e = (([], e), inr (inr (sym (e ∙ append-nil before))))
upload-Carries id expected before (b ∷ reads) e = elim [
  | true ↦
      upload-Carries id expected (before ++ b ∷ []) reads
        (e ∙ sym (append_assoc before (b ∷ []) reads))
  | false ↦ ((b ∷ reads, e), inr (inl refl))
]

close-Carries :
    (id : ℕ) (expected : List Bytes) (s : Upload)
    → Carried expected s
    → FromUpload expected s (ask (send_frame (close id)) (λ _. ask (close_stream id) (λ _. finish)))
close-Carries id expected s h = elim [ true ↦ λ _. h | false ↦ λ _. (h.0, inr (inl refl)) ]

do_mux_relay-Carries :
    (id : ℕ) (expected before reads : List Bytes)
    → expected ≡ before ++ reads
    → FromUpload expected
        (record { sent = before; relays = false; cut = false })
        (do_mux_relay id reads)
unfolding do_mux_relay
do_mux_relay-Carries id expected before reads e = λ _.
    Ends-seq next (Carried expected) (Carried expected)
      (record { sent = before; relays = true; cut = false }) (upload id reads) _
      (upload-Carries id expected before reads e) (close-Carries id expected)

start_http-Carries :
    (id : ℕ) (is_connect : Bool) (request : Bytes) (reads : List Bytes)
    → Carries
        (if is_connect then reads else request ∷ reads)
        (start_http id is_connect request reads)
unfolding start_http
start_http-Carries id true request reads = elim [
  | true ↦ do_mux_relay-Carries id reads [] reads refl
  | false ↦ λ _. ((reads, refl), inl refl)
]
start_http-Carries id false request reads = elim [
  | true ↦ do_mux_relay-Carries id (request ∷ reads) (request ∷ []) reads refl
  | false ↦ λ _. ((request ∷ reads, refl), inl refl)
]

handle_via_mux-Carries :
    (timeout : Option ℕ) (id : ℕ) (request : Request) (reads : List Bytes)
    → Carries (data_of (some request) reads) (handle_via_mux timeout id request reads)
unfolding handle_via_mux
handle_via_mux-Carries timeout id request reads = λ _ _. elim [
  | false ↦ λ _. ((_, refl), inl refl)
  | true ↦ elim [
    | none ↦ λ _ _. ((_, refl), inl refl)
    | some false ↦ λ _ _. ((_, refl), inl refl)
    | some true ↦ start_http-Carries id _ _ reads
  ]
]

handle_direct-Carries :
    (expected : List Bytes) (request : Request) → Carries expected (handle_direct request)
unfolding handle_direct
handle_direct-Carries expected request = elim [
  | false ↦ λ _. ((expected, refl), inl refl)
  | true ↦ elim (Bool-cases (starts_with (codes "CONNECT ") request.headers)) [
    | inl c ↦
        rw c
          (elim [ true ↦ λ _. ((expected, refl), inl refl) | false ↦ ((expected, refl), inl refl) ])
    | inr c ↦
        rw c
          (elim [ true ↦ λ _. ((expected, refl), inl refl) | false ↦ ((expected, refl), inl refl) ])
  ]
]

handle_socks_direct-Carries :
    (expected : List Bytes) (host : Bytes) → Carries expected (handle_socks_direct host)
unfolding handle_socks_direct
handle_socks_direct-Carries expected host = elim [
  | false ↦ λ _. ((expected, refl), inl refl)
  | true ↦ λ _ _. ((expected, refl), inl refl)
]

handle_socks_via_mux-Carries :
    (id : ℕ) (host : Bytes) (reads : List Bytes)
    → Carries reads (handle_socks_via_mux id host reads)
unfolding handle_socks_via_mux
handle_socks_via_mux-Carries id host reads = λ _ _. elim [
  | false ↦ λ _ _. ((reads, refl), inl refl)
  | true ↦ elim [
    | none ↦ λ _ _. ((reads, refl), inl refl)
    | some false ↦ λ _ _. ((reads, refl), inl refl)
    | some true ↦ elim [
      | true ↦ do_mux_relay-Carries id reads [] reads refl
      | false ↦ λ _. ((reads, refl), inl refl)
    ]
  ]
]

module _ (route : Bytes → ℕ → Bool) (id : ℕ) (reads : List Bytes) where
  local-Carries :
      (request : Option Request)
      → Carries (data_of request reads) (handle_local_connection route id request reads)
  unfolding handle_local_connection
  local-Carries none = ((reads, refl), inl refl)
  local-Carries (some request) =
      elim (Bool-cases (route (bare_host_port request.host).0 (bare_host_port request.host).1)) [
        | inl d ↦ rw d (handle_direct-Carries (data_of (some request) reads) request)
        | inr d ↦ rw d (handle_via_mux-Carries none id request reads)
      ]

  resilient-Carries :
      (request : Option Request)
      → Carries (data_of request reads) (handle_local_connection_resilient route id request reads)
  unfolding handle_local_connection_resilient
  resilient-Carries none = ((reads, refl), inl refl)
  resilient-Carries (some request) =
      elim (Bool-cases (route (bare_host_port request.host).0 (bare_host_port request.host).1)) [
        | inl d ↦ rw d (handle_direct-Carries (data_of (some request) reads) request)
        | inr d ↦ rw d (elim [
          | false ↦ λ _. ((_, refl), inl refl)
          | true ↦ handle_via_mux-Carries _ id request reads
        ])
      ]

  socks-Carries :
      (target : Option Bytes)
      → Carries reads (handle_socks_connection_resilient route id target reads)
  unfolding handle_socks_connection_resilient
  socks-Carries none = ((reads, refl), inl refl)
  socks-Carries (some host) =
      elim (Bool-cases (route (split_host_port host).0 (split_host_port host).1)) [
        | inl d ↦ rw d (handle_socks_direct-Carries reads host)
        | inr d ↦ rw d (elim [
          | false ↦ λ _. ((reads, refl), inl refl)
          | true ↦ handle_socks_via_mux-Carries id host reads
        ])
      ]

  -- Whatever the calls answer, when one of the three request handlers returns, the payloads of the DATA
  -- frames that it sent are, in order, the first of its peer's data, and all of it if the relay began
  -- and no send failed. The data of an HTTP client are its reads behind CONNECT, and its request and
  -- then its reads otherwise; those of a SOCKS5 client are its reads.
  pub handlers-Carry :
      (request : Option Request) (target : Option Bytes)
      → Carries (data_of request reads) (handle_local_connection route id request reads)
        × Carries (data_of request reads) (handle_local_connection_resilient route id request reads)
        × Carries reads (handle_socks_connection_resilient route id target reads)
  handlers-Carry request target =
      (local-Carries request, resilient-Carries request, socks-Carries target)
