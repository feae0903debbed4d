-- ===== src/Client/Handlers/Frames.antt =====
-- Which frames the request handlers send.
use echo_proxy_core.Base.{
  ℕ, inl, inr, Bool, true, false, Option, none, some, List, [], ◌∷◌, Bytes, codes, Bool-cases,
}
use echo_proxy_core.Frame.{Frame, open_stream, data_frame, close}
use echo_proxy_core.Text.{starts_with}
use echo_proxy_core.Client.Task.{Task, Call, Reply, finish, ask, send_frame, close_stream, ◌>>◌}
use echo_proxy_core.Client.Http.{Request}
use echo_proxy_core.Client.Address.{bare_host_port, split_host_port}
use echo_proxy_core.Client.Handlers.{
  upload, do_mux_relay, start_http, handle_via_mux, handle_direct, handle_socks_direct,
  handle_socks_via_mux, handle_local_connection, handle_local_connection_resilient,
  handle_socks_connection_resilient,
}

-- Every frame that the task sends satisfies `P`, whatever its calls answer.
abbrev pub SentIs : (Frame → Type 0) → Call → Type 0
SentIs P (send_frame f) = P f
SentIs P _ = Unit

abbrev pub Sends : (Frame → Type 0) → Task → Type 0
Sends P finish = Unit
Sends P (ask c k) = SentIs P c × ((r : Reply c) → Sends P (k r))

module _ (P : Frame → Type 0) (id : ℕ) (data_ok : (bytes : Bytes) → P (data_frame id bytes))
    (close_ok : P (close id)) where
  upload-Sends : (reads : List Bytes) (t : Task) → Sends P t → Sends P (upload id reads >> t)
  unfolding upload
  upload-Sends [] t h = h
  upload-Sends (b ∷ reads) t h = (data_ok b, elim [ true ↦ upload-Sends reads t h | false ↦ h ])

  do_mux_relay-Sends : (reads : List Bytes) → Sends P (do_mux_relay id reads)
  unfolding do_mux_relay
  do_mux_relay-Sends reads = (
    tt,
    λ _.
        upload-Sends reads (ask (send_frame (close id)) (λ _. ask (close_stream id) (λ _. finish)))
          (close_ok, λ _. (tt, λ _. tt)),
  )

  start_http-Sends :
      (connect : Bool) (request : Bytes) (reads : List Bytes)
      → Sends P (start_http id connect request reads)
  unfolding start_http
  start_http-Sends true request reads =
      (tt, elim [ true ↦ do_mux_relay-Sends reads | false ↦ (tt, λ _. tt) ])
  start_http-Sends false request reads =
      (data_ok request, elim [ true ↦ do_mux_relay-Sends reads | false ↦ (tt, λ _. tt) ])

  handle_via_mux-Sends :
      (timeout : Option ℕ) (request : Request) (reads : List Bytes)
      → P (open_stream id request.host)
      → Sends P (handle_via_mux timeout id request reads)
  unfolding handle_via_mux
  handle_via_mux-Sends timeout request reads o = (
    tt,
    λ _. (
      tt,
      λ _. (
        o,
        elim [
          | false ↦ (tt, λ _. tt)
          | true ↦ (
            tt,
            elim [
              | none ↦ (tt, λ _. (tt, λ _. tt))
              | some false ↦ (tt, λ _. (tt, λ _. tt))
              | some true ↦ start_http-Sends _ _ reads
            ],
          )
        ],
      ),
    ),
  )

  handle_socks_via_mux-Sends :
      (host : Bytes) (reads : List Bytes)
      → P (open_stream id host)
      → Sends P (handle_socks_via_mux id host reads)
  unfolding handle_socks_via_mux
  handle_socks_via_mux-Sends host reads o = (
    tt,
    λ _. (
      tt,
      λ _. (
        o,
        elim [
          | false ↦ (tt, λ _. (tt, λ _. tt))
          | true ↦ (
            tt,
            elim [
              | none ↦ (tt, λ _. (tt, λ _. tt))
              | some false ↦ (tt, λ _. (tt, λ _. tt))
              | some true ↦ (tt, elim [ true ↦ do_mux_relay-Sends reads | false ↦ (tt, λ _. tt) ])
            ],
          )
        ],
      ),
    ),
  )

  handle_direct-Sends : (request : Request) → Sends P (handle_direct request)
  unfolding handle_direct
  handle_direct-Sends request = (
    tt,
    elim [
      | false ↦ (tt, λ _. tt)
      | true ↦ elim (Bool-cases (starts_with (codes "CONNECT ") request.headers)) [
        | inl c ↦ rw c ((tt, elim [ true ↦ (tt, λ _. tt) | false ↦ tt ]))
        | inr c ↦ rw c ((tt, elim [ true ↦ (tt, λ _. tt) | false ↦ tt ]))
      ]
    ],
  )

  handle_socks_direct-Sends : (host : Bytes) → Sends P (handle_socks_direct host)
  unfolding handle_socks_direct
  handle_socks_direct-Sends host =
      (tt, elim [ false ↦ (tt, λ _. tt) | true ↦ (tt, λ _. (tt, λ _. tt)) ])

  module _ (route : Bytes → ℕ → Bool) (reads : List Bytes) where
    pub local-Sends :
        (request : Request)
        → P (open_stream id request.host)
        → Sends P (handle_local_connection route id (some request) reads)
    unfolding handle_local_connection
    local-Sends request o =
        elim (Bool-cases (route (bare_host_port request.host).0 (bare_host_port request.host).1)) [
          | inl d ↦ rw d (handle_direct-Sends request)
          | inr d ↦ rw d (handle_via_mux-Sends none request reads o)
        ]

    pub resilient-Sends :
        (request : Request)
        → P (open_stream id request.host)
        → Sends P (handle_local_connection_resilient route id (some request) reads)
    unfolding handle_local_connection_resilient
    resilient-Sends request o =
        elim (Bool-cases (route (bare_host_port request.host).0 (bare_host_port request.host).1)) [
          | inl d ↦ rw d (handle_direct-Sends request)
          | inr d ↦
              rw d (
                (
                  tt,
                  elim [ false ↦ (tt, λ _. tt) | true ↦ handle_via_mux-Sends _ request reads o ],
                ))
        ]

    pub socks-Sends :
        (host : Bytes)
        → P (open_stream id host)
        → Sends P (handle_socks_connection_resilient route id (some host) reads)
    unfolding handle_socks_connection_resilient
    socks-Sends host o =
        elim (Bool-cases (route (split_host_port host).0 (split_host_port host).1)) [
          | inl d ↦ rw d (handle_socks_direct-Sends host)
          | inr d ↦ rw d (
              (tt, elim [ false ↦ (tt, λ _. tt) | true ↦ handle_socks_via_mux-Sends host reads o ]))
        ]
