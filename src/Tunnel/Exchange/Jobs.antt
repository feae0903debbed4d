-- ===== src/Tunnel/Exchange/Jobs.antt =====
-- The handlers up to their OPEN, and from its answer to their relay.
use echo_proxy_core.Base.{
  ℕ, ◌≡◌, refl, Bool, true, false, not, Option, none, some, List, [], ◌∷◌, ◌++◌, Bytes, codes,
  if◌then◌else◌, or_default,
}
use echo_proxy_core.Frame.{open_stream}
use echo_proxy_core.Text.{starts_with}
use echo_proxy_core.Client.Address.{split_host_port, bare_host_port}
use echo_proxy_core.Client.Http.{Request}
use echo_proxy_core.Client.Task.{
  Task, ask, finish, send_frame, register, insert_ack, close_stream, recv_ack, write_local,
}
use echo_proxy_core.Client.Socks.{socks5_reply, socks5_rep_success, socks5_rep_general_failure}
use echo_proxy_core.Client.Handlers.{
  open_ack_timeout_secs, do_mux_relay, abandon, bad_gateway, start_http,
}
use echo_proxy_core.Client.Pool.{Job, local, resilient, socks}
use echo_proxy_core.Tunnel.{Event, up_taken}
use echo_proxy_core.Tunnel.Sent.{data_of_job}
use echo_proxy_core.Tunnel.Exchange.{moving}

-- Where the peer of a handler wants to go, and whether that goes around the tunnel.
abbrev pub target_of : Job → Option Bytes
target_of (local (some request) reads) = some request.host
target_of (resilient (some request) reads) = some request.host
target_of (socks target reads) = target
target_of _ = none

abbrev pub http_bypasses : (Bytes → ℕ → Bool) → Bytes → Bool
http_bypasses should_bypass host = should_bypass (bare_host_port host).0 (bare_host_port host).1

abbrev pub bypasses : (Bytes → ℕ → Bool) → Job → Bool
bypasses should_bypass (local (some request) reads) = http_bypasses should_bypass request.host
bypasses should_bypass (resilient (some request) reads) = http_bypasses should_bypass request.host
bypasses should_bypass (socks (some target) reads) =
    should_bypass (split_host_port target).0 (split_host_port target).1
bypasses should_bypass _ = false

-- What the peer sends behind its request, and what is sent of the request itself.
abbrev pub reads_of_job : Job → List Bytes
reads_of_job (local request reads) = reads
reads_of_job (resilient request reads) = reads
reads_of_job (socks target reads) = reads

abbrev pub is_connect : Request → Bool
is_connect request = starts_with (codes "CONNECT ") request.headers

abbrev pub first_of : Bool → Bytes → List Bytes
first_of true bytes = []
first_of false bytes = bytes ∷ []

abbrev pub first_data : Job → List Bytes
first_data (local (some request) reads) =
    first_of (is_connect request) (request.headers ++ request.body)
first_data (resilient (some request) reads) =
    first_of (is_connect request) (request.headers ++ request.body)
first_data _ = []

first_of-data :
    (b : Bool) (bytes : Bytes) (reads : List Bytes)
    → (if b then reads else bytes ∷ reads) ≡ first_of b bytes ++ reads
first_of-data true bytes reads = refl
first_of-data false bytes reads = refl

pub first_data-reads : (job : Job) → data_of_job job ≡ first_data job ++ reads_of_job job
first_data-reads (local (some request) reads) =
    first_of-data (is_connect request) (request.headers ++ request.body) reads
first_data-reads (local none reads) = refl
first_data-reads (resilient (some request) reads) =
    first_of-data (is_connect request) (request.headers ++ request.body) reads
first_data-reads (resilient none reads) = refl
first_data-reads (socks target reads) = refl

-- The moves up to the OPEN, and behind its answer.
abbrev pub before : Job → List Event
before (local request reads) = moving ∷ moving ∷ []
before _ = moving ∷ moving ∷ moving ∷ []

abbrev pub behind_http : Bool → List Event
behind_http true = moving ∷ moving ∷ moving ∷ []
behind_http false = moving ∷ moving ∷ up_taken true ∷ moving ∷ []

abbrev pub behind : Job → List Event
behind (local (some request) reads) = behind_http (is_connect request)
behind (resilient (some request) reads) = behind_http (is_connect request)
behind _ = moving ∷ moving ∷ moving ∷ []

abbrev pub after_socks : ℕ → List Bytes → Bool → Task
after_socks id reads sent =
    if not sent
    then ask (close_stream id)
        (λ _. ask (write_local (socks5_reply socks5_rep_general_failure)) (λ _. finish))
    else ask (recv_ack id (some open_ack_timeout_secs)) λ ack.
      if not (or_default ack false)
      then ask (close_stream id)
          (λ _. ask (write_local (socks5_reply socks5_rep_general_failure)) (λ _. finish))
      else ask (write_local (socks5_reply socks5_rep_success))
          (λ wrote. if wrote then do_mux_relay id reads else abandon id)

abbrev pub after_http : Option ℕ → ℕ → Bool → Bytes → List Bytes → Bool → Task
after_http timeout id connect bytes reads sent =
    if not sent
    then abandon id
    else ask (recv_ack id timeout) λ ack.
      if not (or_default ack false)
      then ask (close_stream id) (λ _. ask (write_local bad_gateway) (λ _. finish))
      else start_http id connect bytes reads

abbrev pub rest_of : ℕ → Job → Bool → Task
rest_of id (local (some request) reads) =
    after_http none id (is_connect request) (request.headers ++ request.body) reads
rest_of id (resilient (some request) reads) =
    after_http (some open_ack_timeout_secs) id (is_connect request)
      (request.headers ++ request.body) reads
rest_of id (socks (some target) reads) = after_socks id reads
rest_of id _ = λ sent. finish

abbrev pub registering : ℕ → Bytes → (Bool → Task) → Task
registering id target k =
    ask (register id) (λ _. ask (insert_ack id) (λ _. ask (send_frame (open_stream id target)) k))
