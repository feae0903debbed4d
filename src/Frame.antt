-- ===== src/Frame.antt =====
-- core-lib/src/frame.rs: the frames of the mux protocol and their wire format,
-- | 1 byte type | 4 byte stream_id (big-endian) | payload |. A `u32` is a number below 2 ^ 32; a
-- `String` is its UTF-8 bytes.
pub mod BigEndian
pub mod RoundTrip
pub mod Errors
use echo_proxy_core.Base.{
  ℕ, ◌^◌, ◌<◌, ◌≡◌, Bool, true, false, List, [], ◌∷◌, ◌++◌, Bytes, ◌==◌, All, Result, ok, err,
  if◌then◌else◌,
}
use echo_proxy_core.Text.Utf8.{is_utf8}
use BigEndian.{to_be_bytes, from_be_bytes}

pub data Frame : Type 0 where
  hello : Bytes → Frame
  open_stream : ℕ → Bytes → Frame
  open_ack : ℕ → Bool → Frame
  data_frame : ℕ → Bytes → Frame
  close : ℕ → Frame

pub data FrameError : Type 0 where
  too_short : FrameError
  unknown_type : ℕ → FrameError
  invalid_utf8 : FrameError

abbrev pub type_open : ℕ
type_open = 0x01

abbrev pub type_open_ack : ℕ
type_open_ack = 0x02

abbrev pub type_data : ℕ
type_data = 0x03

abbrev pub type_close : ℕ
type_close = 0x04

abbrev pub type_hello : ℕ
type_hello = 0x10

unfoldable pub encode : Frame → Bytes
unfolding to_be_bytes
encode (hello token) = type_hello ∷ to_be_bytes 0 ++ token
encode (open_stream id dest) = type_open ∷ to_be_bytes id ++ dest
encode (open_ack id is_ok) = type_open_ack ∷ to_be_bytes id ++ (if is_ok then 0 else 1) ∷ []
encode (data_frame id bytes) = type_data ∷ to_be_bytes id ++ bytes
encode (close id) = type_close ∷ to_be_bytes id

decode_ack : ℕ → Bytes → Result FrameError Frame
decode_ack id [] = err too_short
decode_ack id (status ∷ rest) = ok (open_ack id (status == 0))

-- The `match frame_type`.
decode_payload : ℕ → ℕ → Bytes → Result FrameError Frame
unfolding decode_ack
decode_payload frame_type id payload =
    if frame_type == type_hello
    then (if is_utf8 payload then ok (hello payload) else err invalid_utf8)
    else if frame_type == type_open
    then (if is_utf8 payload then ok (open_stream id payload) else err invalid_utf8)
    else if frame_type == type_open_ack
    then decode_ack id payload
    else if frame_type == type_data
    then ok (data_frame id payload)
    else if frame_type == type_close
    then ok (close id)
    else err (unknown_type frame_type)

-- `buf.len() < 5` is the catch-all clause.
unfoldable pub decode : Bytes → Result FrameError Frame
unfolding decode_payload from_be_bytes
decode (frame_type ∷ a ∷ b ∷ c ∷ d ∷ payload) =
    decode_payload frame_type (from_be_bytes a b c d) payload
decode _ = err too_short

-- What the types of the source promise of a value: bytes are `u8`, ids `u32`, strings UTF-8.
abbrev pub IsBytes : Bytes → Type 0
IsBytes = All (λ b. b < 256)

abbrev pub IsFrame : Frame → Type 0
IsFrame (hello token) = is_utf8 token ≡ true
IsFrame (open_stream id dest) = (id < 2 ^ 32) × (is_utf8 dest ≡ true)
IsFrame (open_ack id is_ok) = id < 2 ^ 32
IsFrame (data_frame id bytes) = id < 2 ^ 32
IsFrame (close id) = id < 2 ^ 32
