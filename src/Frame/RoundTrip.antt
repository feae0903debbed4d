-- ===== src/Frame/RoundTrip.antt =====
-- Frames survive the wire, and the wire format has one spelling for each frame but for the byte of
-- OPEN_ACK and what follows it.
use echo_proxy_core.Base.{ℕ, ◌≡◌, ◌↔◌, true, false, [], ◌∷◌, ◌++◌, arith, Bytes, ◌==◌, length, ok}
use echo_proxy_core.Frame.BigEndian.{
  to_be_bytes, from_be_bytes-to_be_bytes, to_be_bytes-from_be_bytes, from_be_bytes-lt,
}
use echo_proxy_core.Frame.{
  Frame, hello, open_stream, open_ack, data_frame, close, encode, decode, IsFrame, IsBytes,
  type_hello, type_open, type_open_ack, type_data, type_close,
}

-- Every frame whose id is a `u32` and whose text is UTF-8 is decoded to itself from its own bytes.
pub decode-encode : (f : Frame) → IsFrame f → decode (encode f) ≡ ok f
unfolding decode encode
decode-encode (hello token) h = rw h
decode-encode (open_stream id dest) h = rw (from_be_bytes-to_be_bytes id h.0, h.1)
decode-encode (open_ack id true) h = rw (from_be_bytes-to_be_bytes id h)
decode-encode (open_ack id false) h = rw (from_be_bytes-to_be_bytes id h)
decode-encode (data_frame id bytes) h = rw (from_be_bytes-to_be_bytes id h)
decode-encode (close id) h = rw (from_be_bytes-to_be_bytes id h)

-- Which buffers spell `f` for the decoder. It is laxer than the documented format: the id of HELLO need
-- not be 0, a failing status may be any byte but 0, and what follows the status byte or a CLOSE is free.
abbrev pub Spells : Bytes → Frame → Type 0
Spells buf (hello token) = (ids : Bytes) × (length ids ≡ 4) × (buf ≡ type_hello ∷ ids ++ token)
Spells buf (open_stream id dest) = buf ≡ type_open ∷ to_be_bytes id ++ dest
Spells buf (open_ack id is_ok) =
    (status : ℕ) × (rest : Bytes) × (is_ok ≡ (status == 0))
    × (buf ≡ type_open_ack ∷ to_be_bytes id ++ status ∷ rest)
Spells buf (data_frame id bytes) = buf ≡ type_data ∷ to_be_bytes id ++ bytes
Spells buf (close id) = (rest : Bytes) × (buf ≡ type_close ∷ to_be_bytes id ++ rest)

decode-Spells : (buf : Bytes) (f : Frame) → IsBytes buf → decode buf ≡ ok f → Spells buf f
unfolding decode
decode-Spells (t ∷ a ∷ b ∷ c ∷ d ∷ payload) (hello token) v h =
    (a ∷ b ∷ c ∷ d ∷ [], omega arith, ground arith)
decode-Spells (t ∷ a ∷ b ∷ c ∷ d ∷ payload) (open_stream id dest) v h =
    ground (arith, to_be_bytes-from_be_bytes a b c d)
decode-Spells (t ∷ a ∷ b ∷ c ∷ d ∷ []) (open_ack id is_ok) v h = absurd (ground arith)
decode-Spells (t ∷ a ∷ b ∷ c ∷ d ∷ status ∷ rest) (open_ack id is_ok) v h =
    (status, rest, ground arith, ground (arith, to_be_bytes-from_be_bytes a b c d))
decode-Spells (t ∷ a ∷ b ∷ c ∷ d ∷ payload) (data_frame id bytes) v h =
    ground (arith, to_be_bytes-from_be_bytes a b c d)
decode-Spells (t ∷ a ∷ b ∷ c ∷ d ∷ payload) (close id) v h =
    (payload, ground (arith, to_be_bytes-from_be_bytes a b c d))
decode-Spells _ f v h = cc

decode-IsFrame : (buf : Bytes) (f : Frame) → IsBytes buf → decode buf ≡ ok f → IsFrame f
unfolding decode
decode-IsFrame (t ∷ a ∷ b ∷ c ∷ d ∷ payload) (hello token) v h = ground arith
decode-IsFrame (t ∷ a ∷ b ∷ c ∷ d ∷ payload) (open_stream id dest) v h =
    ground (arith, from_be_bytes-lt a b c d)
decode-IsFrame (t ∷ a ∷ b ∷ c ∷ d ∷ payload) (open_ack id is_ok) v h =
    ground (arith, from_be_bytes-lt a b c d)
decode-IsFrame (t ∷ a ∷ b ∷ c ∷ d ∷ payload) (data_frame id bytes) v h =
    ground (arith, from_be_bytes-lt a b c d)
decode-IsFrame (t ∷ a ∷ b ∷ c ∷ d ∷ payload) (close id) v h =
    ground (arith, from_be_bytes-lt a b c d)
decode-IsFrame _ f v h = absurd cc

Spells-decode : (buf : Bytes) (f : Frame) → IsFrame f → Spells buf f → decode buf ≡ ok f
unfolding decode to_be_bytes
Spells-decode buf (hello token) w (a ∷ b ∷ c ∷ d ∷ [], n, e) = rw (e, w)
Spells-decode buf (open_stream id dest) w e = rw (e, from_be_bytes-to_be_bytes id w.0, w.1)
Spells-decode buf (open_ack id is_ok) w (status, rest, k, e) =
    rw (e, from_be_bytes-to_be_bytes id w, k)
Spells-decode buf (data_frame id bytes) w e = rw (e, from_be_bytes-to_be_bytes id w)
Spells-decode buf (close id) w (rest, e) = rw (e, from_be_bytes-to_be_bytes id w)
Spells-decode buf (hello token) w (_, n, e) = absurd (omega arith)

-- A buffer of bytes is decoded to `f` exactly when `f` is well formed (its id is a `u32` and its
-- text UTF-8) and the buffer is its type byte, its big-endian id and its payload, where the id of HELLO
-- is any, the status of OPEN_ACK is 0 for success and any other byte for failure, and what follows the
-- status or a CLOSE is any.
pub decode_iff :
    (buf : Bytes) (f : Frame) → IsBytes buf → (decode buf ≡ ok f) ↔ (IsFrame f × Spells buf f)
decode_iff buf f v =
    (λ h. (decode-IsFrame buf f v h, decode-Spells buf f v h), λ p. Spells-decode buf f p.0 p.1)
