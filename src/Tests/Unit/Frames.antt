-- ===== src/Tests/Unit/Frames.antt =====
-- core-lib/src/frame.rs: `mod tests`. Each test is a Boolean, and it passes.
use echo_proxy_core.Base.{
  ℕ, ◌≡◌, refl, Bool, true, false, not, ◌&&◌, [], ◌∷◌, ◌++◌, codes, ◌==◌, bytes_eq, Result, ok, err,
}
use echo_proxy_core.Frame.{
  Frame, hello, open_stream, open_ack, data_frame, close, FrameError, too_short, unknown_type,
  invalid_utf8, encode, decode, type_open, type_open_ack,
}

-- The derived `PartialEq`.
abbrev frame_eq : Frame → Frame → Bool
frame_eq (hello a) (hello b) = bytes_eq a b
frame_eq (open_stream i a) (open_stream j b) = i == j && bytes_eq a b
frame_eq (open_ack i true) (open_ack j b) = i == j && b
frame_eq (open_ack i false) (open_ack j b) = i == j && not b
frame_eq (data_frame i a) (data_frame j b) = i == j && bytes_eq a b
frame_eq (close i) (close j) = i == j
frame_eq _ _ = false

abbrev is_frame : Frame → Result FrameError Frame → Bool
is_frame f (ok g) = frame_eq f g
is_frame f (err e) = false

abbrev is_too_short : Result FrameError Frame → Bool
is_too_short (err too_short) = true
is_too_short _ = false

abbrev is_unknown_type : ℕ → Result FrameError Frame → Bool
is_unknown_type t (err (unknown_type u)) = u == t
is_unknown_type t _ = false

abbrev is_invalid_utf8 : Result FrameError Frame → Bool
is_invalid_utf8 (err invalid_utf8) = true
is_invalid_utf8 _ = false

abbrev round_trip : Frame → Bool
round_trip frame = is_frame frame (decode (encode frame))

abbrev hello_round_trip : Bool
hello_round_trip = round_trip (hello (codes "550e8400-e29b-41d4-a716-446655440000"))

abbrev open_round_trip : Bool
open_round_trip = round_trip (open_stream 42 (codes "example.com:443"))

abbrev open_ack_ok_round_trip : Bool
open_ack_ok_round_trip = round_trip (open_ack 42 true)

abbrev open_ack_fail_round_trip : Bool
open_ack_fail_round_trip = round_trip (open_ack 99 false)

abbrev data_round_trip : Bool
data_round_trip = round_trip (data_frame 1 (codes "GET / HTTP/1.1\r\n\r\n"))

abbrev data_empty_payload_round_trip : Bool
data_empty_payload_round_trip = round_trip (data_frame 5 [])

abbrev close_round_trip : Bool
close_round_trip = round_trip (close 7)

abbrev stream_id_preserved : Bool
stream_id_preserved =
    round_trip (close 0xDEADBEEF) && round_trip (open_stream 0xDEADBEEF (codes "h:1"))

abbrev too_short_returns_error : Bool
too_short_returns_error = is_too_short (decode (0x01 ∷ 0x00 ∷ [])) && is_too_short (decode [])

abbrev open_ack_missing_status_byte : Bool
open_ack_missing_status_byte =
    is_too_short (decode (type_open_ack ∷ 0x00 ∷ 0x00 ∷ 0x00 ∷ 0x01 ∷ []))

abbrev unknown_type_returns_error : Bool
unknown_type_returns_error = is_unknown_type 0xFF (decode (0xFF ∷ 0x00 ∷ 0x00 ∷ 0x00 ∷ 0x01 ∷ []))

abbrev invalid_utf8_open : Bool
invalid_utf8_open =
    let buf = type_open ∷ 0x00 ∷ 0x00 ∷ 0x00 ∷ 0x01 ∷ [] in
    is_invalid_utf8 (decode (buf ++ 0xFF ∷ []))

round_trips_pass :
    (hello_round_trip && open_round_trip && open_ack_ok_round_trip && open_ack_fail_round_trip
      && data_round_trip && data_empty_payload_round_trip && close_round_trip
      && stream_id_preserved)
    ≡ true
unfolding decode encode echo_proxy_core.Text.Utf8.is_utf8 bytes_eq
round_trips_pass = refl

errors_pass :
    (too_short_returns_error && open_ack_missing_status_byte && unknown_type_returns_error
      && invalid_utf8_open)
    ≡ true
unfolding decode echo_proxy_core.Text.Utf8.is_utf8
errors_pass = refl
