-- ===== src/Tests/Wire.antt =====
-- The frame format, the numbers and the addresses on concrete values.
use echo_proxy_core.Base.{◌≡◌, refl, ◌↔◌, true, not, [], ◌∷◌, ◌++◌, arith, Bytes, codes, ok}
use echo_proxy_core.Text.Utf8.{is_utf8}
use echo_proxy_core.Net.{Ipv4Addr}
use echo_proxy_core.Net.Show.{show_ipv4}
use echo_proxy_core.Frame.{Frame, open_stream, open_ack, unknown_type, encode, decode, IsFrame}
use echo_proxy_core.Frame.RoundTrip.{decode-encode, decode_iff, Spells}
use echo_proxy_core.Frame.Errors.{decode-Refused, Refused}
use echo_proxy_core.Server.Ssrf.{is_dest_allowed}
use echo_proxy_core.Server.Ssrf.Literals.{is_dest_allowed-ipv4, is_blocked, address}

abbrev open_frame : Frame
open_frame = open_stream 258 (codes "example.org:443")

decode-encode_example : decode (encode open_frame) ≡ ok open_frame
unfolding is_utf8
decode-encode_example = decode-encode open_frame (omega arith, refl)

abbrev ack_bytes : Bytes
ack_bytes = 2 ∷ 0 ∷ 0 ∷ 1 ∷ 2 ∷ 0 ∷ []

decode_iff_example :
    (decode ack_bytes ≡ ok (open_ack 258 true))
    ↔ (IsFrame (open_ack 258 true) × Spells ack_bytes (open_ack 258 true))
decode_iff_example = decode_iff ack_bytes (open_ack 258 true) (omega arith)

decode-Refused_example : Refused (9 ∷ 0 ∷ 0 ∷ 0 ∷ 1 ∷ []) (unknown_type 9)
unfolding decode
decode-Refused_example = decode-Refused (9 ∷ 0 ∷ 0 ∷ 0 ∷ 1 ∷ []) (unknown_type 9) refl

abbrev lan : Ipv4Addr
lan = record { a = 192; b = 168; c = 1; d = 20 }

is_dest_allowed-ipv4_example :
    (is_dest_allowed (show_ipv4 lan ++ b':' ∷ codes "80") ≡ not (is_blocked (address lan)))
    × (is_dest_allowed (b'[' ∷ (show_ipv4 lan ++ b']' ∷ (b':' ∷ codes "80")))
        ≡ not (is_blocked (address lan)))
is_dest_allowed-ipv4_example = is_dest_allowed-ipv4 lan (codes "80") (omega arith) refl
