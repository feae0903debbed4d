-- ===== src/Frame/Errors.antt =====
-- Which buffers `decode` refuses, and with which error.
use echo_proxy_core.Base.{
  ℕ, ◌≤◌, ◌<◌, ◌≡◌, refl, ◌⊎◌, inl, inr, Bool, false, ◌||◌, [], ◌∷◌, ◌++◌, arith, Bytes, ◌==◌,
  length, err,
}
use echo_proxy_core.Text.Utf8.{is_utf8}
use echo_proxy_core.Frame.{
  FrameError, decode, type_hello, type_open, type_open_ack, type_data, type_close, too_short,
  unknown_type, invalid_utf8,
}

-- A type byte of the protocol.
abbrev known_type : ℕ → Bool
known_type t =
    t == type_hello || t == type_open || t == type_open_ack || t == type_data || t == type_close

-- Why a buffer is refused, by the error.
abbrev pub Refused : Bytes → FrameError → Type 0
Refused buf too_short =
    (length buf < 5) ⊎ ((id : Bytes) × (length id ≡ 4) × (buf ≡ type_open_ack ∷ id))
Refused buf (unknown_type t) =
    (rest : Bytes) × (4 ≤ length rest) × (buf ≡ t ∷ rest) × (known_type t ≡ false)
Refused buf invalid_utf8 =
    (t : ℕ) × (id : Bytes) × (text : Bytes) × (length id ≡ 4)
    × (buf ≡ t ∷ id ++ text)
    × ((t ≡ type_hello) ⊎ (t ≡ type_open))
    × (is_utf8 text ≡ false)

-- When `decode` fails, the error names the cause: fewer than five bytes or an OPEN_ACK of five, a
-- type byte that is none of the five, or a HELLO or OPEN whose text is not UTF-8.
pub decode-Refused : (buf : Bytes) (e : FrameError) → decode buf ≡ err e → Refused buf e
unfolding decode
decode-Refused (t ∷ a ∷ b ∷ c ∷ d ∷ []) too_short h =
    inr (a ∷ b ∷ c ∷ d ∷ [], omega arith, ground arith)
decode-Refused (t ∷ a ∷ b ∷ c ∷ d ∷ x ∷ payload) too_short h = absurd (ground arith)
decode-Refused (t ∷ a ∷ b ∷ c ∷ d ∷ payload) (unknown_type u) h =
    (a ∷ b ∷ c ∷ d ∷ payload, omega arith, ground arith, ground arith)
decode-Refused (t ∷ a ∷ b ∷ c ∷ d ∷ payload) invalid_utf8 h =
    (t, a ∷ b ∷ c ∷ d ∷ [], payload, omega arith, refl, ground arith, ground arith)
decode-Refused [] too_short h = inl (omega arith)
decode-Refused (t ∷ []) too_short h = inl (omega arith)
decode-Refused (t ∷ a ∷ []) too_short h = inl (omega arith)
decode-Refused (t ∷ a ∷ b ∷ []) too_short h = inl (omega arith)
decode-Refused (t ∷ a ∷ b ∷ c ∷ []) too_short h = inl (omega arith)
decode-Refused _ _ h = absurd cc
