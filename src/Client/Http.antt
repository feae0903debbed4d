-- ===== src/Client/Http.antt =====
-- client/src/lib.rs: `parse_request_header`. The stream is the list of the bytes that the peer sends;
-- `read_line` takes them line by line, the line end included. Behind these bytes the peer has closed its
-- side, or a read fails. The `BufReader` may have taken bytes beyond the request from the socket, which
-- are lost with it: `ahead` is how many.
pub mod Bounds
use echo_proxy_core.Base.{
  ℕ, zero, suc, ◌+◌, ◌-◌, ◌*◌, ◌/◌, ◌%◌, ◌^◌, ◌≤◌, ◌<◌, min, String, ◌≡◌, refl, sym, ap, ◌∙◌, subst,
  ◌≢◌, ◌↔◌, ◌⊎◌, inl, inr, Bool, true, false, not, ◌&&◌, ◌||◌, Option, none, some, List, [], ◌∷◌,
  ◌++◌, map, reverse, arith, Bytes, codes, ltb, leb, ◌==◌, if◌then◌else◌, within, leb→le, ltb→lt,
  lt→ltb, ==_iff, Bool-cases, Option-cases, bytes_eq, bytes_eq_sound, bytes_eq_refl, bytes_eq_iff,
  length, take, drop, get_elem?, any, all, All, length-append, take-append, drop-append,
  take-append-drop, length-take, length-drop, any-split, any-append, append_laws, Result, ok, err,
  guard, ◌>>=◌, ◌>>◌, or_default, or_else, >>=-eq-some,
}
use mathlib.Core.List.{flatten}
use echo_proxy_core.Text.{strip_prefix, starts_with, has_byte, to_ascii_lowercase}
use echo_proxy_core.Text.Utf8.{is_utf8}
use echo_proxy_core.Text.Decimal.{parse_usize}
use echo_proxy_core.Text.Trim.{trim, trim_end_crlf, trim_end_lf}

abbrev pub max_header_bytes : ℕ
max_header_bytes = 64 * 1024

abbrev pub max_content_length : ℕ
max_content_length = 64 * 1024 * 1024

-- Put a byte in front of the first line.
grow_line : ℕ → List Bytes → List Bytes
grow_line b [] = (b ∷ []) ∷ []
grow_line b (l ∷ ls) = (b ∷ l) ∷ ls

-- The lines that `read_line` returns in turn; only the last may lack its line feed.
unfoldable pub lines : Bytes → List Bytes
unfolding grow_line
lines [] = []
lines (b ∷ bs) = if b == b'\n' then (b ∷ []) ∷ lines bs else grow_line b (lines bs)

pub record Header : Type 0 where
  pub headers : Bytes
  pub host : Bytes
  pub content_length : ℕ

abbrev pub no_header : Header
no_header = record { headers = []; host = []; content_length = 0 }

-- The text behind the field name, `n` bytes long, without white space around it.
unfoldable pub field_value : ℕ → Bytes → Bytes
field_value n line = trim_end_lf (trim_end_crlf (trim (drop n line)))

unfoldable pub with_default_port : Bytes → Bytes
with_default_port host = if has_byte b':' host then host else host ++ codes ":80"

unfoldable pub read_host : Bytes → Header → Header
read_host line h =
    if starts_with (codes "host:") (to_ascii_lowercase line)
    then record h { host = with_default_port (field_value 5 line) }
    else h

unfoldable pub read_content_length : Bytes → Header → Option Header
read_content_length line h =
    if starts_with (codes "content-length:") (to_ascii_lowercase line)
    then (let n = or_default (parse_usize (field_value 15 line)) 0 in
        if ltb max_content_length n then none else some (record h { content_length = n }))
    else some h

-- The body of the loop, up to the test for the empty line.
unfoldable pub read_line : Bytes → Header → Option Header
read_line line h =
    if ltb max_header_bytes (length h.headers + length line)
    then none
    else read_content_length line (read_host line (record h { headers = h.headers ++ line }))

-- The header, and the lines that are left behind the empty line. A line that a failing read cuts off is
-- an error.
unfoldable pub read_lines : Bool → List Bytes → Header → Option (Header × List Bytes)
read_lines fails [] h = if fails then none else some (h, [])
read_lines fails (line ∷ rest) h =
    if (fails && not (has_byte b'\n' line)) || not (is_utf8 line)
    then none
    else elim (read_line line h) [
      | none ↦ none
      | some h' ↦ elim (bytes_eq line (codes "\r\n")) [
        | true ↦ some (h', rest)
        | false ↦ read_lines fails rest h'
      ]
    ]

pub record Request : Type 0 where
  pub host : Bytes
  pub headers : Bytes
  pub body : Bytes

-- The body of `content_length` bytes, behind the header, and what is left on the socket for a relay.
unfoldable pub read_body : ℕ → Header → Bytes → Option (Request × Bytes)
read_body ahead h s =
    if leb h.content_length (length s)
    then some (
      record { host = h.host; headers = h.headers; body = take h.content_length s },
      drop ahead (drop h.content_length s),
    )
    else none

unfoldable pub parse_request_header : ℕ → Bool → Bytes → Option (Request × Bytes)
parse_request_header ahead fails s = do
  (h, rest) ← read_lines fails (lines s) no_header
  read_body ahead h (flatten rest)
