-- ===== src/Client/Http/Bounds.antt =====
-- What a parsed request is made of, and how large it can be.
use echo_proxy_core.Base.{
  ℕ, ◌+◌, ◌*◌, ◌≤◌, ◌≡◌, refl, sym, ap, ◌∙◌, subst, ◌⊎◌, inl, inr, Bool, true, false, not, ◌&&◌,
  ◌||◌, some, List, [], ◌∷◌, ◌++◌, arith, Bytes, codes, ltb, ◌==◌, Bool-cases, Option-cases,
  bytes_eq, length, take, drop, length-append, take-append-drop, length-take, >>=-eq-some,
}
use mathlib.Core.List.{flatten, append_assoc}
use echo_proxy_core.Text.{has_byte}
use echo_proxy_core.Text.Utf8.{is_utf8}
use echo_proxy_core.Client.Http.{
  lines, grow_line, Header, no_header, field_value, with_default_port, read_host,
  read_content_length, read_line, read_lines, Request, read_body, parse_request_header,
  max_header_bytes, max_content_length,
}

flatten-grow_line : (b : ℕ) (ls : List Bytes) → flatten (grow_line b ls) ≡ b ∷ flatten ls
unfolding grow_line flatten
flatten-grow_line b [] = refl
flatten-grow_line b (l ∷ ls) = refl

-- The lines are the bytes.
flatten-lines : (s : Bytes) → flatten (lines s) ≡ s
unfolding lines flatten
flatten-lines [] = refl
flatten-lines (b ∷ bs) = elim (Bool-cases (b == b'\n')) [
  | inl e ↦ rw e (ap (◌∷◌ b) (flatten-lines bs))
  | inr e ↦ rw e (flatten-grow_line b (lines bs) ∙ ap (◌∷◌ b) (flatten-lines bs))
]

has_byte-append : (c : ℕ) (xs ys : Bytes) → has_byte c (xs ++ ys) ≡ (has_byte c xs || has_byte c ys)
has_byte-append c [] ys = refl
has_byte-append c (x ∷ xs) ys = ground (arith, has_byte-append c xs ys)

with_default_port-colon : (host : Bytes) → has_byte b':' (with_default_port host) ≡ true
unfolding with_default_port
with_default_port-colon host = ground (arith, has_byte-append b':' host (codes ":80"))

-- The sizes are within the limits, and a host has a colon in it.
pub record Inv (h : Header) : Type 0 where
  pub header_size : length h.headers ≤ max_header_bytes
  pub body_size : h.content_length ≤ max_content_length
  pub port_named : (h.host ≡ []) ⊎ (has_byte b':' h.host ≡ true)

read_host-Inv : (line : Bytes) (h : Header) → Inv h → Inv (read_host line h)
unfolding read_host
read_host-Inv line h v = ground (arith, with_default_port-colon (field_value 5 line))

headers-read_host : (line : Bytes) (h : Header) → (read_host line h).headers ≡ h.headers
unfolding read_host
headers-read_host line h = ground arith

read_content_length-Inv :
    (line : Bytes) (h h' : Header)
    → Inv h
    → read_content_length line h ≡ some h'
    → Inv h' × (h'.headers ≡ h.headers)
unfolding read_content_length
read_content_length-Inv line h h' v e = ground arith

read_line-Inv :
    (line : Bytes) (h h' : Header)
    → Inv h
    → read_line line h ≡ some h'
    → Inv h' × (h'.headers ≡ h.headers ++ line)
unfolding read_line
read_line-Inv line h h' v e =
    elim (Bool-cases (ltb max_header_bytes (length h.headers + length line))) [
      | inl big ↦ absurd (ground arith)
      | inr small ↦
          let grown : Header = record h { headers = h.headers ++ line } in
          let w : Inv grown = record {
            header_size = rw (length-append h.headers line) (ground arith);
            body_size = v.body_size;
            port_named = v.port_named;
          } in
          let r =
            read_content_length-Inv line (read_host line grown) h' (read_host-Inv line grown w)
              (ground arith) in
          (r.0, r.1 ∙ headers-read_host line grown)
    ]

read_lines-Inv :
    (fails : Bool) (ls rest : List Bytes) (h h' : Header)
    → Inv h
    → read_lines fails ls h ≡ some (h', rest)
    → Inv h' × (h.headers ++ flatten ls ≡ h'.headers ++ flatten rest)
unfolding read_lines flatten
read_lines-Inv true [] rest h h' v e = absurd cc
read_lines-Inv false [] rest h h' v e =
    let same : h ≡ h' = ground arith in
    let none_left : [] ≡ rest = ground arith in (subst Inv same v, cc)
read_lines-Inv fails (line ∷ ls) rest h h' v e =
    elim (Bool-cases ((fails && not (has_byte b'\n' line)) || not (is_utf8 line))) [
      | inl bad ↦ absurd (ground arith)
      | inr good ↦ elim (Option-cases (read_line line h)) [
        | inl n ↦ absurd (ground arith)
        | inr (g, n) ↦
            let w = read_line-Inv line h g v n in
            elim (Bool-cases (bytes_eq line (codes "\r\n"))) [
              | inl last ↦
                  let same : g ≡ h' = ground arith in
                  let left : ls ≡ rest = ground arith in
                  (subst Inv same w.0, cc (append_assoc h.headers line (flatten ls)))
              | inr more ↦
                  let r = read_lines-Inv fails ls rest g h' w.0 (ground arith) in
                  (r.0, cc (append_assoc h.headers line (flatten ls)))
            ]
      ]
    ]

no_header-Inv : Inv no_header
no_header-Inv = record { header_size = omega arith; body_size = omega arith; port_named = inl refl }

-- What a parsed request is, of the bytes that the peer sent.
abbrev pub IsRead : ℕ → Bytes → Request → Bytes → Type 0
IsRead ahead s r left =
    (lost : Bytes) × (s ≡ (r.headers ++ r.body) ++ (lost ++ left))
    × (length lost ≤ ahead)
    × (length r.headers ≤ 64 * 1024)
    × (length r.body ≤ 64 * 1024 * 1024)
    × ((r.host ≡ []) ⊎ (has_byte b':' r.host ≡ true))

-- The same, once the header is read.
body_of :
    (ahead : ℕ) (s : Bytes) (r : Request) (left : Bytes) (h : Header) (rest : List Bytes)
    → Inv h
    → s ≡ h.headers ++ flatten rest
    → read_body ahead h (flatten rest) ≡ some (r, left)
    → IsRead ahead s r left
unfolding read_body
body_of ahead s r left h rest v bytes e =
    let body : r.body ≡ take h.content_length (flatten rest) = ground arith in
    let headers : r.headers ≡ h.headers = ground arith in
    let host : r.host ≡ h.host = ground arith in
    let behind = drop h.content_length (flatten rest) in
    let remains : left ≡ drop ahead behind = ground arith in
    (
      take ahead behind,
      cc (
        append_assoc r.headers r.body behind,
        take-append-drop h.content_length (flatten rest),
        take-append-drop ahead behind,
      ),
      omega (arith, length-take ahead behind),
      rw headers v.header_size,
      rw body (omega (arith, length-take h.content_length (flatten rest), v.body_size)),
      rw host v.port_named,
    )

-- A request that is parsed has a header of at most 64 KiB and a body of at most 64 MiB, its host is
-- empty or has a colon in it, and the bytes that the peer sent are, in this order, its header, its body,
-- at most as many lost bytes as the reader has taken ahead, and what is left for a relay.
pub parse_request_header-prefix :
    (ahead : ℕ) (fails : Bool) (s : Bytes) (r : Request) (left : Bytes)
    → parse_request_header ahead fails s ≡ some (r, left)
    → IsRead ahead s r left
unfolding parse_request_header
parse_request_header-prefix ahead fails s r left e =
    let ((h, rest), lines_read, body_read) =
      >>=-eq-some (read_lines fails (lines s) no_header) _ e in
    let (v, bytes) = read_lines-Inv fails (lines s) rest no_header h no_header-Inv lines_read in
    body_of ahead s r left h rest v (sym (flatten-lines s) ∙ bytes) body_read
