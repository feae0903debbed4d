-- ===== src/Client/Geoip/Ranges.antt =====
-- What is under a tag, and what network a range is, written apart from the code.
use echo_proxy_core.Base.{
  ℕ, suc, ◌%◌, ◌^◌, ◌≡◌, refl, sym, subst, inl, inr, false, Option, none, some, List, [], ◌∷◌,
  arith, Bytes, ◌==◌, if◌then◌else◌, ==_iff, Bool-cases, bytes_eq, length, get_elem?, ok, err,
  or_default,
}
use echo_proxy_core.Text.{CaseMap}
use echo_proxy_core.Net.Show.{groups_of_bytes}
use echo_proxy_core.Client.Geoip.{IpNetApi, invalid_cidr, Cidr, Entry, checked, to_net, find_entry}

-- The entries whose country code is the tag, upper case against upper case, in their order, and the
-- first of them.
abbrev pub with_tag : CaseMap → Bytes → List Entry → List Entry
with_tag cm tag [] = []
with_tag cm tag (e ∷ es) =
    let rest = with_tag cm tag es in
    if bytes_eq (cm.to_uppercase e.country_code) (cm.to_uppercase tag) then e ∷ rest else rest

abbrev first : List Entry → Option Entry
first [] = none
first (e ∷ es) = some e

abbrev pub tagged : CaseMap → Bytes → List Entry → Option Entry
tagged cm tag list = first (with_tag cm tag list)

abbrev octet : ℕ → Cidr → ℕ
octet i c = or_default (get_elem? c.ip i) 0

module _ (net : IpNetApi) where
  pub find_entry-first :
      (cm : CaseMap) (tag : Bytes) (list : List Entry)
      → find_entry net cm tag list ≡ tagged cm tag list
  unfolding find_entry
  find_entry-first cm tag [] = refl
  find_entry-first cm tag (e ∷ es) =
      elim (Bool-cases (bytes_eq (cm.to_uppercase e.country_code) (cm.to_uppercase tag))) [
        | inl q ↦ rw q refl
        | inr q ↦ rw q (find_entry-first cm tag es)
      ]

  -- The network of a range: that of the IPv4 address of four bytes, or of the IPv6 address of sixteen,
  -- with the low eight bits of the prefix, if ipnet takes them.
  abbrev pub range_of : Cidr → Option net.IpNet
  range_of c =
      if length c.ip == 4
      then net.new_v4 (record { a = octet 0 c; b = octet 1 c; c = octet 2 c; d = octet 3 c })
          (c.len % 2 ^ 8)
      else if length c.ip == 16
      then net.new_v6 (record { segments = groups_of_bytes c.ip }) (c.len % 2 ^ 8)
      else none

  checked-elim :
      (n : ℕ) (o : Option net.IpNet)
      → checked net n o ≡ elim o [ none ↦ err (invalid_cidr n) | some x ↦ ok x ]
  unfolding checked
  checked-elim n none = refl
  checked-elim n (some x) = refl

  long_cases :
      (n : ℕ) (o : Option net.IpNet)
      → (if n == 16 then checked net 16 o else err (invalid_cidr n))
        ≡ elim (if n == 16 then o else none) [ none ↦ err (invalid_cidr n) | some x ↦ ok x ]
  long_cases n o = elim (Bool-cases (n == 16)) [
    | inl q ↦ rw q (
        subst (λ k. checked net 16 o ≡ elim o [ none ↦ err (invalid_cidr k) | some x ↦ ok x ])
          (sym ((==_iff n 16).0 q)) (checked-elim 16 o))
    | inr q ↦ rw q refl
  ]

  not_four :
      (n : ℕ) (p o : Option net.IpNet)
      → (n == 4) ≡ false
      → (if n == 16 then checked net 16 o else err (invalid_cidr n))
        ≡ elim (if n == 4 then p else if n == 16 then o else none) [
          | none ↦ err (invalid_cidr n)
          | some x ↦ ok x
        ]
  not_four n p o h = rw h (long_cases n o)

  pub to_net-range_of :
      (c : Cidr)
      → to_net net c ≡ elim (range_of c) [ none ↦ err (invalid_cidr (length c.ip)) | some n ↦ ok n ]
  unfolding to_net
  to_net-range_of c =
      elim c.ip
        as (λ ip.
          to_net net (record { ip = ip; len = c.len })
          ≡ elim (range_of (record { ip = ip; len = c.len })) [
            | none ↦ err (invalid_cidr (length ip))
            | some n ↦ ok n
          ]) [
            | a ∷ b ∷ d ∷ e ∷ [] ↦ checked-elim 4 _
            | [] ↦ refl
            | a ∷ [] ↦ refl
            | a ∷ b ∷ [] ↦ refl
            | a ∷ b ∷ d ∷ [] ↦ refl
            | a ∷ b ∷ d ∷ e ∷ f ∷ rest ↦
                not_four (suc (suc (suc (suc (suc (length rest)))))) _ _ (ground arith)
          ]
