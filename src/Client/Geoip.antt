-- ===== src/Client/Geoip.antt =====
-- client/src/geoip.rs: CIDR ranges. The networks are those of the crate `ipnet`, and the file is
-- read by `std::fs` and decoded by the crate `geosite_rs`.
pub mod Ranges
pub mod Rules
use echo_proxy_core.Base.{
  ℕ, ◌%◌, ◌^◌, Bool, Option, none, some, List, [], ◌∷◌, ◌++◌, Bytes, ◌==◌, if◌then◌else◌, bytes_eq,
  length, Result, ok, err,
}
use echo_proxy_core.Text.{CaseMap}
use echo_proxy_core.Net.{Ipv4Addr, Ipv6Addr, IpAddr}
use echo_proxy_core.Net.Show.{groups_of_bytes}

pub record IpNetApi : Type 1 where
  pub IpNet : Type 0
  -- `Ipv4Net::new` and `Ipv6Net::new` with the wrapping constructor; `none` is their error.
  pub new_v4 : Ipv4Addr → ℕ → Option IpNet
  pub new_v6 : Ipv6Addr → ℕ → Option IpNet
  pub contains : IpNet → IpAddr → Bool

pub data GeoIpError : Type 0 where
  io : Bytes → GeoIpError
  decode : Bytes → GeoIpError
  tag_not_found : Bytes → GeoIpError
  invalid_cidr : ℕ → GeoIpError

pub record Cidr : Type 0 where
  pub ip : Bytes
  pub len : ℕ

pub record Entry : Type 0 where
  pub country_code : Bytes
  pub cidrs : List Cidr

module _ (net : IpNetApi) where
  unfoldable pub checked : ℕ → Option net.IpNet → Result GeoIpError net.IpNet
  checked ip_len none = err (invalid_cidr ip_len)
  checked ip_len (some n) = ok n

  -- `cidr.prefix as u8` drops the high bits of a `u32`.
  unfoldable pub to_net : Cidr → Result GeoIpError net.IpNet
  unfolding checked
  to_net c = elim c.ip [
    | a ∷ b ∷ d ∷ e ∷ [] ↦
        checked 4 (net.new_v4 (record { a = a; b = b; c = d; d = e }) (c.len % 2 ^ 8))
    | _ ↦
        if length c.ip == 16
        then checked 16 (net.new_v6 (record { segments = groups_of_bytes c.ip }) (c.len % 2 ^ 8))
        else err (invalid_cidr (length c.ip))
  ]

  unfoldable pub to_nets : List Cidr → List net.IpNet → Result GeoIpError (List net.IpNet)
  to_nets [] result = ok result
  to_nets (c ∷ cs) result = elim (to_net c) [ ok n ↦ to_nets cs (result ++ n ∷ []) | err e ↦ err e ]

  unfoldable pub find_entry : CaseMap → Bytes → List Entry → Option Entry
  find_entry cm tag [] = none
  find_entry cm tag (e ∷ es) =
      if bytes_eq (cm.to_uppercase e.country_code) (cm.to_uppercase tag)
      then some e
      else find_entry cm tag es

  unfoldable pub nets_of_tags :
      CaseMap → List Entry → List Bytes → List net.IpNet → Result GeoIpError (List net.IpNet)
  nets_of_tags cm list [] result = ok result
  nets_of_tags cm list (tag ∷ tags) result = elim (find_entry cm tag list) [
    | none ↦ err (tag_not_found tag)
    | some entry ↦ elim (to_nets entry.cidrs result) [
      | ok result' ↦ nets_of_tags cm list tags result'
      | err e ↦ err e
    ]
  ]

  unfoldable pub load_geoip_dat :
      CaseMap
      → Result Bytes Bytes
      → (Bytes → Result Bytes (List Entry))
      → List Bytes
      → Result GeoIpError (List net.IpNet)
  load_geoip_dat cm (err e) decode_file tags = err (io e)
  load_geoip_dat cm (ok bytes) decode_file tags = elim (decode_file bytes) [
    | err e ↦ err (decode e)
    | ok list ↦ nets_of_tags cm list tags []
  ]
