-- ===== src/Client/Geoip/Rules.antt =====
-- Which addresses the networks of a loaded file contain, and what makes a file fail.
use echo_proxy_core.Base.{
  ◌≡◌, refl, subst, Bool, false, ◌||◌, Option, none, some, List, [], ◌∷◌, ◌++◌, arith, Bytes,
  length, any, any-append, Result, ok, err, Outcome, Outcome-then,
}
use mathlib.Core.List.{flat_map}
use echo_proxy_core.Text.{CaseMap}
use echo_proxy_core.Net.{IpAddr}
use echo_proxy_core.Client.Geoip.{
  IpNetApi, GeoIpError, io, decode, tag_not_found, invalid_cidr, Cidr, Entry, to_net, to_nets,
  find_entry, nets_of_tags, load_geoip_dat,
}
use echo_proxy_core.Client.Geoip.Ranges.{tagged, find_entry-first, range_of, to_net-range_of}

module _ (net : IpNetApi) where
  -- What is at fault in a range: its length is neither 4 nor 16, or ipnet refuses its prefix.
  abbrev pub cidr_faults : Cidr → List GeoIpError
  cidr_faults c = elim (range_of net c) [ none ↦ invalid_cidr (length c.ip) ∷ [] | some n ↦ [] ]

  abbrev pub entry_faults : Bytes → Option Entry → List GeoIpError
  entry_faults tag none = tag_not_found tag ∷ []
  entry_faults tag (some e) = flat_map cidr_faults e.cidrs

  -- All faults of a file, in the order of the tags and of the ranges under each.
  abbrev pub file_faults :
      CaseMap
      → (Bytes → Result Bytes (List Entry))
      → List Bytes
      → Result Bytes Bytes
      → List GeoIpError
  file_faults cm decode_file tags (err e) = io e ∷ []
  file_faults cm decode_file tags (ok bytes) = elim (decode_file bytes) [
    | err e ↦ decode e ∷ []
    | ok list ↦ flat_map (λ tag. entry_faults tag (tagged cm tag list)) tags
  ]

  -- Whether a range contains the address, an entry does, or one of the tags' entries.
  abbrev pub cidr_contains : IpAddr → Cidr → Bool
  cidr_contains ip c = elim (range_of net c) [ none ↦ false | some n ↦ net.contains n ip ]

  abbrev pub entry_contains : IpAddr → Option Entry → Bool
  entry_contains ip none = false
  entry_contains ip (some e) = any (cidr_contains ip) e.cidrs

  abbrev pub file_contains :
      CaseMap
      → (Bytes → Result Bytes (List Entry))
      → List Bytes
      → Result Bytes Bytes
      → IpAddr
      → Bool
  file_contains cm decode_file tags (err e) ip = false
  file_contains cm decode_file tags (ok bytes) ip = elim (decode_file bytes) [
    | err e ↦ false
    | ok list ↦ any (λ tag. entry_contains ip (tagged cm tag list)) tags
  ]

  abbrev pub contained : IpAddr → List net.IpNet → Bool
  contained ip nets = any (λ n. net.contains n ip) nets

  to_net-Outcome :
      (ip : IpAddr) (c : Cidr)
      → Outcome (λ n. net.contains n ip ≡ cidr_contains ip c) (cidr_faults c) (to_net net c)
  to_net-Outcome ip c =
      rw (to_net-range_of net c)
        (elim (range_of net c)
          as (λ o.
            Outcome (λ n. net.contains n ip ≡ elim o [ none ↦ false | some x ↦ net.contains x ip ])
              (elim o [ none ↦ invalid_cidr (length c.ip) ∷ [] | some x ↦ [] ])
              (elim o [ none ↦ err (invalid_cidr (length c.ip)) | some x ↦ ok x ])) [
                | none ↦ refl
                | some x ↦ refl
              ])

  to_nets-Outcome :
      (ip : IpAddr) (cs : List Cidr) (nets : List net.IpNet)
      → Outcome
          (λ ns. contained ip ns ≡ (contained ip nets || any (cidr_contains ip) cs))
          (flat_map cidr_faults cs)
          (to_nets net cs nets)
  unfolding to_nets flat_map
  to_nets-Outcome ip [] nets = ground arith
  to_nets-Outcome ip (c ∷ cs) nets =
      Outcome-then _ _ (cidr_faults c) _ (to_net net c) (λ n. to_nets net cs (nets ++ n ∷ []))
        (to_net-Outcome ip c)
        (λ n e.
          subst
            (λ b.
              Outcome (λ ns. contained ip ns ≡ b) (flat_map cidr_faults cs)
                (to_nets net cs (nets ++ n ∷ [])))
            (ground (arith, e, any-append (λ n. net.contains n ip) nets (n ∷ [])))
            (to_nets-Outcome ip cs (nets ++ n ∷ [])))

  -- What the tags' entries add to the networks so far.
  abbrev tag_contains : CaseMap → List Entry → IpAddr → Bytes → Bool
  tag_contains cm list ip tag = entry_contains ip (tagged cm tag list)

  abbrev tag_faults : CaseMap → List Entry → Bytes → List GeoIpError
  tag_faults cm list tag = entry_faults tag (tagged cm tag list)

  nets_of_tags-Outcome :
      (cm : CaseMap) (list : List Entry) (ip : IpAddr) (tags : List Bytes) (nets : List net.IpNet)
      → Outcome
          (λ ns. contained ip ns ≡ (contained ip nets || any (tag_contains cm list ip) tags))
          (flat_map (tag_faults cm list) tags)
          (nets_of_tags net cm list tags nets)
  unfolding nets_of_tags flat_map
  nets_of_tags-Outcome cm list ip [] nets = ground arith
  nets_of_tags-Outcome cm list ip (tag ∷ tags) nets =
      subst
        (λ o.
          Outcome
            (λ ns.
              contained ip ns
              ≡ (contained ip nets || (entry_contains ip o || any (tag_contains cm list ip) tags)))
            (entry_faults tag o ++ flat_map (tag_faults cm list) tags)
            (nets_of_tags net cm list (tag ∷ tags) nets))
        (find_entry-first net cm tag list)
        (elim (find_entry net cm tag list)
          as (λ o.
            Outcome
              (λ ns. contained ip ns ≡ (
                contained ip nets || (entry_contains ip o || any (tag_contains cm list ip) tags)))
              (entry_faults tag o ++ flat_map (tag_faults cm list) tags)
              (elim o [
                | none ↦ err (tag_not_found tag)
                | some entry ↦ elim (to_nets net entry.cidrs nets) [
                  | ok nets' ↦ nets_of_tags net cm list tags nets'
                  | err e ↦ err e
                ]
              ])) [
                | none ↦ refl
                | some entry ↦
                    Outcome-then _ _ (flat_map cidr_faults entry.cidrs) _
                      (to_nets net entry.cidrs nets) (nets_of_tags net cm list tags)
                      (to_nets-Outcome ip entry.cidrs nets)
                      (λ nets' e.
                        subst
                          (λ b.
                            Outcome (λ ns. contained ip ns ≡ b) (flat_map (tag_faults cm list) tags)
                              (nets_of_tags net cm list tags nets'))
                          (ground (arith, e)) (nets_of_tags-Outcome cm list ip tags nets'))
              ])

  -- Loading a file fails with the first of its faults: it cannot be read or decoded, a tag has no entry,
  -- or a range under a tag has neither 4 nor 16 bytes, or a prefix whose low eight bits ipnet refuses.
  -- Without a fault the networks contain exactly the addresses that a range under one of the tags
  -- contains, by its bytes in their order and the low eight bits of its prefix. What is under a tag is
  -- the first entry whose country code is the tag, both in upper case.
  pub load_geoip_dat-Outcome :
      (cm : CaseMap) (file : Result Bytes Bytes) (decode_file : Bytes → Result Bytes (List Entry))
      (tags : List Bytes) (ip : IpAddr)
      → Outcome
          (λ nets. contained ip nets ≡ file_contains cm decode_file tags file ip)
          (file_faults cm decode_file tags file)
          (load_geoip_dat net cm file decode_file tags)
  unfolding load_geoip_dat
  load_geoip_dat-Outcome cm (err e) decode_file tags ip = refl
  load_geoip_dat-Outcome cm (ok bytes) decode_file tags ip =
      elim (decode_file bytes)
        as (λ r.
          Outcome
            (λ nets.
              contained ip nets
              ≡ elim r [ err e ↦ false | ok list ↦ any (tag_contains cm list ip) tags ])
            (elim r [ err e ↦ decode e ∷ [] | ok list ↦ flat_map (tag_faults cm list) tags ])
            (elim r [ err e ↦ err (decode e) | ok list ↦ nets_of_tags net cm list tags [] ])) [
              | err e ↦ refl
              | ok list ↦ nets_of_tags-Outcome cm list ip tags []
            ]
