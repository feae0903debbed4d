-- ===== src/Tests/Unit/Networks.antt =====
-- client/src/geoip.rs: `mod tests`.
use echo_proxy_core.Base.{◌≡◌, refl, Bool, true, false, List, [], ◌∷◌, codes, Result, err, ok}
use echo_proxy_core.Tests.{ascii}
use echo_proxy_core.Tests.Unit.Routes.{v4_nets}
use echo_proxy_core.Client.Geoip.{GeoIpError, io, load_geoip_dat}

abbrev is_io_error : Result GeoIpError (List v4_nets.IpNet) → Bool
is_io_error (err (io e)) = true
is_io_error _ = false

abbrev missing_file_returns_io_error : Bool
missing_file_returns_io_error =
    is_io_error
      (load_geoip_dat v4_nets ascii (err (codes "not found")) (λ bytes. ok []) (codes "cn" ∷ []))

test_passes : missing_file_returns_io_error ≡ true
unfolding load_geoip_dat
test_passes = refl
