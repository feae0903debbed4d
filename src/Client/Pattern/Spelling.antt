-- ===== src/Client/Pattern/Spelling.antt =====
-- How the entries of a routing list are read.
use echo_proxy_core.Base.{ℕ, ◌≤◌, ◌≡◌, refl, ap, false, ◌&&◌, none, some, ◌∷◌, ◌++◌, Bytes, ◌==◌}
use echo_proxy_core.Text.{CaseMap, has_byte}
use echo_proxy_core.Text.Laws.{rsplit_once-join, rsplit_once-none}
use echo_proxy_core.Text.Decimal.{show_decimal}
use echo_proxy_core.Client.Address.Split.{has_byte-show_decimal, parse_u16-show}
use echo_proxy_core.Client.Pattern.{with_port, parse, matches, host_matches}

parse-port :
    (cm : CaseMap) (text host : Bytes) (port : ℕ)
    → cm.to_lowercase text ≡ host ++ b':' ∷ show_decimal port
    → port ≤ 65535
    → parse cm text ≡ record { host = host; port = some port }
unfolding parse with_port
parse-port cm text host port e h =
    rw
      (
        parse,
        e,
        rsplit_once-join b':' host (show_decimal port) (has_byte-show_decimal port),
        with_port,
        parse_u16-show port h,
      )
      refl

parse-host :
    (cm : CaseMap) (text host : Bytes)
    → cm.to_lowercase text ≡ host
    → has_byte b':' host ≡ false
    → parse cm text ≡ record { host = host; port = none }
unfolding parse
parse-host cm text host e h =
    rw (parse, e, rsplit_once-none b':' host h) (ap (λ s. record { host = s; port = none }) e)

-- An entry that is "host:port" in lower case, with a port of a u16 and a host without a colon, matches exactly that port of the
-- hosts that the same entry without its port matches; the latter matches them on every port.
pub matches-parse :
    (cm : CaseMap) (long short host target : Bytes) (own port : ℕ)
    → cm.to_lowercase long ≡ host ++ b':' ∷ show_decimal own
    → own ≤ 65535
    → cm.to_lowercase short ≡ host
    → has_byte b':' host ≡ false
    → (matches (parse cm long) target port
        ≡ ((own == port) && matches (parse cm short) target port))
      × (matches (parse cm short) target port ≡ host_matches host target)
unfolding matches
matches-parse cm long short host target own port e h k n =
    rw (parse-port cm long host own e h, parse-host cm short host k n) (refl, refl)
