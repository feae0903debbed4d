-- ===== src/Tests.antt =====
-- Concrete instances for the crates `uuid` and `semver`, answers for the calls of the handlers, and runs
-- that the theorems are applied to.
mod Wire
mod ServerRuns
mod ClientRuns
mod ClientReads
mod Configured
mod Obfuscated
mod Loops
mod TunnelRuns
mod Exchanges
mod Unit
use echo_proxy_core.Base.{
  ℕ, zero, suc, ◌+◌, ◌-◌, ◌*◌, ◌/◌, ◌%◌, ◌^◌, ◌≤◌, ◌<◌, min, String, ◌≡◌, refl, sym, ap, ◌∙◌, subst,
  ◌≢◌, ◌↔◌, ◌⊎◌, inl, inr, Bool, true, false, not, ◌&&◌, ◌||◌, Option, none, some, List, [], ◌∷◌,
  ◌++◌, map, reverse, arith, Bytes, codes, ltb, leb, ◌==◌, if◌then◌else◌, within, leb→le, ltb→lt,
  lt→ltb, ==_iff, Bool-cases, Option-cases, bytes_eq, bytes_eq_sound, bytes_eq_refl, bytes_eq_iff,
  length, take, drop, any, all, All, length-append, take-append, drop-append, take-append-drop,
  length-take, length-drop, any-split, any-append, append_laws, Result, ok, err, ◌>>=◌, ◌>>◌, guard,
  or_default, or_else, >>=-eq-some,
}
use echo_proxy_core.Text.{CaseMap, lower_byte, upper_byte}
use echo_proxy_core.Server.Tokens.{UuidApi, UuidLaws}
use echo_proxy_core.Server.Control.{SemverApi}
use echo_proxy_core.Client.Task.{
  Call, Reply, send_frame, recv_ack, write_local, write_upstream, connect, snapshot_mux, register,
  insert_ack, close_stream, spawn_writer, relay_tcp,
}

-- A token is its own text.
abbrev pub text_uuid : UuidApi
text_uuid = record { Uuid = Bytes; eq = bytes_eq; show = λ a. a; parse = some }

pub text_uuid-UuidLaws : UuidLaws text_uuid
text_uuid-UuidLaws = record { eq_iff = bytes_eq_iff; parse-show = λ a. refl }

-- A version is its text, and 0.2.0 the one that is supported.
abbrev pub text_semver : SemverApi
text_semver = record { Version = Bytes; parse = some; matches_supported = bytes_eq (codes "0.2.0") }

-- Every call succeeds.
abbrev pub succeeds : (c : Call) → Reply c
succeeds (send_frame f) = true
succeeds (recv_ack id t) = some true
succeeds (write_local b) = true
succeeds (write_upstream b) = true
succeeds (connect h) = true
succeeds snapshot_mux = true
succeeds (register id) = tt
succeeds (insert_ack id) = tt
succeeds (close_stream id) = tt
succeeds (spawn_writer id) = tt
succeeds relay_tcp = tt

-- Nothing goes around the tunnel.
abbrev pub never : Bytes → ℕ → Bool
never host port = false

-- The case mapping on ASCII text.
abbrev pub ascii : CaseMap
ascii = record { to_lowercase = map lower_byte; to_uppercase = map upper_byte }
