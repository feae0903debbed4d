-- ===== src/Client/Listeners.antt =====
-- client/src/lib.rs: the accept loops of `run_proxy_resilient` and `run_proxy_with_routing`, which
-- spawn the handlers and give each the next stream id.
pub mod Ids
use echo_proxy_core.Base.{
  ℕ, zero, suc, ◌+◌, ◌-◌, ◌*◌, ◌/◌, ◌%◌, ◌^◌, ◌≤◌, ◌<◌, min, String, ◌≡◌, refl, sym, ap, ◌∙◌, subst,
  ◌≢◌, ◌↔◌, ◌⊎◌, inl, inr, Bool, true, false, not, ◌&&◌, ◌||◌, Option, none, some, List, [], ◌∷◌,
  ◌++◌, map, reverse, arith, Bytes, codes, ltb, leb, ◌==◌, if◌then◌else◌, within, leb→le, ltb→lt,
  lt→ltb, ==_iff, Bool-cases, Option-cases, bytes_eq, bytes_eq_sound, bytes_eq_refl, bytes_eq_iff,
  length, take, drop, get_elem?, any, all, All, length-append, take-append, drop-append,
  take-append-drop, length-take, length-drop, any-split, any-append, append_laws, Result, ok, err,
  guard, or_default, or_else, >>=-eq-some,
}

pub data Kind : Type 0 where
  http : Kind
  socks : Kind

-- What happens to the loops: a listener accepts a connection, or fails to; the shutdown channel is
-- sent to or closed.
pub data Event (E : Type 0) : Type 0 where
  http_accepted : Event E
  socks_accepted : Event E
  http_failed : E → Event E
  socks_failed : Event E
  shut_down : Event E

-- `next_id` is the `AtomicU32`, `spawned` the handlers with their ids, latest first, `keeper_stopped`
-- whether the keeper was sent its stop, and `returned` what the function returned, if it did.
pub record Listeners (E : Type 0) : Type 0 where
  pub next_id : ℕ
  pub spawned : List (Kind × ℕ)
  pub http_runs : Bool
  pub socks_runs : Bool
  pub keeper_stopped : Bool
  pub returned : Option (Result E (Unit {0}))

module _ {E : Type 0} where
  -- `has_socks` is whether a SOCKS5 listener was given.
  unfoldable pub start : Bool → Listeners E
  start has_socks = record {
    next_id = 1;
    spawned = [];
    http_runs = true;
    socks_runs = has_socks;
    keeper_stopped = false;
    returned = none;
  }

  -- `next_id.fetch_add(1, Ordering::Relaxed)` wraps around, and the handler is spawned.
  unfoldable pub spawn : Kind → Listeners E → Listeners E
  spawn kind s = record s {
    next_id = (s.next_id + 1) % 2 ^ 32;
    spawned = (kind, s.next_id) ∷ s.spawned;
  }

  -- The main loop ends: the keeper is told, and the function returns.
  unfoldable pub finish_with : Result E (Unit {0}) → Listeners E → Listeners E
  finish_with result s = record s {
    http_runs = false;
    keeper_stopped = true;
    returned = some result;
  }

  -- An event of a loop that has ended does not happen.
  unfoldable pub step : Event E → Listeners E → Listeners E
  unfolding spawn finish_with
  step http_accepted s = if s.http_runs then spawn http s else s
  step socks_accepted s = if s.socks_runs then spawn socks s else s
  step (http_failed e) s = if s.http_runs then finish_with (err e) s else s
  step socks_failed s = record s { socks_runs = false }
  step shut_down s = if s.http_runs then finish_with (ok tt) s else s

  unfoldable pub run : List (Event E) → Listeners E → Listeners E
  run [] s = s
  run (e ∷ es) s = run es (step e s)

  -- `run_proxy_with_routing`: without a connection, or if HELLO cannot be sent, it returns the error;
  -- then it runs the HTTP loop alone, until that ends (there is no keeper to tell).
  unfoldable pub run_proxy_with_routing :
      Result E (Unit {0})
      → Result E (Unit {0})
      → List (Event E)
      → List (Kind × ℕ) × Option (Result E (Unit {0}))
  run_proxy_with_routing (err e) sends es = ([], some (err e))
  run_proxy_with_routing (ok _) (err e) es = ([], some (err e))
  run_proxy_with_routing (ok _) (ok _) es = let s = run es (start false) in (s.spawned, s.returned)
