-- ===== src/Client/Keeper.antt =====
-- client/src/lib.rs: `run_mux_keeper`, which keeps the shared connection and reconnects.
pub mod Backoff
pub mod Published
use echo_proxy_core.Base.{
  ℕ, zero, suc, ◌+◌, ◌-◌, ◌*◌, ◌/◌, ◌%◌, ◌^◌, ◌≤◌, ◌<◌, min, String, ◌≡◌, refl, sym, ap, ◌∙◌, subst,
  ◌≢◌, ◌↔◌, ◌⊎◌, inl, inr, Bool, true, false, not, ◌&&◌, ◌||◌, Option, none, some, List, [], ◌∷◌,
  ◌++◌, map, reverse, arith, Bytes, codes, ltb, leb, ◌==◌, if◌then◌else◌, within, leb→le, ltb→lt,
  lt→ltb, ==_iff, Bool-cases, Option-cases, bytes_eq, bytes_eq_sound, bytes_eq_refl, bytes_eq_iff,
  length, take, drop, any, all, All, length-append, take-append, drop-append, take-append-drop,
  length-take, length-drop, any-split, any-append, append_laws, Result, ok, err, ◌>>=◌, ◌>>◌, guard,
  or_default, or_else, >>=-eq-some,
}

-- Milliseconds.
abbrev pub reconnect_initial_ms : ℕ
reconnect_initial_ms = 500

abbrev pub reconnect_max_secs : ℕ
reconnect_max_secs = 30

abbrev pub max_backoff : ℕ
max_backoff = reconnect_max_secs * 1000

-- What a turn of the loops meets: no token; a token but no WebSocket; a WebSocket on which HELLO
-- cannot be sent; a connection; the first signal that it dropped; the shutdown, which ends a sleep
-- and a connection.
pub data Event (Conn : Type 0) : Type 0 where
  no_token : Event Conn
  no_mux : Event Conn
  no_hello : Event Conn
  connected : Conn → Event Conn
  disconnected : Event Conn
  shut_down : Event Conn

-- `sleeps` are the delays before the next attempt, `published` the connections put into `shared` and
-- `closed` those on which `close` was called, each latest first.
pub record Keeper (Conn : Type 0) : Type 0 where
  pub backoff : ℕ
  pub shared : Option Conn
  pub running : Bool
  pub sleeps : List ℕ
  pub published : List Conn
  pub closed : List Conn

module _ {Conn : Type 0} where
  unfoldable pub start : Keeper Conn
  start = record {
    backoff = reconnect_initial_ms;
    shared = none;
    running = true;
    sleeps = [];
    published = [];
    closed = [];
  }

  -- Sleep for the backoff, then double it up to the maximum.
  unfoldable pub sleep_and_double : Keeper Conn → Keeper Conn
  sleep_and_double k = record k {
    sleeps = k.backoff ∷ k.sleeps;
    backoff = min (k.backoff * 2) max_backoff;
  }

  abbrev got_token : Keeper Conn → Keeper Conn
  got_token k = record k { backoff = reconnect_initial_ms }

  -- `if let Some(c) = shared.lock().unwrap().take() { c.close(); }`
  unfoldable pub take_and_close : Keeper Conn → Keeper Conn
  take_and_close k = elim k.shared [
    | none ↦ k
    | some c ↦ record k { shared = none; closed = c ∷ k.closed }
  ]

  -- With no connection the keeper is in its attempts.
  unfoldable pub attempt : Event Conn → Keeper Conn → Keeper Conn
  attempt no_token k = sleep_and_double k
  attempt no_mux k = sleep_and_double (got_token k)
  attempt no_hello k = got_token k
  attempt (connected c) k = record k {
    backoff = reconnect_initial_ms;
    shared = some c;
    published = c ∷ k.published;
  }
  attempt disconnected k = k
  attempt shut_down k = record k { running = false }

  -- With a connection it waits for the end of it.
  unfoldable pub watch : Event Conn → Keeper Conn → Keeper Conn
  watch disconnected k = take_and_close k
  watch shut_down k = record (take_and_close k) { running = false }
  watch _ k = k

  unfoldable pub turn : Option Conn → Event Conn → Keeper Conn → Keeper Conn
  turn none e k = attempt e k
  turn (some c) e k = watch e k

  unfoldable pub step : Event Conn → Keeper Conn → Keeper Conn
  unfolding turn attempt watch sleep_and_double take_and_close
  step e k = if k.running then turn k.shared e k else k

  unfoldable pub run : List (Event Conn) → Keeper Conn → Keeper Conn
  run [] k = k
  run (e ∷ es) k = run es (step e k)
