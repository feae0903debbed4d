-- ===== src/Client/Relay.antt =====
-- client/src/lib.rs: `relay_tcp`, which joins two TCP streams: a task copies from `a` to `b`, and the
-- function itself copies from `b` to `a` and then returns. To drop the task's handle detaches it.
pub mod Copies
use echo_proxy_core.Base.{
  ℕ, zero, suc, ◌+◌, ◌-◌, ◌*◌, ◌/◌, ◌%◌, ◌^◌, ◌≤◌, ◌<◌, min, String, ◌≡◌, refl, sym, ap, ◌∙◌, subst,
  ◌≢◌, ◌↔◌, ◌⊎◌, inl, inr, Bool, true, false, not, ◌&&◌, ◌||◌, Option, none, some, List, [], ◌∷◌,
  ◌++◌, map, reverse, arith, Bytes, codes, ltb, leb, ◌==◌, if◌then◌else◌, within, leb→le, ltb→lt,
  lt→ltb, ==_iff, Bool-cases, Option-cases, bytes_eq, bytes_eq_sound, bytes_eq_refl, bytes_eq_iff,
  length, take, drop, get_elem?, any, all, All, length-append, take-append, drop-append,
  take-append-drop, length-take, length-drop, any-split, any-append, append_laws, Result, ok, err,
  guard, or_default, or_else, >>=-eq-some,
}

-- A direction: what was written, oldest first, and whether its loop goes on. What a failed write may
-- have sent is not counted.
pub record Copy : Type 0 where
  pub written : List Bytes
  pub going : Bool

-- A read (`none` is `Ok(0)` or an error) and whether the write of what it read succeeds.
unfoldable pub copy_turn : Option Bytes → Bool → Copy → Copy
copy_turn none wrote c = record c { going = false }
copy_turn (some bytes) true c = record c { written = c.written ++ bytes ∷ [] }
copy_turn (some bytes) false c = record c { going = false }

unfoldable pub copy_step : Option Bytes → Bool → Copy → Copy
unfolding copy_turn
copy_step read wrote c = if c.going then copy_turn read wrote c else c

pub record Relay : Type 0 where
  pub a_to_b : Copy
  pub b_to_a : Copy

pub data Event : Type 0 where
  read_a : Option Bytes → Bool → Event
  read_b : Option Bytes → Bool → Event

unfoldable pub start : Relay
start = record {
  a_to_b = record { written = []; going = true };
  b_to_a = record { written = []; going = true };
}

unfoldable pub step : Event → Relay → Relay
unfolding copy_step
step (read_a read wrote) r = record r { a_to_b = copy_step read wrote r.a_to_b }
step (read_b read wrote) r = record r { b_to_a = copy_step read wrote r.b_to_a }

unfoldable pub run : List Event → Relay → Relay
run [] r = r
run (e ∷ es) r = run es (step e r)

-- `relay_tcp` returns when its own loop has ended.
unfoldable pub returned : Relay → Bool
returned r = not r.b_to_a.going
