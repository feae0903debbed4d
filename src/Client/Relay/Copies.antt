-- ===== src/Client/Relay/Copies.antt =====
-- What a relay copies.
use echo_proxy_core.Base.{
  ◌≡◌, refl, ap, ◌∙◌, Bool, true, false, not, Option, none, some, List, [], ◌∷◌, ◌++◌, Bytes,
}
use mathlib.Core.List.{append-nil, append_assoc}
use echo_proxy_core.Client.Relay.{
  Copy, copy_step, Relay, Event, read_a, read_b, start, step, run, returned,
}

-- The turns of one direction.
abbrev pub turns_a : List Event → List (Option Bytes × Bool)
turns_a [] = []
turns_a (read_a read wrote ∷ es) = (read, wrote) ∷ turns_a es
turns_a (read_b read wrote ∷ es) = turns_a es

abbrev pub turns_b : List Event → List (Option Bytes × Bool)
turns_b [] = []
turns_b (read_a read wrote ∷ es) = turns_b es
turns_b (read_b read wrote ∷ es) = (read, wrote) ∷ turns_b es

-- The reads up to the first that ends the direction or is not written.
abbrev pub copied : List (Option Bytes × Bool) → List Bytes
copied ((some bytes, true) ∷ ts) = bytes ∷ copied ts
copied _ = []

-- Whether each turn reads and writes.
abbrev pub goes_on : List (Option Bytes × Bool) → Bool
goes_on [] = true
goes_on ((some bytes, true) ∷ ts) = goes_on ts
goes_on _ = false

abbrev after : List (Option Bytes × Bool) → Copy → Copy
after [] c = c
after ((read, wrote) ∷ ts) c = after ts (copy_step read wrote c)

run-after :
    (es : List Event) (r : Relay)
    → run es r
      ≡ record { a_to_b = after (turns_a es) r.a_to_b; b_to_a = after (turns_b es) r.b_to_a }
unfolding run step
run-after [] r = refl
run-after (read_a read wrote ∷ es) r = run-after es (step (read_a read wrote) r)
run-after (read_b read wrote ∷ es) r = run-after es (step (read_b read wrote) r)

abbrev with_written : List Bytes → Bool → Copy
with_written w g = record { written = w; going = g }

after-ended :
    (ts : List (Option Bytes × Bool)) (w : List Bytes)
    → after ts (with_written w false) ≡ with_written w false
unfolding copy_step
after-ended [] w = refl
after-ended ((read, wrote) ∷ ts) w = after-ended ts w

after-copied :
    (ts : List (Option Bytes × Bool)) (w : List Bytes)
    → after ts (with_written w true) ≡ with_written (w ++ copied ts) (goes_on ts)
unfolding copy_step
after-copied [] w = rw append-nil
after-copied ((none, wrote) ∷ ts) w = rw append-nil (after-ended ts w)
after-copied ((some bytes, true) ∷ ts) w =
    after-copied ts (w ++ bytes ∷ [])
    ∙ ap (λ v. with_written v (goes_on ts)) (append_assoc w (bytes ∷ []) (copied ts))
after-copied ((some bytes, false) ∷ ts) w = rw append-nil (after-ended ts w)

-- In every interleaving each peer is written exactly the other's reads, in order, up to the first read
-- that fails or is not written; neither direction depends on the other, and `relay_tcp` returns
-- exactly when the direction from `b` to `a` has come to such an end, however the other stands.
pub run-start-copied :
    (es : List Event)
    → ((run es start).a_to_b.written ≡ copied (turns_a es))
      × ((run es start).b_to_a.written ≡ copied (turns_b es))
      × (returned (run es start) ≡ not (goes_on (turns_b es)))
unfolding start returned
run-start-copied es =
    rw (run-after, after-copied (turns_a es) [], after-copied (turns_b es) []) (refl, refl, refl)
