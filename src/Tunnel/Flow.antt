-- ===== src/Tunnel/Flow.antt =====
-- What is delivered at one end of the wire, against what was sent at the other.
use echo_proxy_core.Base.{
  ℕ, zero, suc, ◌≤◌, ◌≡◌, refl, sym, ap, ◌∙◌, subst, ◌⊎◌, inl, inr, Option, none, some, List, [],
  ◌∷◌, ◌++◌, arith, Bytes, ◌==◌, if◌then◌else◌, length, take, drop, get_elem?, length-append,
  take-append-drop,
}
use mathlib.Core.List.{Sublist, append_assoc, append-nil}
use mathlib.Core.List
use mathlib.Core.List.{sublist-append_left, nil-sublist}
use echo_proxy_core.Frame.{Frame, data_frame}
use echo_proxy_core.Session
use echo_proxy_core.Session.{StreamRegistry, Delivery}
use echo_proxy_core.Session.Table.{lookup, lookup-insert, lookup-remove, lookup-empty}

-- The payloads delivered to a stream, and those sent for it, oldest first.
abbrev pub payloads_to : ℕ → List (Delivery ℕ) → List Bytes
payloads_to id [] = []
payloads_to id (d ∷ ds) = payloads_to id ds ++ (if d.to == id then d.payload ∷ [] else [])

abbrev pub payloads_of : ℕ → List Frame → List Bytes
payloads_of id [] = []
payloads_of id (data_frame j bytes ∷ fs) = (if j == id then bytes ∷ [] else []) ++ payloads_of id fs
payloads_of id (_ ∷ fs) = payloads_of id fs

pub payloads_of-append :
    (id : ℕ) (xs ys : List Frame)
    → payloads_of id (xs ++ ys) ≡ payloads_of id xs ++ payloads_of id ys
payloads_of-append id [] ys = refl
payloads_of-append id (data_frame j bytes ∷ xs) ys =
    ap (λ zs. (if j == id then bytes ∷ [] else []) ++ zs) (payloads_of-append id xs ys)
    ∙ sym
        (append_assoc (if j == id then bytes ∷ [] else []) (payloads_of id xs) (payloads_of id ys))
payloads_of-append id (_ ∷ xs) ys = payloads_of-append id xs ys

pub take-get_elem? :
    (xs : List Frame) (k : ℕ) (f : Frame)
    → get_elem? xs k ≡ some f
    → (take (suc k) xs ≡ take k xs ++ f ∷ []) × (suc k ≤ length xs)
take-get_elem? [] k f h = absurd cc
take-get_elem? (x ∷ xs) zero f h = (ap (λ y. y ∷ []) cc, omega arith)
take-get_elem? (x ∷ xs) (suc k) f h =
    let (e, l) = take-get_elem? xs k f h in (ap (λ ys. x ∷ ys) e, omega (arith, l))

pub take-append_le : (xs ys : List Frame) (k : ℕ) → k ≤ length xs → take k (xs ++ ys) ≡ take k xs
take-append_le xs ys zero h = refl
take-append_le [] ys (suc k) h = absurd (omega arith)
take-append_le (x ∷ xs) ys (suc k) h = ap (λ zs. x ∷ zs) (take-append_le xs ys k (omega arith))

-- The first `k` frames were taken, and the payloads delivered to the stream are among theirs, in
-- order.
pub record Flow (id : ℕ) (ds : List (Delivery ℕ)) (sent : List Frame) (k : ℕ) : Type 0 where
  pub taken : k ≤ length sent
  pub in_order : Sublist (payloads_to id ds) (payloads_of id (take k sent))

pub Flow-start : (id : ℕ) → Flow id [] [] 0
Flow-start id = record { taken = omega arith; in_order = List.Sublist.refl [] }

pub Flow-send :
    (id : ℕ) (ds : List (Delivery ℕ)) (sent new : List Frame) (k : ℕ)
    → Flow id ds sent k
    → Flow id ds (sent ++ new) k
Flow-send id ds sent new k v = record {
  taken = omega (arith, v.taken, length-append {0} sent new);
  in_order = rw (take-append_le sent new k v.taken) v.in_order;
}

-- One more frame is taken, and `more` is delivered of its payload.
Flow-more :
    (id : ℕ) (ds ds' : List (Delivery ℕ)) (sent : List Frame) (k : ℕ) (f : Frame)
    (more : List Bytes)
    → get_elem? sent k ≡ some f
    → payloads_to id ds' ≡ payloads_to id ds ++ more
    → Sublist more (payloads_of id (f ∷ []))
    → Flow id ds sent k
    → Flow id ds' sent (suc k)
Flow-more id ds ds' sent k f more h e s v =
    let (t, l) = take-get_elem? sent k f h in
    record {
      taken = l;
      in_order =
          rw (e, t, payloads_of-append id (take k sent) (f ∷ []))
            (List.Sublist.append v.in_order s);
    }

pub Flow-skip :
    (id : ℕ) (ds : List (Delivery ℕ)) (sent : List Frame) (k : ℕ) (f : Frame)
    → get_elem? sent k ≡ some f
    → Flow id ds sent k
    → Flow id ds sent (suc k)
Flow-skip id ds sent k f h v =
    Flow-more id ds ds sent k f [] h (sym (append-nil (payloads_to id ds)))
      (nil-sublist (payloads_of id (f ∷ []))) v

-- What a DATA frame brings to the channel of its stream, if it has one.
abbrev pub brought : Option ℕ → Bytes → List (Delivery ℕ) → List (Delivery ℕ)
brought none bytes ds = ds
brought (some tx) bytes ds = record { to = tx; payload = bytes } ∷ ds

-- A registry in which each stream's channel bears its id.
abbrev pub Keyed : ℕ → Option ℕ → Type 0
Keyed id o = (o ≡ none) ⊎ (o ≡ some id)

pub Flow-data :
    (id j : ℕ) (bytes : Bytes) (o : Option ℕ) (ds : List (Delivery ℕ)) (sent : List Frame) (k : ℕ)
    → get_elem? sent k ≡ some (data_frame j bytes)
    → Keyed j o
    → Flow id ds sent k
    → Flow id (brought o bytes ds) sent (suc k)
Flow-data id j bytes o ds sent k h (inl n) v =
    subst (λ o. Flow id (brought o bytes ds) sent (suc k)) (sym n) (Flow-skip id ds sent k _ h v)
Flow-data id j bytes o ds sent k h (inr e) v =
    subst (λ o. Flow id (brought o bytes ds) sent (suc k)) (sym e)
      (Flow-more id ds _ sent k _ (if j == id then bytes ∷ [] else []) h refl
        (sublist-append_left (if j == id then bytes ∷ [] else []) []) v)

-- Nothing is delivered that was not sent.
pub Flow-sublist :
    (id : ℕ) (ds : List (Delivery ℕ)) (sent : List Frame) (k : ℕ)
    → Flow id ds sent k
    → Sublist (payloads_to id ds) (payloads_of id sent)
Flow-sublist id ds sent k v =
    let e : payloads_of id sent ≡ payloads_of id (take k sent) ++ payloads_of id (drop k sent) =
      ap (payloads_of id) (sym (take-append-drop k sent))
      ∙ payloads_of-append id (take k sent) (drop k sent) in
    rw e (
      List.Sublist.trans v.in_order
        (sublist-append_left (payloads_of id (take k sent)) (payloads_of id (drop k sent))))

abbrev pub Keys : StreamRegistry ℕ → Type 0
Keys r = (id : ℕ) → Keyed id (lookup id r.inner)

pub Keys-new : Keys Session.new
unfolding Session.new
Keys-new id = inl (lookup-empty {V = ℕ} id)

pub Keys-close : (j : ℕ) (r : StreamRegistry ℕ) → Keys r → Keys (Session.close j r)
unfolding Session.close
Keys-close j r h id = ground (arith, h id, lookup-remove j id r.inner)

pub Keys-close_all : (r : StreamRegistry ℕ) → Keys (Session.close_all r)
unfolding Session.close_all
Keys-close_all r id = inl (lookup-empty {V = ℕ} id)

pub Keys-register :
    (j : ℕ) (r : StreamRegistry ℕ) → Keys r → Keys (Session.register (λ _. (j, tt)) j r).1
unfolding Session.register
Keys-register j r h id = ground (arith, h id, lookup-insert j id j r.inner)
