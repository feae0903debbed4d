-- ===== src/Tunnel/Exact.antt =====
-- What both ends deliver while the stream has its channel.
use echo_proxy_core.Base.{
  ℕ, zero, suc, ◌≤◌, ◌≡◌, refl, sym, ap, ◌∙◌, subst, inl, inr, Bool, Option, some, List, [], ◌∷◌,
  ◌++◌, arith, Bytes, ◌==◌, Bool-cases, length, take, drop, get_elem?, length-append, length-take,
  ok,
}
use mathlib.Core.List.{append_assoc, append-nil}
use echo_proxy_core.Frame.{Frame, hello, open_stream, open_ack, data_frame, close}
use echo_proxy_core.Session.{Delivery}
use echo_proxy_core.Session.Table.{lookup}
use echo_proxy_core.Server.Session
use echo_proxy_core.Server.Session.{MuxSession}
use echo_proxy_core.Client.Conn
use echo_proxy_core.Client.Conn.{MuxConn}
use echo_proxy_core.Tunnel.{stream_id}
use echo_proxy_core.Tunnel.Flow.{
  payloads_to, payloads_of, payloads_of-append, take-get_elem?, take-append_le, brought, Keyed,
  Keys,
}
use echo_proxy_core.Tunnel.ServerEnd
use echo_proxy_core.Tunnel.ClientEnd

drop-all : (k : ℕ) (xs : List Frame) → length xs ≤ k → drop k xs ≡ []
drop-all zero [] h = refl
drop-all zero (x ∷ xs) h = absurd (omega arith)
drop-all (suc k) [] h = refl
drop-all (suc k) (x ∷ xs) h = drop-all k xs (omega arith)

drop-append_le : (k : ℕ) (xs ys : List Frame) → k ≤ length xs → drop k (xs ++ ys) ≡ drop k xs ++ ys
drop-append_le zero xs ys h = refl
drop-append_le (suc k) [] ys h = absurd (omega arith)
drop-append_le (suc k) (x ∷ xs) ys h = drop-append_le k xs ys (omega arith)

-- What was delivered to the stream is `before`, and then the payloads of all the frames for it among
-- those taken from the first `from` on.
pub record Exact (id : ℕ) (before : List Bytes) (from : ℕ) (ds : List (Delivery ℕ))
    (sent : List Frame) (k : ℕ) : Type 0 where
  pub from_le : from ≤ k
  pub taken : k ≤ length sent
  pub exact : payloads_to id ds ≡ before ++ payloads_of id (drop from (take k sent))

pub Exact-start :
    (id : ℕ) (ds : List (Delivery ℕ)) (sent : List Frame) (k : ℕ)
    → k ≤ length sent
    → Exact id (payloads_to id ds) k ds sent k
Exact-start id ds sent k h = record {
  from_le = omega arith;
  taken = h;
  exact = rw (drop-all k (take k sent) (omega (arith, length-take k sent)), append-nil) refl;
}

pub Exact-send :
    (id from : ℕ) (before : List Bytes) (ds : List (Delivery ℕ)) (sent new : List Frame) (k : ℕ)
    → Exact id before from ds sent k
    → Exact id before from ds (sent ++ new) k
Exact-send id from before ds sent new k v = record {
  from_le = v.from_le;
  taken = omega (arith, v.taken, length-append {0} sent new);
  exact = rw (take-append_le sent new k v.taken) v.exact;
}

pub Exact-more :
    (id from : ℕ) (before : List Bytes) (ds ds' : List (Delivery ℕ)) (sent : List Frame) (k : ℕ)
    (f : Frame)
    → get_elem? sent k ≡ some f
    → payloads_to id ds' ≡ payloads_to id ds ++ payloads_of id (f ∷ [])
    → Exact id before from ds sent k
    → Exact id before from ds' sent (suc k)
Exact-more id from before ds ds' sent k f h e v =
    let (t, l) = take-get_elem? sent k f h in
    let le : from ≤ length (take k sent) = omega (arith, v.from_le, v.taken, length-take k sent) in
    record {
      from_le = omega (arith, v.from_le);
      taken = l;
      exact =
          rw
            (
              e,
              t,
              drop-append_le from (take k sent) (f ∷ []) le,
              payloads_of-append id (drop from (take k sent)) (f ∷ []),
              v.exact,
            )
            (append_assoc before (payloads_of id (drop from (take k sent)))
              (payloads_of id (f ∷ [])));
    }

brought-payloads :
    (id j : ℕ) (bytes : Bytes) (o : Option ℕ) (ds : List (Delivery ℕ))
    → Keyed j o
    → (j ≡ id → o ≡ some id)
    → payloads_to id (brought o bytes ds)
      ≡ payloads_to id ds ++ payloads_of id (data_frame j bytes ∷ [])
brought-payloads id j bytes o ds (inr e) h =
    subst
      (λ o.
        payloads_to id (brought o bytes ds)
        ≡ payloads_to id ds ++ payloads_of id (data_frame j bytes ∷ []))
      (sym e) (rw append-nil refl)
brought-payloads id j bytes o ds (inl n) h = elim (Bool-cases (j == id)) [
  | inl e ↦ absurd (let q : o ≡ some id = h (ground arith) in ground (arith, n))
  | inr e ↦ rw (n, e, append-nil) refl
]

pub server-payloads :
    (id : ℕ) (f : Frame) (connected : Bool) (s : MuxSession ℕ)
    → Keys s.registry
    → lookup id s.registry.inner ≡ some id
    → payloads_to id (Session.dispatch (ok f) connected (stream_id f) s).delivered
      ≡ payloads_to id s.delivered ++ payloads_of id (f ∷ [])
unfolding Session.dispatch
server-payloads id (data_frame j bytes) connected s k o =
    rw (ServerEnd.deliver-delivered j bytes s) (
      brought-payloads id j bytes (lookup j s.registry.inner) s.delivered (k j)
        (λ e. ap (λ i. lookup i s.registry.inner) e ∙ o))
server-payloads id (open_stream j dest) connected s k o =
    rw (ServerEnd.handle_open-delivered j dest connected j s, append-nil) refl
server-payloads id (close j) connected s k o = sym (append-nil _)
server-payloads id (hello t) connected s k o = sym (append-nil _)
server-payloads id (open_ack j is_ok) connected s k o = sym (append-nil _)

pub client-payloads :
    (id : ℕ) (f : Frame) (c : MuxConn ℕ ℕ)
    → Keys c.registry
    → lookup id c.registry.inner ≡ some id
    → payloads_to id (Conn.dispatch (ok f) c).delivered
      ≡ payloads_to id c.delivered ++ payloads_of id (f ∷ [])
unfolding Conn.dispatch
client-payloads id (data_frame j bytes) c k o = rw (ClientEnd.deliver-delivered j bytes c) (
    brought-payloads id j bytes (lookup j c.registry.inner) c.delivered (k j)
      (λ e. ap (λ i. lookup i c.registry.inner) e ∙ o))
client-payloads id (open_ack j is_ok) c k o =
    rw (ClientEnd.resolve-delivered j is_ok c, append-nil) refl
client-payloads id (close j) c k o = sym (append-nil _)
client-payloads id (hello t) c k o = sym (append-nil _)
client-payloads id (open_stream j dest) c k o = sym (append-nil _)
