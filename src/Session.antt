-- ===== src/Session.antt =====
-- core-lib/src/session.rs: the registry of streams. Locks are held only inside one operation, so
-- each operation is a function of the map. `Tx` is the sending half of an async channel.
pub mod Table
use echo_proxy_core.Base.{ℕ, Option, none, some, Bytes}
use Table.{HashMap, lookup, insert, remove, empty}

-- A send that the code makes on a channel: `route` ignores its result.
pub record Delivery (Tx : Type 0) : Type 0 where
  pub to : Tx
  pub payload : Bytes

pub record StreamRegistry (Tx : Type 0) : Type 0 where
  pub inner : HashMap Tx

-- The capacity of a stream's channel.
abbrev pub stream_capacity : ℕ
stream_capacity = 32

module _ {Tx : Type 0} where
  unfoldable pub new : StreamRegistry Tx
  unfolding empty
  new = record { inner = empty }

  -- `bounded` is what this call of `channel::bounded` returns at its capacity.
  unfoldable pub register :
      {Rx : Type 0} → (ℕ → Tx × Rx) → ℕ → StreamRegistry Tx → Rx × StreamRegistry Tx
  unfolding insert
  register bounded id r =
      let (tx, rx) = bounded stream_capacity in (rx, record { inner = insert id tx r.inner })

  -- The send, if any, that a DATA payload causes.
  unfoldable pub route : ℕ → Bytes → StreamRegistry Tx → Option (Delivery Tx)
  unfolding lookup
  route id payload r = elim (lookup id r.inner) [
    | none ↦ none
    | some tx ↦ some (record { to = tx; payload = payload })
  ]

  unfoldable pub close : ℕ → StreamRegistry Tx → StreamRegistry Tx
  unfolding remove
  close id r = record { inner = (remove id r.inner).1 }

  unfoldable pub close_all : StreamRegistry Tx → StreamRegistry Tx
  unfolding empty
  close_all r = record { inner = empty }
