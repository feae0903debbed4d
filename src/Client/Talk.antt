-- ===== src/Client/Talk.antt =====
-- Reading exactly and writing on a TCP stream: what the peer sends is a list of bytes, and a read
-- that it does not cover fails.
use echo_proxy_core.Base.{
  ℕ, Bool, true, false, Option, none, some, List, [], ◌∷◌, ◌++◌, Bytes, leb, if◌then◌else◌, length,
  take, drop,
}

-- The value, unless the conversation was given up; what was written; what is left to read.
pub record Talked (A : Type 0) : Type 0 where
  pub value : Option A
  pub written : List Bytes
  pub rest : Bytes

abbrev pub Talk : Type 0 → Type 0
Talk A = Bytes → Talked A

-- `Some(a)`
abbrev pub give : {A : Type 0} → A → Talk A
give a s = record { value = some a; written = []; rest = s }

-- `return None`
abbrev pub give_up : {A : Type 0} → Talk A
give_up s = record { value = none; written = []; rest = s }

abbrev pub after_talk : {A B : Type 0} → Talked A → (A → Talk B) → Talked B
after_talk t f = elim t.value [
  | none ↦ record { value = none; written = t.written; rest = t.rest }
  | some a ↦
      (let u = f a t.rest in
        record { value = u.value; written = t.written ++ u.written; rest = u.rest })
]

infixl 5 ◌>>=◌ ◌>>◌
abbrev pub ◌>>=◌ : {A B : Type 0} → Talk A → (A → Talk B) → Talk B
◌>>=◌ m f s = after_talk (m s) f

abbrev pub ◌>>◌ : {A B : Type 0} → Talk A → Talk B → Talk B
m >> k = m >>= λ _. k

-- `read_exact(&mut buf).await.ok()?` on a buffer of `n` bytes.
unfoldable pub read_exact : ℕ → Talk Bytes
read_exact n s =
    if leb n (length s)
    then record { value = some (take n s); written = []; rest = drop n s }
    else record { value = none; written = []; rest = [] }

-- `let _ = write_all(bytes).await`
abbrev pub write : Bytes → Talk (Unit {0})
write bytes s = record { value = some tt; written = bytes ∷ []; rest = s }

-- `write_all(bytes).await.ok()?`, which succeeds or not.
abbrev pub write_or_give_up : Bool → Bytes → Talk (Unit {0})
write_or_give_up true bytes s = record { value = some tt; written = bytes ∷ []; rest = s }
write_or_give_up false bytes s = record { value = none; written = []; rest = s }
