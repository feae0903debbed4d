-- ===== src/Server/Tokens.antt =====
-- server/src/lib.rs: the store of session tokens, `Arc<Mutex<HashSet<Uuid>>>`.
use echo_proxy_core.Base.{
  ◌≡◌, refl, ◌↔◌, Bool, true, false, not, ◌&&◌, ◌||◌, Option, some, List, [], ◌∷◌, arith, Bytes,
  if◌then◌else◌,
}

-- What the server uses of the crate `uuid`: equality, `Display` and `FromStr`.
pub record UuidApi : Type 1 where
  pub Uuid : Type 0
  pub eq : Uuid → Uuid → Bool
  pub show : Uuid → Bytes
  pub parse : Bytes → Option Uuid

-- The documented behaviour: `eq` is equality, and what was printed is read back.
pub record UuidLaws (u : UuidApi) : Type 0 where
  pub eq_iff : (a b : u.Uuid) → (u.eq a b ≡ true) ↔ (a ≡ b)
  pub parse-show : (a : u.Uuid) → u.parse (u.show a) ≡ some a

module _ (u : UuidApi) where
  open u use {Uuid, eq}

  -- A set as a list without repetition.
  abbrev pub TokenStore : Type 0
  TokenStore = List Uuid

  unfoldable pub holds : Uuid → TokenStore → Bool
  holds t [] = false
  holds t (x ∷ xs) = eq x t || holds t xs

  unfoldable pub insert : Uuid → TokenStore → TokenStore
  unfolding holds
  insert t s = if holds t s then s else t ∷ s

  without : Uuid → TokenStore → TokenStore
  without t [] = []
  without t (x ∷ xs) = let rest = without t xs in if eq x t then rest else x ∷ rest

  -- Whether it was there, and the store without it.
  unfoldable pub remove : Uuid → TokenStore → Bool × TokenStore
  unfolding holds without
  remove t s = (holds t s, without t s)

module _ {u : UuidApi} (laws : UuidLaws u) where
  open laws use {eq_iff}

  pub holds-insert :
      (t t' : u.Uuid) (s : TokenStore u) → holds u t' (insert u t s) ≡ (u.eq t t' || holds u t' s)
  unfolding insert holds
  holds-insert t t' s = ground (arith, eq_iff t t')

  pub holds-remove :
      (t t' : u.Uuid) (s : TokenStore u)
      → holds u t' (remove u t s).1 ≡ (not (u.eq t t') && holds u t' s)
  unfolding remove holds without
  holds-remove t t' [] = ground arith
  holds-remove t t' (x ∷ xs) =
      ground (arith, eq_iff x t, eq_iff x t', eq_iff t t', holds-remove t t' xs)

  pub found-remove : (t : u.Uuid) (s : TokenStore u) → (remove u t s).0 ≡ holds u t s
  unfolding remove
  found-remove t s = refl

  pub holds-nil : (t : u.Uuid) → holds u t [] ≡ false
  unfolding holds
  holds-nil t = refl
