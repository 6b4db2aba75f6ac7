-- ===== src/Db/Machine.antt =====
-- The tables of prisma/schema.prisma, and the action monad.
use backend.Common.{ℕ, List, Bool, true, false}
use backend.Schema.{
  Error, Result, ok, err, User, BreedPair, BreedLevel, BreedBud, BreedSlot, EventServiceLog,
  Gen1Bud, GiftCard, Stats, Address,
}
use backend.Common.Int.{ℤ}

pub record Rows (R : Type 0) : Type 0 where
  pub rows : List R
  pub next : ℕ

-- What `emitGen0BudsBurned` sends to the sockets.
pub data Emitted : Type 0 where
  burned : Address → ℤ → ℤ → ℕ → Emitted
  not_burned : Address → Emitted

pub record State : Type 0 where
  pub users : List User
  pub pairs : Rows BreedPair
  pub levels : Rows BreedLevel
  pub breed_buds : Rows BreedBud
  pub slots : Rows BreedSlot
  pub logs : List EventServiceLog
  pub gen1_buds : Rows Gen1Bud
  pub gift_cards : Rows GiftCard
  pub stats : Rows Stats
  -- how often `Math.random()` has been called
  pub drawn : ℕ
  pub emitted : List Emitted
  -- the rejections that no handler awaits
  pub rejections : List Error

-- A request runs to an answer or an error, and leaves a state in both cases.
abbrev pub Exec : Type 0 → Type 0
Exec A = State → Result A × State

module _ {A : Type 0} where
  abbrev pub pure : A → Exec A
  pure a s = (ok a, s)

  abbrev pub raise : Error → Exec A
  raise e s = (err e, s)

  abbrev pub gets : (State → A) → Exec A
  gets f s = (ok (f s), s)

infixl 5 ◌>>=◌ ◌>>◌
abbrev pub continue : {A B : Type 0} → Result A → (A → Exec B) → Exec B
continue (ok a) k s = k a s
continue (err e) k s = (err e, s)

abbrev pub ◌>>=◌ : {A B : Type 0} → Exec A → (A → Exec B) → Exec B
◌>>=◌ m k s = let (r, s') = m s in continue r k s'

abbrev pub ◌>>◌ : {A B : Type 0} → Exec A → Exec B → Exec B
m >> k = m >>= λ _. k

-- `if (test) throw error`.
abbrev pub throw_if : Bool → Error → Exec (Unit {0})
throw_if true e s = (err e, s)
throw_if false e s = (ok tt, s)
