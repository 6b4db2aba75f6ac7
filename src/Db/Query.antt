-- ===== src/Db/Query.antt =====
-- The queries that the handlers use, over one table.
use backend.Common.{
  true, map, ltb, ℕ, suc, ◌+◌, ◌%◌, List, [], ◌∷◌, ◌++◌, Option, none, some, Bool, ◌==◌,
  if◌then◌else◌, length, get_elem?, keep, tally, first, change,
}
use backend.Schema.{
  Result, Error, ok, err, User, BreedPair, BreedLevel, BreedBud, BreedSlot, EventServiceLog,
  Gen1Bud, GiftCard, Address,
}
use backend.Db.Machine.{Rows, State, Exec}

-- A model with an `autoincrement()` key: where its rows stand in the state, and their key.
pub record Table (R : Type 0) : Type 0 where
  pub get : State → Rows R
  pub put : Rows R → State → State
  pub key : R → ℕ

abbrev pub pair_table : Table BreedPair
pair_table = record { get = λ s. s.pairs; put = λ t s. record s { pairs = t }; key = λ p. p.id }

abbrev pub level_table : Table BreedLevel
level_table = record { get = λ s. s.levels; put = λ t s. record s { levels = t }; key = λ l. l.id }

abbrev pub breed_bud_table : Table BreedBud
breed_bud_table = record {
  get = λ s. s.breed_buds;
  put = λ t s. record s { breed_buds = t };
  key = λ b. b.id;
}

abbrev pub slot_table : Table BreedSlot
slot_table = record { get = λ s. s.slots; put = λ t s. record s { slots = t }; key = λ x. x.id }

abbrev pub gen1_table : Table Gen1Bud
gen1_table = record {
  get = λ s. s.gen1_buds;
  put = λ t s. record s { gen1_buds = t };
  key = λ b. b.id;
}

abbrev pub card_table : Table GiftCard
card_table = record {
  get = λ s. s.gift_cards;
  put = λ t s. record s { gift_cards = t };
  key = λ c. c.id;
}

module _ {R : Type 0} (t : Table R) where
  -- The query names the primary key, so at most one row fits.
  abbrev pub find_first : (R → Bool) → Exec (Option R)
  find_first w s = (ok (first w (t.get s).rows), s)

  -- No order is asked for, so any fitting row may come: the database's choice is a number.
  abbrev pub find_any : (R → Bool) → ℕ → Exec (Option R)
  find_any w choice s =
      let fits = keep w (t.get s).rows in (ok (get_elem? fits (choice % length fits)), s)

  abbrev pub find_many : (R → Bool) → Exec (List R)
  find_many w s = (ok (keep w (t.get s).rows), s)

  abbrev pub count : (R → Bool) → Exec ℕ
  count w s = (ok (tally w (t.get s).rows), s)

  abbrev pub update_many : (R → Bool) → (R → R) → Exec (Unit {0})
  update_many w f s =
      (ok tt, t.put (record { rows = change w f (t.get s).rows; next = (t.get s).next }) s)

  -- `update` by primary key is an error where no row has the key.
  abbrev pub updated : ℕ → (R → R) → Option R → Exec R
  updated i f none s = (err Error.prisma, s)
  updated i f (some r) s = (
    ok (f r),
    t.put (record { rows = change (λ x. t.key x == i) f (t.get s).rows; next = (t.get s).next }) s,
  )

  abbrev pub update : ℕ → (R → R) → Exec R
  update i f s = updated i f (first (λ x. t.key x == i) (t.get s).rows) s

  -- `create`: the row is built from its new key.
  abbrev pub create : (ℕ → R) → Exec R
  create f s =
      let r = f (t.get s).next in
      (ok r, t.put (record { rows = (t.get s).rows ++ r ∷ []; next = suc (t.get s).next }) s)

  abbrev pub numbered : ℕ → List (ℕ → R) → List R
  numbered i [] = []
  numbered i (f ∷ fs) = f i ∷ numbered (suc i) fs

  abbrev pub create_many : List (ℕ → R) → Exec (Unit {0})
  create_many fs s = (
    ok tt,
    t.put
        (record {
          rows = (t.get s).rows ++ numbered (t.get s).next fs;
          next = (t.get s).next + length fs;
        })
        s,
  )

-- A promise that is not awaited: the request goes on with the promise, an object and so truthy,
-- and where the promise is rejected, nobody handles that.
abbrev pub left_over : {A : Type 0} → Result A → State → State
left_over (ok a) s = s
left_over (err e) s = record s { rejections = s.rejections ++ e ∷ [] }

abbrev pub not_awaited : {A : Type 0} → Exec A → Exec Bool
not_awaited m s = (ok true, left_over (m s).0 (m s).1)

-- The value of a column that is not nullable: with `null` the client throws.
abbrev pub required : {A : Type 0} → Option A → Exec A
required none s = (err Error.prisma, s)
required (some a) s = (ok a, s)

-- `breedPair.create`: `BreedPair_userAddress_fkey` refuses a row whose user has none.
abbrev pub create_pair_row : (ℕ → BreedPair) → Exec BreedPair
create_pair_row f s =
    if tally (λ u. u.address == (f s.pairs.next).user_address) s.users == 0
    then (err Error.prisma, s)
    else create pair_table f s

-- `user.findUnique`, `user.update`: the key is the address.
abbrev pub find_user : Address → Exec (Option User)
find_user a s = (ok (first (λ u. u.address == a) s.users), s)

abbrev updated_user : Address → (User → User) → Option User → Exec User
updated_user a f none s = (err Error.prisma, s)
updated_user a f (some u) s =
    (ok (f u), record s { users = change (λ u. u.address == a) f s.users })

abbrev pub update_user : Address → (User → User) → Exec User
update_user a f s = updated_user a f (first (λ u. u.address == a) s.users) s

-- `eventServiceLog.create`: `@@unique([txHash])` refuses a second row for one transaction.
abbrev pub create_log : EventServiceLog → Exec (Unit {0})
create_log l s =
    if tally (λ x. x.tx_hash == l.tx_hash) s.logs == 0
    then (ok tt, record s { logs = s.logs ++ l ∷ [] })
    else (err Error.prisma, s)

-- A group of a `GROUP BY` with its `count(*)`.
pub record Counted (K : Type 0) : Type 0 where
  pub key : K
  pub count : ℕ

-- SQL answers the groups that have rows, in any order; here in the order of the keys.
abbrev pub groups : {K R : Type 0} → (K → R → Bool) → List K → List R → List (Counted K)
groups is_in keys rows =
    keep (λ g. ltb 0 g.count) (map (λ k. record { key = k; count = tally (is_in k) rows }) keys)
