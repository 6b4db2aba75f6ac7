-- ===== src/HashTable.antt =====
-- src/hash-table/hash-table.service.ts: the rates that the rules of the game look up.
mod Data
pub mod Picks
pub use Data.{RateTable, Traits, Reward, hash_table_reward}
unfoldable pub use Data.{hash_table, hash_table_begin, hash_table_gen1}
use backend.Common.{
  ℕ, ◌-◌, ◌*◌, Option, none, some, List, [], ◌∷◌, ltb, ◌==◌, if◌then◌else◌, length,
}
use backend.Common.Int.{ℤ, pos, leb_ℤ}
use backend.Schema.{Error, err}
use backend.Db.{Exec, ◌>>=◌}
use backend.Env.{Env}
use backend.Utils.{random_number, pick}

-- `object[key]`, by the keys' order.
module _ {V : Type 0} where
  abbrev pub lookup : ℕ → List (ℕ × V) → Option V
  lookup k [] = none
  lookup k ((j, v) ∷ t) = let rest = lookup k t in if k == j then some v else rest

-- `table[thcId]?.[budSize]`.
unfoldable pub look_up_rate : RateTable → ℕ → ℕ → Option ℤ
look_up_rate t thc_id bud_size = elim (lookup thc_id t) [ none ↦ none | some r ↦ lookup bud_size r ]

abbrev or_zero : Option ℤ → ℤ
or_zero none = pos 0
or_zero (some r) = r

-- `lookUpBreedRate`: 0, and a warning, where the table has no entry.
unfoldable pub look_up_breed_rate : ℕ → ℕ → ℤ
unfolding look_up_rate
look_up_breed_rate thc_id bud_size = or_zero (look_up_rate hash_table thc_id bud_size)

-- `lookUpBeginningSuccessRate`.
unfoldable pub look_up_beginning_success_rate : ℕ → ℕ → ℤ
unfolding look_up_rate
look_up_beginning_success_rate thc_id bud_size =
    or_zero (look_up_rate hash_table_begin thc_id bud_size)

-- `Object.keys(table)`, sorted: the tables are written in the order of their keys.
abbrev pub rates_of : {V : Type 0} → List (ℕ × V) → List ℕ
rates_of [] = []
rates_of ((k, v) ∷ t) = k ∷ rates_of t

abbrev last_or : ℕ → List ℕ → ℕ
last_or d [] = d
last_or d (x ∷ xs) = last_or x xs

-- The loop over the rates: the first that is not below the given one, which is in tenths.
abbrev pub first_from : ℤ → List ℕ → Option ℕ
first_from rate [] = none
first_from rate (r ∷ rs) =
    let rest = first_from rate rs in if leb_ℤ rate (pos (10 * r)) then some r else rest

abbrev found_or : ℕ → Option ℕ → ℕ
found_or d none = d
found_or d (some r) = r

-- `getMatchingGen1Rate`: past the end, the last of the rates.
unfoldable pub get_matching_gen1_rate : ℤ → List ℕ → ℕ
get_matching_gen1_rate rate rates = found_or (last_or 0 rates) (first_from rate rates)

-- The random choice of `lookUpGen1Bud` within its group.
unfoldable pub pick_traits : Env → Option (List Traits) → Exec Traits
unfolding random_number pick
pick_traits env none s = (err Error.type_error, s)
pick_traits env (some group) s = (do i ← random_number env (length group - 1) 0; pick group i) s

-- `lookUpGen1Bud`.
unfoldable pub look_up_gen1_bud : Env → ℤ → Exec Traits
unfolding get_matching_gen1_rate pick_traits hash_table_gen1
look_up_gen1_bud env rate =
    pick_traits env
      (lookup (get_matching_gen1_rate rate (rates_of hash_table_gen1)) hash_table_gen1)

-- `lookUpRewardTable`, at a whole rate: its `baseRate` of -1 is `none`.
unfoldable pub look_up_reward_table : ℕ → Option Reward
look_up_reward_table rate = elim (first_from (pos (10 * rate)) (rates_of hash_table_reward)) [
  | none ↦ none
  | some base_rate ↦ if ltb 0 base_rate then lookup base_rate hash_table_reward else none
]
