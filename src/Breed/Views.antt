-- ===== src/Breed/Views.antt =====
-- src/breed/dto/breed.dto.ts, and the handlers of src/breed/breed.controller.ts that only read.
-- The class serializer leaves out `rate` and `updatedAt`, and the rate of a level becomes its
-- status.
use backend.Common.{
  ℕ, ◌+◌, ◌*◌, Option, none, some, Bool, true, false, ◌&&◌, List, [], ◌∷◌, map, leb, ◌==◌,
  if◌then◌else◌, truthy, keep, distinct,
}
use backend.Common.Int.{ℤ}
use backend.Schema.{
  Address, Caller, BreedPair, BreedLevel, BreedBud, BreedPairStatus, is_paired, is_item,
}
use backend.Db.{State, Exec, gets, Counted, groups}
use backend.Env.{Env, config}
use backend.Utils.{BonusRateStatus, get_bonus_rate_status, get_breed_time}

-- `BreedLevelDto`. A field that is not set is `none`.
pub record BreedLevelDto : Type 0 where
  pub id : ℕ
  pub pair_id : ℕ
  pub level : ℕ
  pub created_at : ℕ
  pub end_at : Option ℕ
  pub bonus_rate : Option BonusRateStatus
  pub buds : Option (List BreedBud)
  pub male_breed_bud_id : Option ℕ
  pub female_breed_bud_id : Option ℕ

-- `BreedPairDto`.
pub record BreedPairDto : Type 0 where
  pub id : ℕ
  pub male_bud_id : ℤ
  pub female_bud_id : ℤ
  pub created_at : ℕ
  pub user_address : Address
  pub current_level : ℕ
  pub status : BreedPairStatus
  pub slot_id : ℕ
  pub game_key_id : ℕ
  pub game_item_id : Option ℕ
  pub levels : Option (List BreedLevelDto)

-- The constructor of `BreedLevelDto`, on a level with its buds, and seconds.
unfoldable pub new_level_dto : Env → ℕ → BreedLevel → List BreedBud → BreedLevelDto
new_level_dto env breed_time level buds =
    let timed = truthy (some breed_time) in
    let end_at = level.created_at + breed_time * 1000 in
    let is_breed_time_elapsed = timed && leb end_at env.now in
    record {
      id = level.id;
      pair_id = level.pair_id;
      level = level.level;
      created_at = level.created_at;
      end_at = if timed then some end_at else none;
      bonus_rate =
          if is_breed_time_elapsed then some (get_bonus_rate_status level.bonus_rate) else none;
      buds = if is_breed_time_elapsed then some buds else none;
      male_breed_bud_id = level.male_breed_bud_id;
      female_breed_bud_id = level.female_breed_bud_id;
    }

-- A level that the query has included, with its buds.
pub record IncludedLevel : Type 0 where
  pub level : BreedLevel
  pub buds : List BreedBud

abbrev pub level_dtos : Env → ℕ → Option (List IncludedLevel) → Option (List BreedLevelDto)
level_dtos env breed_time none = none
level_dtos env breed_time (some levels) =
    some (map (λ l. new_level_dto env breed_time l.level l.buds) levels)

-- The constructor of `BreedPairDto`.
unfoldable pub new_pair_dto : Env → ℕ → BreedPair → Option (List IncludedLevel) → BreedPairDto
unfolding new_level_dto get_breed_time
new_pair_dto env breed_time pair levels = record {
  id = pair.id;
  male_bud_id = pair.male_bud_id;
  female_bud_id = pair.female_bud_id;
  created_at = pair.created_at;
  user_address = pair.user_address;
  current_level = pair.current_level;
  status = pair.status;
  slot_id = pair.slot_id;
  game_key_id = pair.game_key_id;
  game_item_id = pair.game_item_id;
  levels = level_dtos env (get_breed_time breed_time pair.game_item_id) levels;
}

-- `orderBy: { level: 'asc' }`. Levels of one number, in any order in SQL, keep the table's.
abbrev pub insert_by_level : BreedLevel → List BreedLevel → List BreedLevel
insert_by_level l [] = l ∷ []
insert_by_level l (x ∷ xs) =
    let rest = insert_by_level l xs in if leb l.level x.level then l ∷ x ∷ xs else x ∷ rest

abbrev pub by_level : List BreedLevel → List BreedLevel
by_level [] = []
by_level (l ∷ ls) = insert_by_level l (by_level ls)

-- `include: { levels: { include: { buds: true } } }`
abbrev pub included : State → BreedPair → List IncludedLevel
included s pair =
    map (λ l. record { level = l; buds = keep (λ b. b.level_id == l.id) s.breed_buds.rows })
      (by_level (keep (λ l. l.pair_id == pair.id) s.levels.rows))

-- The `where` of `getPairs`: without a number it does not ask for one.
abbrev pub is_asked : Address → Option ℕ → BreedPair → Bool
is_asked user none p = p.user_address == user
is_asked user (some i) p = p.user_address == user && p.id == i

-- `getPairs`.
unfoldable pub get_pairs : Env → Caller → Option ℕ → Exec (List BreedPairDto)
unfolding new_pair_dto config
get_pairs env req pair_id = gets λ s.
    map (λ p. new_pair_dto env (config env.network).time_period p (some (included s p)))
      (keep (is_asked req.user pair_id) s.pairs.rows)

-- `getAllBreedingPairs`: the query includes no levels.
unfoldable pub get_all_breeding_pairs : Env → Exec (List BreedPairDto)
unfolding new_pair_dto config
get_all_breeding_pairs env = gets λ s.
    map (λ p. new_pair_dto env (config env.network).time_period p none)
      (keep (λ p. is_paired p.status) s.pairs.rows)

-- The groups of `gameItemId`, of which `null` is one.
abbrev pub in_group : Option ℕ → BreedPair → Bool
in_group none p = elim p.game_item_id [ none ↦ true | some i ↦ false ]
in_group (some i) p = is_item p.game_item_id i

abbrev pub item_numbers : List BreedPair → List ℕ
item_numbers [] = []
item_numbers (p ∷ ps) = elim p.game_item_id [
  | none ↦ item_numbers ps
  | some i ↦ i ∷ item_numbers ps
]

-- `getCurrentInBreedingItem`.
unfoldable pub get_current_in_breeding_item : Caller → Exec (List (Counted (Option ℕ)))
get_current_in_breeding_item req = gets λ s.
    let pairs = keep (λ p. is_paired p.status && p.user_address == req.user) s.pairs.rows in
    groups in_group (none ∷ map some (distinct (item_numbers pairs))) pairs
