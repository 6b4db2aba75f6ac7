-- ===== src/Breed/Service.antt =====
-- src/breed/breed.service.ts.
use backend.Common.{
  ℕ, ◌+◌, ◌*◌, Option, none, some, Bool, true, false, not, ◌&&◌, ◌||◌, List, [], ◌∷◌, map, ltb, leb,
  ◌==◌, if◌then◌else◌, truthy, includes, is_some,
}
use backend.Common.Int.{ℤ, pos, ◌+ℤ◌, ◌==ℤ◌}
use backend.Schema.{
  Error, Address, Bud, BudWithId, BreedBud, BreedPair, BreedLevel, BreedSlot, BudGender, is_paired,
  is_indoor, is_item, is_male, m, f, superweed_serum, weed_dr_pass,
}
use backend.Db.{
  Exec, pure, raise, gets, throw_if, ◌>>=◌, ◌>>◌, pair_table, level_table, breed_bud_table,
  find_first, find_many, count, create, create_many, update,
}
use backend.Env.{Env, config}
use backend.Utils.{random_number, generate_random_bud, default_options, get_breed_time}
use backend.HashTable.{look_up_breed_rate, look_up_beginning_success_rate}
use backend.Bud.{IdAndGender, get_metadatas, check_bud_pair_genders, dice_gen1_bud}

-- The loop of `getStartSuccessRate` over the metadata.
abbrev pub beginning_bonus : ℤ → List BudWithId → ℤ
beginning_bonus acc [] = acc
beginning_bonus acc (b ∷ bs) =
    beginning_bonus (acc +ℤ look_up_beginning_success_rate b.bud.thc b.bud.bud_size) bs

abbrev slot_bonus : Env → BreedSlot → ℤ
unfolding config
slot_bonus env slot =
    if is_indoor slot.type then (config env.network).indoor_slot_bonus_rate else pos 0

-- `baseSuccessRate`, after the two game items.
unfoldable pub base_rate : Env → Option ℕ → Exec ℤ
unfolding config random_number
base_rate env game_item_id =
    if is_item game_item_id superweed_serum
    then (do n ← random_number env 50 40; pure (pos (10 * n)))
    else if is_item game_item_id weed_dr_pass
    then (do n ← random_number env 80 50; pure (pos (10 * n)))
    else pure (config env.network).base_success_rate

-- `getStartSuccessRate`.
unfoldable pub get_start_success_rate : Env → ℤ → ℤ → Option ℕ → BreedSlot → Exec ℤ
unfolding base_rate config
get_start_success_rate env male female game_item_id slot = do
  let bonus = beginning_bonus (pos 0) (get_metadatas env (male ∷ female ∷ []))
  base ← base_rate env game_item_id
  pure (base +ℤ (bonus +ℤ slot_bonus env slot))

-- The `where` of `findPairInBreeding`.
abbrev pub in_breeding : ℤ → ℤ → BreedPair → Bool
in_breeding male female p =
    is_paired p.status && (p.female_bud_id ==ℤ female || p.male_bud_id ==ℤ male)

-- `findPairInBreeding`.
unfoldable pub find_pair_in_breeding : ℤ → ℤ → Exec ℕ
find_pair_in_breeding male female = count pair_table (in_breeding male female)

abbrev pub is_level : ℕ → ℕ → BreedLevel → Bool
is_level pair_id level l = l.pair_id == pair_id && l.level == level

-- `breedLevel.create`: `@@unique([pairId, level])`.
unfoldable pub create_level : Env → ℕ → ℕ → Exec BreedLevel
create_level env pair_id level = do
  n ← count level_table (is_level pair_id level)
  throw_if (ltb 0 n) Error.prisma
  create level_table λ i. record {
    id = i;
    pair_id = pair_id;
    level = level;
    created_at = env.now;
    bonus_rate = pos 0;
    male_breed_bud_id = none;
    female_breed_bud_id = none;
  }

-- The random bud of one gender, with the name and the image of a parent.
abbrev pub target_bud : Env → BudGender → Bud → Exec Bud
target_bud env gender parent = generate_random_bud env (record default_options {
  target_gender = some gender;
  target_name = some parent.name;
  target_image = some parent.image;
})

abbrev breed_bud : ℕ → Bud → ℕ → BreedBud
breed_bud level_id b i = record { id = i; bud = b; level_id = level_id }

-- The part of `startBreedLevel` under `if (!maxLevelReached)`.
unfoldable pub create_level_buds : Env → ℕ → ℕ → Bud → Bud → Exec (Unit {0})
unfolding create_level
create_level_buds env pair_id level male female = do
  b1 ← target_bud env m male
  b2 ← target_bud env f female
  b3 ← target_bud env f female
  b4 ← target_bud env m male
  l ← create_level env pair_id level
  create_many breed_bud_table
      (breed_bud l.id b1 ∷ breed_bud l.id b2 ∷ breed_bud l.id b3 ∷ breed_bud l.id b4 ∷ [])

-- `startBreedLevel`.
unfoldable pub start_breed_level : Env → BreedPair → Bud → Bud → Exec BreedPair
unfolding create_level_buds config
start_breed_level env pair male female = do
  let new_level = pair.current_level + 1
  if not (ltb (config env.network).target_level new_level)
      then create_level_buds env pair.id new_level male female
      else pure tt
  update pair_table pair.id λ p. record p { current_level = new_level }

-- `breedTimeElapsed`: times in milliseconds, the period in seconds.
unfoldable pub breed_time_elapsed : Env → ℕ → Option ℕ → Bool
unfolding config get_breed_time
breed_time_elapsed env start_date game_item_id =
    leb (start_date + get_breed_time (config env.network).time_period game_item_id * 1000) env.now

-- The answer of `evaluateBreedLevel`.
pub record Evaluated : Type 0 where
  pub bonus_rate : ℤ
  pub male_bud : Bud
  pub female_bud : Bud

-- One round of the loop of `evaluateBreedLevel` over the buds.
abbrev pub evaluate_bud : Evaluated → BreedBud → Evaluated
evaluate_bud e b = record {
  bonus_rate = e.bonus_rate +ℤ look_up_breed_rate b.bud.thc b.bud.bud_size;
  male_bud = if is_male b.bud.gender then b.bud else e.male_bud;
  female_bud = if is_male b.bud.gender then e.female_bud else b.bud;
}

abbrev pub evaluate_buds : Evaluated → List BreedBud → Evaluated
evaluate_buds e [] = e
evaluate_buds e (b ∷ bs) = evaluate_buds (evaluate_bud e b) bs

-- `buds[0]` and `buds[1]`, and the loop.
unfoldable pub evaluate_list : List BreedBud → Exec Evaluated
evaluate_list (b0 ∷ b1 ∷ bs) = pure (
    evaluate_buds (record { bonus_rate = pos 0; male_bud = b0.bud; female_bud = b1.bud })
      (b0 ∷ b1 ∷ bs))
evaluate_list bs = raise Error.type_error

abbrev pub breed_id_and_gender : BreedBud → IdAndGender
breed_id_and_gender b = (pos b.id, b.bud.gender)

unfoldable pub evaluate_level : Env → BreedPair → ℕ → ℕ → Option BreedLevel → Exec Evaluated
unfolding breed_time_elapsed check_bud_pair_genders evaluate_list
evaluate_level env pair male female none = raise (Error.not_found "Breed level not found")
evaluate_level env pair male female (some l) = do
  throw_if (not (l.bonus_rate ==ℤ pos 0)) (Error.unprocessable "Breed rate already evaluated")
  throw_if (not (breed_time_elapsed env l.created_at pair.game_item_id))
      (Error.unprocessable "Breeding time not elapsed")
  buds ← find_many breed_bud_table λ b. includes b.id (male ∷ female ∷ []) && b.level_id == l.id
  throw_if (not (check_bud_pair_genders (map breed_id_and_gender buds) (pos male) (pos female)))
      (Error.bad_request "Bud pair genders do not match")
  e ← evaluate_list buds
  update level_table l.id λ x. record x {
    bonus_rate = e.bonus_rate;
    male_breed_bud_id = some male;
    female_breed_bud_id = some female;
  }
  pure e

-- `evaluateBreedLevel`.
unfoldable pub evaluate_breed_level : Env → BreedPair → ℕ → ℕ → Exec Evaluated
unfolding evaluate_level
evaluate_breed_level env pair male female = do
  l ← find_first level_table (is_level pair.id pair.current_level)
  evaluate_level env pair male female l

-- The sum of `finalizeBreeding` over the levels from 1 to 5; with no level it adds nothing.
abbrev pub bonus_sum : ℕ → List BreedLevel → ℤ
bonus_sum pair_id [] = pos 0
bonus_sum pair_id (l ∷ ls) =
    (if l.pair_id == pair_id && leb 1 l.level && leb l.level 5 then l.bonus_rate else pos 0)
    +ℤ bonus_sum pair_id ls

-- `BreedService.finalizeBreeding`.
unfoldable pub finalize_rate : Env → BreedPair → Exec (Option Bud)
finalize_rate env pair = do
  bonus ← gets (λ s. bonus_sum pair.id s.levels.rows)
  dice_gen1_bud env (pair.rate +ℤ bonus)

abbrev enough : Option ℕ → ℕ → Bool
enough none min_amount = false
enough (some balance) min_amount = truthy (some balance) && not (ltb balance min_amount)

-- `checkGameItemBalance`.
unfoldable pub check_game_item_balance : Env → Address → ℕ → ℕ → Exec Bool
check_game_item_balance env user item min_amount = do
  throw_if (not (is_some (env.game_item_balance user item)))
      (Error.breeding "Check Game Item balance... RPC call error")
  throw_if (not (enough (env.game_item_balance user item) min_amount))
      (Error.unprocessable "Not enough balance of chosen game item")
  pure true

abbrev item_or_zero : Option ℕ → ℕ
item_or_zero none = 0
item_or_zero (some i) = i

-- `verifyGameItemPossession`.
unfoldable pub verify_game_item_possession : Env → BreedPair → Exec Bool
unfolding check_game_item_balance
verify_game_item_possession env pair = if not (truthy pair.game_item_id) then pure true else do
  let item = item_or_zero pair.game_item_id
  min_amount ←
      count pair_table λ p.
        p.user_address == pair.user_address && is_paired p.status && is_item p.game_item_id item
  throw_if (min_amount == 0) (Error.breeding "Incorrect game item count")
  check_game_item_balance env pair.user_address item min_amount
