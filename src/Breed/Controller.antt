-- ===== src/Breed/Controller.antt =====
-- src/breed/breed.controller.ts. Each handler is the whole request, from the first query on; a
-- part that runs on the result of a query is a function of its own.
use backend.Common.{
  ℕ, Option, none, some, Bool, true, false, not, ◌&&◌, List, ◌∷◌, map, ltb, ◌==◌, if◌then◌else◌,
  truthy, includes, is_some, length,
}
use backend.Common.Int.{ℤ}
use backend.Schema.{
  Error, Address, Caller, Bud, BudWithId, BreedPair, BreedSlot, Gen1Bud, paired, completed,
  canceled, failed, indoor, is_paired, is_indoor, is_item, farmer_pass,
}
use backend.Db.{
  Exec, pure, raise, throw_if, ◌>>=◌, ◌>>◌, pair_table, slot_table, find_first, find_any, find_many,
  create_pair_row, update, update_many,
}
use backend.Env.{Env, config}
use backend.Utils.{BonusRateStatus, get_bonus_rate_status}
use backend.Bud.{verify_bud_pairs, issue_gen1_bud_mint}
use backend.User.{consume_breeding_point}
use backend.Land.{find_open_breed_slot_by_id}
use backend.Breed.Service.{
  in_breeding, find_pair_in_breeding, check_game_item_balance, get_start_success_rate,
  start_breed_level, evaluate_breed_level, finalize_rate, verify_game_item_possession,
}

-- `CreateBreedPairDto`.
pub record CreateBreedPair : Type 0 where
  pub male_bud_id : ℤ
  pub female_bud_id : ℤ
  pub slot_id : ℕ
  pub game_item_id : Option ℕ
  pub upgrade_slot : Bool

-- `slot.gameKeyId && slot.gameKeyId !== gameKeyId`.
abbrev pub other_key : BreedSlot → ℕ → Bool
other_key slot game_key_id = truthy slot.game_key_id && not (is_item slot.game_key_id game_key_id)

-- `!slot || …`, and the slot past the check.
abbrev pub require_slot : Caller → Option BreedSlot → Exec BreedSlot
require_slot req none =
    raise (Error.bad_request "Given slot is not open, not yours or being used for the other pair")
require_slot req (some slot) = do
  throw_if (other_key slot req.game_key_id)
      (Error.bad_request "Given slot is not open, not yours or being used for the other pair")
  pure slot

-- The conversion of the slot under a farmer pass.
abbrev pub upgraded_slot : CreateBreedPair → BreedSlot → Exec BreedSlot
upgraded_slot body slot =
    if body.upgrade_slot && is_item body.game_item_id farmer_pass && not (is_indoor slot.type)
    then (update slot_table slot.id λ x. record x { type = indoor })
    else pure slot

-- `[maleBud, femaleBud]` of the metadata.
abbrev pub two_buds : List BudWithId → Exec (Bud × Bud)
two_buds (b0 ∷ b1 ∷ _) = pure (b0.bud, b1.bud)
two_buds _ = raise Error.type_error

abbrev pub check_item : Env → Caller → Option ℕ → Exec Bool
check_item env req none = pure true
check_item env req (some item) =
    if truthy (some item) then check_game_item_balance env req.user item 1 else pure true

abbrev pub new_pair : Env → Caller → CreateBreedPair → ℤ → ℕ → BreedPair
new_pair env req body rate i = record {
  id = i;
  male_bud_id = body.male_bud_id;
  female_bud_id = body.female_bud_id;
  rate = rate;
  created_at = env.now;
  user_address = req.user;
  current_level = 0;
  status = paired;
  slot_id = body.slot_id;
  game_key_id = req.game_key_id;
  game_item_id = body.game_item_id;
}

-- `createPair` from the point where the slot and the rate are known.
unfoldable pub occupy : Env → Caller → CreateBreedPair → ℤ → Exec BreedPair
occupy env req body rate = do
  pair ← create_pair_row (new_pair env req body rate)
  update slot_table body.slot_id λ x. record x { is_used = true }
  pure pair

-- `createPair` from the search of the slot on.
unfoldable pub place_pair : Env → Caller → CreateBreedPair → Bud → Bud → Exec BreedPair
unfolding occupy
place_pair env req body male female = do
  found ← find_open_breed_slot_by_id req.user body.slot_id
  slot ← require_slot req found
  slot' ← upgraded_slot body slot
  rate ← get_start_success_rate env body.male_bud_id body.female_bud_id body.game_item_id slot'
  pair ← occupy env req body rate
  start_breed_level env pair male female
  pure pair

-- `createPair`.
unfoldable pub create_pair : Env → Caller → CreateBreedPair → Exec BreedPair
unfolding place_pair
create_pair env req body = do
  metadatas ← verify_bud_pairs env req.user body.male_bud_id body.female_bud_id true
  (male, female) ← two_buds metadatas
  check_item env req body.game_item_id
  n ← find_pair_in_breeding body.male_bud_id body.female_bud_id
  throw_if (ltb 0 n) (Error.conflict "One of the bud pairs is in breeding")
  place_pair env req body male female

-- The `where` by which the three handlers below find the caller's session.
abbrev pub own_paired : Address → ℕ → BreedPair → Bool
own_paired user pair_id p = p.id == pair_id && p.user_address == user && is_paired p.status

abbrev pub require_pair : Option BreedPair → Exec BreedPair
require_pair none = raise (Error.not_found "Breed pair not found")
require_pair (some p) = pure p

unfoldable pub find_own_pair : Caller → ℕ → Exec BreedPair
find_own_pair req pair_id = do
  found ← find_first pair_table (own_paired req.user pair_id)
  require_pair found

-- `levelBreedingUp` on the pair found.
unfoldable pub level_up_pair : Env → Caller → BreedPair → ℕ → ℕ → Exec BonusRateStatus
unfolding config
level_up_pair env req pair male female = do
  throw_if (ltb (config env.network).target_level pair.current_level)
      (Error.bad_request "Target level reached. Do finalize!")
  verify_game_item_possession env pair
  verify_bud_pairs env pair.user_address pair.male_bud_id pair.female_bud_id false
  consume_breeding_point req.user (config env.network).breeding_point_per_level
  e ← evaluate_breed_level env pair male female
  start_breed_level env pair e.male_bud e.female_bud
  pure (get_bonus_rate_status e.bonus_rate)

-- `levelBreedingUp`.
unfoldable pub level_breeding_up : Env → Caller → ℕ → ℕ → ℕ → Exec BonusRateStatus
unfolding find_own_pair level_up_pair
level_breeding_up env req pair_id male female = do
  pair ← find_own_pair req pair_id
  level_up_pair env req pair male female

-- `cancelBreeding`.
unfoldable pub cancel_breeding : Caller → ℕ → Exec (Unit {0})
unfolding find_own_pair
cancel_breeding req pair_id = do
  pair ← find_own_pair req pair_id
  update pair_table pair.id λ p. record p { status = canceled }
  update slot_table pair.slot_id λ x. record x { is_used = false }
  pure tt

-- The answer of `finalizeBreeding` with success: the bud, and the slot that it opened.
pub record Finalized : Type 0 where
  pub bud : Gen1Bud
  pub slot : Option BreedSlot

abbrev pub open_found_slot : Option BreedSlot → Exec (Option BreedSlot)
open_found_slot none = pure none
open_found_slot (some slot) = do
  x ← update slot_table slot.id λ y. record y { is_open = true }
  pure (some x)

-- `finalizeBreeding` under `if (result.success)`.
unfoldable pub reward : Env → Caller → BreedPair → Option Bud → Exec (Option Finalized)
reward env req pair none = pure none
reward env req pair (some bud) = do
  found ←
      find_any slot_table
        (λ x. x.user_address == req.user && not x.is_open && not (is_some x.deleted_at))
        env.row_choice
  slot ← open_found_slot found
  gen1_bud ← issue_gen1_bud_mint env req.user bud (some pair.id)
  pure (some (record { bud = gen1_bud; slot = slot }))

-- `finalizeBreeding` from the dice on.
unfoldable pub settle : Env → Caller → ℕ → BreedPair → Option Bud → Exec (Option Finalized)
unfolding reward
settle env req pair_id pair result = do
  update slot_table pair.slot_id λ x. record x { is_used = false }
  update pair_table pair_id λ p. record p { status = if is_some result then completed else failed }
  reward env req pair result

-- `finalizeBreeding` on the pair found.
unfoldable pub finalize_pair : Env → Caller → ℕ → BreedPair → ℕ → ℕ → Exec (Option Finalized)
unfolding settle config
finalize_pair env req pair_id pair male female = do
  throw_if (ltb pair.current_level (config env.network).target_level)
      (Error.bad_request "Breed target level not reached")
  evaluate_breed_level env pair male female
  result ← finalize_rate env pair
  settle env req pair_id pair result

-- `finalizeBreeding`; `none` is its answer without success.
unfoldable pub finalize_breeding : Env → Caller → ℕ → ℕ → ℕ → Exec (Option Finalized)
unfolding find_own_pair finalize_pair
finalize_breeding env req pair_id male female = do
  pair ← find_own_pair req pair_id
  finalize_pair env req pair_id pair male female

abbrev pub ids_of : List BreedPair → List ℕ
ids_of ps = map (λ p. p.id) ps

abbrev pub slots_of : List BreedPair → List ℕ
slots_of ps = map (λ p. p.slot_id) ps

-- The two `updateMany` of the invalidations: the pairs fail, and their slots are free.
unfoldable pub fail_pairs : List BreedPair → Exec (Unit {0})
fail_pairs pairs = do
  update_many pair_table (λ p. includes p.id (ids_of pairs)) (λ p. record p { status = failed })
  update_many slot_table (λ x. includes x.id (slots_of pairs)) (λ x. record x { is_used = false })

-- `invalidatePair`: the number of pairs that it failed, or `none` with none found.
unfoldable pub invalidate_pair : Env → Caller → ℤ → ℤ → Exec (Option ℕ)
unfolding fail_pairs
invalidate_pair env req male female = do
  verify_bud_pairs env req.user male female true
  pairs ← find_many pair_table λ p. not (p.user_address == req.user) && in_breeding male female p
  if length pairs == 0 then pure none else do fail_pairs pairs; pure (some (length pairs))
