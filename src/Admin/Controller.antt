-- ===== src/Admin/Controller.antt =====
-- src/admin/admin.controller.ts. Amounts of points come in hundredths.
use backend.Common.{
  ℕ, ◌/◌, ◌%◌, Option, none, some, Bool, true, false, ◌&&◌, ◌||◌, List, ltb, ◌==◌, map,
  if◌then◌else◌, includes, length, ◌++◌, ◌∷◌, [],
}
use backend.Common.Int.{ℤ, pos, ◌+ℤ◌, ◌-ℤ◌, ◌==ℤ◌}
use backend.Schema.{
  Error, Result, ok, err, Address, Bud, User, BreedSlot, Gen1Bud, EventServiceLog, EventType,
  LogData, points, buds, burn_gen0, deposit_bp, withdraw_bp, failed, is_paired,
}
use backend.Db.{
  State, Exec, Emitted, burned, not_burned, pure, raise, throw_if, ◌>>=◌, ◌>>◌, pair_table,
  slot_table, gen1_table, find_first, find_many, update_many, find_user, update_user, create_log,
}
use backend.Env.{Env, addresses, config}
use backend.Bud.{
  is_gen0_bud_owner, is_game_key_owner, verify_bud_pairs, dice_gen1_bud, issue_gen1_bud_mint,
}
use backend.Land.{has}
use backend.Breed.{find_pair_in_breeding, fail_pairs}
use backend.Admin.Service.{AdminDto, validate_transaction}

-- `invalidateBreedingPairByBudId`: the number of pairs, or `none` with none found.
unfoldable pub invalidate_breeding : Env → Address → Address → ℤ → Exec (Option ℕ)
unfolding fail_pairs
invalidate_breeding env prev_owner owner bud_id = do
  is_gen0_bud_owner env bud_id owner
  pairs ← find_many pair_table λ p.
      p.user_address == prev_owner
      && is_paired p.status
      && (p.female_bud_id ==ℤ bud_id || p.male_bud_id ==ℤ bud_id)
  if length pairs == 0 then pure none else do fail_pairs pairs; pure (some (length pairs))

-- `InvalidateSlotsDto`.
pub record InvalidateSlots : Type 0 where
  pub prev_owner : Address
  pub owner : Address
  pub game_key_id : ℕ
  pub option : Option ℕ

abbrev pub slot_ids : List BreedSlot → List ℕ
slot_ids xs = map (λ x. x.id) xs

-- The two `updateMany` of `invalidSlotsForGameKey`.
unfoldable pub delete_slots : Env → List BreedSlot → Exec (Unit {0})
delete_slots env slots = do
  update_many slot_table (λ x. includes x.id (slot_ids slots))
      (λ x. record x { deleted_at = some env.now })
  update_many pair_table (λ p. includes p.slot_id (slot_ids slots))
      (λ p. record p { status = failed })

-- `if (option !== 201)`.
unfoldable pub check_key_owner : Env → InvalidateSlots → Exec Bool
check_key_owner env body =
    if elim body.option [ none ↦ false | some o ↦ o == 201 ]
    then pure true
    else is_game_key_owner env body.game_key_id body.owner

-- `invalidSlotsForGameKey`: the number of slots, or `none` where it did nothing.
unfoldable pub invalidate_slots : Env → InvalidateSlots → Exec (Option ℕ)
unfolding delete_slots check_key_owner addresses
invalidate_slots env body =
    if body.prev_owner == (addresses env.network).staking
    then pure none
    else if body.owner == (addresses env.network).staking
    then pure none
    else do
      check_key_owner env body
      slots ←
          find_many slot_table
            λ x. x.user_address == body.prev_owner && has x.game_key_id body.game_key_id
      if length slots == 0 then pure none else do delete_slots env slots; pure (some (length slots))

-- `try { … return { success: true } } catch`: what was written before the error stays.
abbrev pub tried : Result (Unit {0}) × State → Result Bool × State
tried (ok u, s) = (ok true, s)
tried (err e, s) = (ok false, s)

abbrev pub attempt : Exec (Unit {0}) → Exec Bool
attempt m s = tried (m s)

abbrev pub event : Env → AdminDto → EventType → LogData → EventServiceLog
event env dto type data_ = record {
  address = dto.address;
  tx_hash = dto.tx_hash;
  block_number = dto.block;
  type = type;
  data_ = data_;
  created_at = env.now;
}

-- `breedingPoint: points` for a number of hundredths: the column is an `Int`, and the client
-- refuses a number that is not whole.
unfoldable pub write_points : Address → (ℕ → ℤ) → ℕ → Exec (Unit {0})
write_points a balance hundredths =
    if hundredths % 100 == 0
    then (do update_user a (λ u. record u { breeding_point = balance (hundredths / 100) }); pure tt)
    else raise Error.prisma

unfoldable pub require_user : Option User → Exec User
require_user none = raise (Error.not_found "User not found.")
require_user (some u) = pure u

-- `addBreedingPoint`: the log first, then the points.
unfoldable pub add_breeding_point : Env → AdminDto → ℕ → Exec Bool
unfolding write_points require_user
add_breeding_point env dto amount = do
  validate_transaction env dto deposit_bp
  user ← require_user (← find_user dto.address)
  attempt (
      create_log (event env dto deposit_bp (points amount user.breeding_point))
      >> write_points dto.address (λ n. user.breeding_point +ℤ pos n) amount)

-- `withdrawBreedingPoint`: the points first, then the log. A balance that is too low is logged as
-- an error, and nothing else.
unfoldable pub withdraw_breeding_point : Env → AdminDto → ℕ → Exec Bool
unfolding write_points require_user
withdraw_breeding_point env dto amount = do
  validate_transaction env dto withdraw_bp
  user ← require_user (← find_user dto.address)
  attempt (
      write_points dto.address (λ n. user.breeding_point -ℤ pos n) amount
      >> create_log (event env dto withdraw_bp (points amount user.breeding_point)))

abbrev pub emit : Emitted → Exec (Unit {0})
emit e s = (ok tt, record s { emitted = s.emitted ++ e ∷ [] })

-- `burnGen0Buds` from the dice on.
unfoldable pub burn_result : Env → AdminDto → ℤ → ℤ → Option Bud → Exec (Option Gen1Bud)
burn_result env dto male female none = do
  create_log (event env dto burn_gen0 (buds male female none))
  emit (not_burned dto.address)
  pure none
burn_result env dto male female (some bud) = do
  new_bud ← issue_gen1_bud_mint env dto.address bud none
  create_log (event env dto burn_gen0 (buds male female (some new_bud.id)))
  emit (burned dto.address male female new_bud.id)
  pure (some new_bud)

-- `burnGen0Buds`.
unfoldable pub burn_gen0_buds : Env → AdminDto → ℤ → ℤ → Exec (Option Gen1Bud)
unfolding burn_result require_user
burn_gen0_buds env dto male female = do
  validate_transaction env dto burn_gen0
  user ← require_user (← find_user dto.address)
  verify_bud_pairs env (addresses dto.network).bud_burn male female true
  n ← find_pair_in_breeding male female
  throw_if (ltb 0 n) (Error.conflict "One of the bud pairs is in breeding")
  result ← dice_gen1_bud env (config env.network).burn_success_rate
  burn_result env dto male female result

-- `getGen1Buds`: `none` is its answer without success; with success the bud may be missing.
unfoldable pub get_gen1_bud : ℕ → Exec (Option (Option Gen1Bud))
get_gen1_bud id =
    if id == 0
    then pure none
    else (do found ← find_first gen1_table (λ b. b.id == id); pure (some found))
