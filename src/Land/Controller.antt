-- ===== src/Land/Controller.antt =====
-- src/land/land.controller.ts.
use backend.Common.{
  ℕ, Option, none, some, Bool, true, not, ◌&&◌, ◌||◌, List, leb, ◌==◌, String, is_some,
}
use backend.Common.Int.{ℤ}
use backend.Schema.{
  Error, Address, Caller, User, BreedSlot, indoor, is_indoor, is_completed, rolling_paper, hoodie,
  superweed_serum, farmer_pass, weed_dr_pass,
}
use backend.Db.{
  Exec, pure, raise, throw_if, ◌>>=◌, ◌>>◌, slot_table, pair_table, find_first, find_many, count,
  update, find_user,
}
use backend.Env.{Env, config, MintType}
use backend.Utils.{sign_mint_request}
use backend.User.{consume_breeding_point}
use backend.Land.Service.{has, is_land, create_new_land_slots}

-- `getUserSlots`.
unfoldable pub get_user_slots : Caller → Exec (List BreedSlot)
get_user_slots req = find_many slot_table λ x.
    x.user_address == req.user && not (is_some x.deleted_at) && has x.game_key_id req.game_key_id
    || x.user_address == req.user
      && not (is_some x.deleted_at)
      && not (is_some x.game_key_id)
      && is_some x.land_token_id

-- The `where` of `openSlot` and `convertIndoor`.
abbrev pub is_own_slot : Address → ℕ → BreedSlot → Bool
is_own_slot user slot_id x = x.id == slot_id && x.user_address == user && not (is_some x.deleted_at)

unfoldable pub open_found : Env → Caller → ℕ → Option BreedSlot → Exec BreedSlot
unfolding config
open_found env req slot_id none = raise (Error.not_found "Slot not found")
open_found env req slot_id (some slot) = do
  throw_if slot.is_open (Error.bad_request "Slot is already open")
  consume_breeding_point req.user (config env.network).breeding_point_to_open_slot
  update slot_table slot_id λ x. record x { is_open = true }

-- `openSlot`.
unfoldable pub open_slot : Env → Caller → ℕ → Exec BreedSlot
unfolding open_found
open_slot env req slot_id = do
  open_found env req slot_id (← find_first slot_table (is_own_slot req.user slot_id))

unfoldable pub convert_found : Env → Caller → ℕ → Option BreedSlot → Exec BreedSlot
unfolding config
convert_found env req slot_id none = raise (Error.not_found "Slot not found")
convert_found env req slot_id (some slot) = do
  throw_if (is_indoor slot.type) (Error.bad_request "This slot is already INDOOR type")
  consume_breeding_point req.user (config env.network).breeding_point_to_convert_indoor
  update slot_table slot_id λ x. record x { type = indoor }

-- `convertIndoor`.
unfoldable pub convert_indoor : Env → Caller → ℕ → Exec BreedSlot
unfolding convert_found
convert_indoor env req slot_id = do
  convert_found env req slot_id (← find_first slot_table (is_own_slot req.user slot_id))

pub record Purchased : Type 0 where
  pub purchased_lands : List BreedSlot
  pub breeding_point : ℤ

unfoldable pub points_of : List BreedSlot → Option User → Exec Purchased
points_of lands none = raise Error.type_error
points_of lands (some u) =
    pure (record { purchased_lands = lands; breeding_point = u.breeding_point })

-- `purchaseLand`: the land's id is the time.
unfoldable pub purchase_land : Env → Caller → Exec Purchased
unfolding points_of config
purchase_land env req = do
  consume_breeding_point req.user (config env.network).land_price
  create_new_land_slots req.user env.now
  lands ← find_many slot_table (is_land req.user env.now)
  points_of lands (← find_user req.user)

-- The answer of the item purchases.
pub record SignedItem : Type 0 where
  pub signature : Option String
  pub amount : ℕ
  pub timestamp : ℕ

abbrev signed_item : Env → Caller → ℕ → ℕ → SignedItem
unfolding sign_mint_request
signed_item env req item amount = record {
  signature = sign_mint_request env req.user MintType.game_item item amount env.now;
  amount = amount;
  timestamp = env.now;
}

-- `purchaseRollPaper`.
unfoldable pub purchase_roll_paper : Env → Caller → ℕ → Exec SignedItem
unfolding sign_mint_request
purchase_roll_paper env req amount = pure (signed_item env req rolling_paper amount)

-- `purchaseHoodie`.
unfoldable pub purchase_hoodie : Env → Caller → ℕ → Exec SignedItem
unfolding sign_mint_request
purchase_hoodie env req amount = pure (signed_item env req hoodie amount)

-- `purchaseWeedDrPass`.
unfoldable pub purchase_weed_dr_pass : Env → Caller → ℕ → Exec SignedItem
unfolding sign_mint_request
purchase_weed_dr_pass env req amount = pure (signed_item env req weed_dr_pass amount)

-- `purchaseFarmerPass`: four completed breedings at least.
unfoldable pub purchase_farmer_pass : Env → Caller → ℕ → Exec SignedItem
unfolding sign_mint_request
purchase_farmer_pass env req amount = do
  completed_count ← count pair_table λ p. p.user_address == req.user && is_completed p.status
  throw_if (leb completed_count 3)
      (Error.unprocessable "Not completed 4 successful breeding sessions")
  pure (signed_item env req farmer_pass amount)

-- `purchaseSuperWeedSerum`.
unfoldable pub purchase_super_weed_serum : Env → Caller → ℕ → Exec SignedItem
unfolding sign_mint_request
purchase_super_weed_serum env req amount = pure (signed_item env req superweed_serum amount)
