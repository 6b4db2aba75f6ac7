-- ===== src/Bud/Service.antt =====
-- src/bud/bud.service.ts.
use backend.Common.{
  ℕ, zero, suc, ◌+◌, Option, none, some, Bool, true, false, not, ◌&&◌, ◌||◌, List, [], ◌∷◌, ◌++◌,
  ltb, leb, ◌^◌, ◌==◌, if◌then◌else◌, length, take, drop, map,
}
use backend.Common.Int.{ℤ, pos, ltb_ℤ, leb_ℤ, ◌==ℤ◌}
use backend.Schema.{Error, Address, Bud, BudWithId, BudGender, Gen1Bud, is_male}
use backend.Db.{Exec, pure, raise, throw_if, ◌>>=◌, ◌>>◌, gen1_table, create, update, required}
use backend.Env.{Env, addresses, MintType}
use backend.Utils.{win_random_chance, generate_random_bud, default_options, sign_mint_request}
use backend.HashTable.{look_up_gen1_bud}

-- The loop of `getMetadatas` that cuts the ids into chunks, from index `i` on; each round takes
-- one unit of fuel.
unfoldable pub chunks_from : {A : Type 0} → ℕ → ℕ → List A → ℕ → List (List A)
chunks_from zero size ids i = []
chunks_from (suc fuel) size ids i =
    let rest = chunks_from fuel size ids (i + size) in
    if ltb i (length ids) then take size (drop i ids) ∷ rest else []

-- The chunks of `getMetadatas`: a round takes at least one id, so one round for each suffices.
unfoldable pub chunks : {A : Type 0} → ℕ → List A → List (List A)
unfolding chunks_from
chunks size ids = chunks_from (length ids) size ids 0

-- `Promise.all` of the requests, and the loop that joins the answers.
abbrev fetch_all : (List ℤ → Option (List BudWithId)) → List (List ℤ) → Option (List BudWithId)
fetch_all fetch [] = some []
fetch_all fetch (c ∷ cs) = elim (fetch c) [
  | none ↦ none
  | some found ↦ elim (fetch_all fetch cs) [ none ↦ none | some rest ↦ some (found ++ rest) ]
]

abbrev or_empty : Option (List BudWithId) → List BudWithId
or_empty none = []
or_empty (some xs) = xs

-- `getMetadatas`: no metadata where a request fails.
unfoldable pub get_metadatas : Env → List ℤ → List BudWithId
unfolding chunks
get_metadatas env token_ids = or_empty (fetch_all env.fetch_metadatas (chunks 100 token_ids))

-- `[owner] = await multicall(…)`, and the comparison with the address.
abbrev first_owner_is : Address → List Address → Bool
first_owner_is a [] = false
first_owner_is a (owner ∷ _) = owner == a

unfoldable pub require_owner : Address → Error → Error → Option (List Address) → Exec Bool
require_owner a rpc_error not_owner none = raise rpc_error
require_owner a rpc_error not_owner (some owners) = do
  throw_if (not (first_owner_is a owners)) not_owner
  pure true

-- `isGen0BudOwner`.
unfoldable pub is_gen0_bud_owner : Env → ℤ → Address → Exec Bool
unfolding require_owner addresses
is_gen0_bud_owner env bud_id address =
    require_owner address (Error.breeding "Check BUDs ownership... RPC call error")
      (Error.unprocessable "Not the bud owner")
      (env.owners_of (addresses env.network).bud (bud_id ∷ []))

-- `isGameKeyOwner`.
unfoldable pub is_game_key_owner : Env → ℕ → Address → Exec Bool
unfolding require_owner addresses
is_game_key_owner env game_key_id address =
    require_owner address (Error.breeding "Check Game key ownership... RPC call error")
      (Error.unprocessable "Not the game key owner")
      (env.owners_of (addresses env.network).game_key (pos game_key_id ∷ []))

-- What `checkBudPairGenders` reads of a bud.
abbrev pub IdAndGender : Type 0
IdAndGender = ℤ × BudGender

abbrev pub id_and_gender : BudWithId → IdAndGender
id_and_gender b = (b.id, b.bud.gender)

-- The loop of `checkBudPairGenders`.
abbrev pub genders_fit : List IdAndGender → ℤ → ℤ → Bool
genders_fit [] male female = true
genders_fit ((i, g) ∷ buds) male female =
    let rest = genders_fit buds male female in
    if i ==ℤ male && not (is_male g) || i ==ℤ female && is_male g then false else rest

-- `checkBudPairGenders`.
unfoldable pub check_bud_pair_genders : List IdAndGender → ℤ → ℤ → Bool
check_bud_pair_genders buds male female =
    if ltb (length buds) 2 then false else genders_fit buds male female

-- `budId < 0 || budId >= 20000`; a number in a request is not NaN, since `IsNumber` refuses it.
abbrev pub out_of_range : ℤ → Bool
out_of_range i = ltb_ℤ i (pos 0) || leb_ℤ (pos 20000) i

abbrev both_owned : Address → List Address → Bool
both_owned a (owner1 ∷ owner2 ∷ _) = owner1 == a && owner2 == a
both_owned a _ = false

unfoldable pub require_owners : Address → Option (List Address) → Exec (Unit {0})
require_owners a none = raise (Error.breeding "Check BUDs ownership... RPC call error")
require_owners a (some owners) =
    throw_if (not (both_owned a owners)) (Error.unprocessable "Not the buds owner")

abbrev pub all_revealed : List BudWithId → Bool
all_revealed [] = true
all_revealed (b ∷ bs) = b.revealed && all_revealed bs

-- The part of `verifyBudPairs` under `if (checkMetadata)`.
unfoldable pub verify_metadatas : Env → ℤ → ℤ → Exec (List BudWithId)
unfolding check_bud_pair_genders
verify_metadatas env male female = do
  let metadatas = get_metadatas env (male ∷ female ∷ [])
  throw_if (not (all_revealed metadatas)) (Error.unprocessable "Bud is not revealed")
  throw_if (not (check_bud_pair_genders (map id_and_gender metadatas) male female))
      (Error.unprocessable "Bud pair genders do not match")
  pure metadatas

-- `verifyBudPairs`; with no metadata check it returns nothing that is used.
unfoldable pub verify_bud_pairs : Env → Address → ℤ → ℤ → Bool → Exec (List BudWithId)
unfolding verify_metadatas require_owners addresses
verify_bud_pairs env address male female check_metadata = do
  throw_if (out_of_range male) (Error.bad_request "Invalid budId for male")
  throw_if (out_of_range female) (Error.bad_request "Invalid budId for female")
  require_owners address (env.owners_of (addresses env.network).bud (male ∷ female ∷ []))
  if check_metadata then verify_metadatas env male female else pure []

abbrev pub is_og : Option ℕ → Option ℕ → Exec Bool
is_og (some erc1155) (some erc20) = pure (leb 1 erc1155 || leb (10 ^ 18) erc20)
is_og _ _ = raise (Error.breeding "Check BUDs ownership... RPC call error")

-- `checkOGOwner`; `parseEther("1")` is 10 ^ 18.
unfoldable pub check_og_owner : Env → Address → Exec Bool
check_og_owner env a = is_og (env.og_erc1155_balance a) (env.og_erc20_balance a)

-- `diceGen1Bud`: `none` is its answer without success.
unfoldable pub dice_gen1_bud : Env → ℤ → Exec (Option Bud)
dice_gen1_bud env rate = do
  success ← win_random_chance env rate
  if not success then pure none else do
    bud ← generate_random_bud env (record default_options { gen1 = true })
    (thc, bud_size) ← look_up_gen1_bud env rate
    pure (some (record bud { thc = thc; bud_size = bud_size }))

-- `issueGen1BudMint`.
unfoldable pub issue_gen1_bud_mint : Env → Address → Bud → Option ℕ → Exec Gen1Bud
unfolding sign_mint_request
issue_gen1_bud_mint env minter bud pair_id = do
  gen1_bud ← create gen1_table λ i. record {
    id = i;
    bud = bud;
    created_at = env.now;
    minter_address = minter;
    signature = "";
    pair_id = pair_id;
  }
  signature ←
      required (sign_mint_request env minter MintType.gen1_bud gen1_bud.id 1 gen1_bud.created_at)
  update gen1_table gen1_bud.id λ b. record b { signature = signature }
