-- ===== src/Stats/Metrics.antt =====
-- The counts of src/stats/stats.service.ts, and the two handlers of src/stats/stats.controller.ts
-- that put several answers together.
use backend.Common.{
  ℕ, ◌+◌, Option, Bool, true, false, not, List, [], ◌∷◌, map, ◌==◌, if◌then◌else◌, length,
  get_elem?,
}
use backend.Schema.{
  Error, Address, BreedPairStatus, BreedSlotType, is_indoor, paired, completed, canceled, failed,
  indoor, outdoor,
}
use backend.Db.{Counted, groups, Exec, pure, gets, throw_if, ◌>>=◌, ◌>>◌}
use backend.Env.{Env}
use backend.Stats.Queries.{
  Breeder, get_top_breeders, get_gen0_bud_lock_counts, get_game_item_mint_counts,
}

abbrev pub has_status : BreedPairStatus → BreedPairStatus → Bool
has_status paired s = elim s [ paired ↦ true | _ ↦ false ]
has_status completed s = elim s [ completed ↦ true | _ ↦ false ]
has_status canceled s = elim s [ canceled ↦ true | _ ↦ false ]
has_status failed s = elim s [ failed ↦ true | _ ↦ false ]

abbrev pub has_type : BreedSlotType → BreedSlotType → Bool
has_type indoor t = is_indoor t
has_type outdoor t = not (is_indoor t)

-- `getBreedingMetrics`.
unfoldable pub get_breeding_metrics : Exec (List (Counted BreedPairStatus))
get_breeding_metrics = gets λ s.
    groups (λ k p. has_status k p.status) (paired ∷ completed ∷ canceled ∷ failed ∷ []) s.pairs.rows

-- `getUserMetrics`.
unfoldable pub get_user_metrics : Exec ℕ
get_user_metrics = gets λ s. length s.users

-- `getSlotMetrics`.
unfoldable pub get_slot_metrics : Exec (List (Counted BreedSlotType))
get_slot_metrics = gets λ s. groups (λ k x. has_type k x.type) (indoor ∷ outdoor ∷ []) s.slots.rows

pub record Metrics : Type 0 where
  pub user : ℕ
  pub slot : List (Counted BreedSlotType)
  pub breeding : List (Counted BreedPairStatus)
  pub top_breeders : List Breeder
  pub lock_counts : List ℕ
  pub game_item_mint_counts : List ℕ

-- `getMetrics`.
unfoldable pub get_metrics : Env → Exec Metrics
unfolding get_user_metrics get_slot_metrics get_breeding_metrics
get_metrics env = do
  user ← get_user_metrics
  slot ← get_slot_metrics
  breeding ← get_breeding_metrics
  top_breeders ← get_top_breeders
  lock_counts ← get_gen0_bud_lock_counts env (map (λ b. b.minter_address) top_breeders)
  game_item_mint_counts ← get_game_item_mint_counts env (map (λ b. b.minter_address) top_breeders)
  pure (record {
    user = user;
    slot = slot;
    breeding = breeding;
    top_breeders = top_breeders;
    lock_counts = lock_counts;
    game_item_mint_counts = game_item_mint_counts;
  })

-- What the shop needs to know of an address; `none` is `undefined`.
pub record Requirements : Type 0 where
  pub address : Address
  pub lock_count : Option ℕ
  pub game_item_mint_count : Option ℕ

-- `stats[address] = …`: the last assignment to a key stands.
abbrev pub assign : Requirements → List Requirements → List Requirements
assign r [] = r ∷ []
assign r (x ∷ xs) = let rest = assign r xs in if x.address == r.address then r ∷ xs else x ∷ rest

-- The loop over the addresses, from index `i` on.
unfoldable pub requirements_from :
    List ℕ → List ℕ → ℕ → List Address → List Requirements → List Requirements
requirements_from locks mints i [] stats = stats
requirements_from locks mints i (a ∷ rest) stats = requirements_from locks mints (1 + i) rest (
    assign
      (record {
        address = a;
        lock_count = get_elem? locks i;
        game_item_mint_count = get_elem? mints i;
      })
      stats)

unfoldable pub check_addresses : Env → List Address → Exec (Unit {0})
check_addresses env [] = pure tt
check_addresses env (a ∷ rest) =
    throw_if (not (env.is_address a))
      (Error.bad_request_exception "is not valid Ethereum address (must be checksumed)")
    >> check_addresses env rest

-- `checkShopRequirements`.
unfoldable pub check_shop_requirements : Env → List Address → Exec (List Requirements)
unfolding requirements_from check_addresses
check_shop_requirements env users = do
  check_addresses env users
  lock_counts ← get_gen0_bud_lock_counts env users
  game_item_mint_counts ← get_game_item_mint_counts env users
  pure (requirements_from lock_counts game_item_mint_counts 0 users [])
