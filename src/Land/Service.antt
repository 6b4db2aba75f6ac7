-- ===== src/Land/Service.antt =====
-- src/land/land.service.ts. In a `where`, a field that is `undefined` asks for nothing.
use backend.Common.{
  ℕ, zero, suc, Option, none, some, Bool, true, false, not, ◌&&◌, List, [], ◌∷◌, ltb, ◌==◌,
  if◌then◌else◌, is_some,
}
use backend.Schema.{Address, BreedSlot, outdoor}
use backend.Db.{Exec, pure, ◌>>=◌, slot_table, find_first, find_many, count, create_many}

-- `field: value` for a nullable column and a number.
abbrev pub has : Option ℕ → ℕ → Bool
has none k = false
has (some j) k = j == k

-- `field: value` with a value that may be `undefined`.
abbrev pub asks : Option ℕ → ℕ → Bool
asks none k = true
asks (some j) k = j == k

abbrev pub asks_nullable : Option ℕ → Option ℕ → Bool
asks_nullable none column = true
asks_nullable (some j) column = has column j

-- The `where` of `findOpenBreedSlotById`.
abbrev pub is_open_slot : Address → ℕ → BreedSlot → Bool
is_open_slot user slot_id x =
    x.user_address == user
    && x.is_open
    && not x.is_used
    && x.id == slot_id
    && not (is_some x.deleted_at)

-- `findOpenBreedSlots`.
unfoldable pub find_open_breed_slots : Address → Option ℕ → Option ℕ → Exec (List BreedSlot)
find_open_breed_slots user game_key_id slot_id = find_many slot_table λ x.
    x.user_address == user
    && x.is_open
    && not x.is_used
    && asks_nullable game_key_id x.game_key_id
    && asks slot_id x.id
    && not (is_some x.deleted_at)

-- `findOpenBreedSlotById`.
unfoldable pub find_open_breed_slot_by_id : Address → ℕ → Exec (Option BreedSlot)
find_open_breed_slot_by_id user slot_id = find_first slot_table (is_open_slot user slot_id)

-- A slot of `createMany`, with the columns' defaults.
abbrev pub new_slot : Address → Option ℕ → Option ℕ → Bool → ℕ → BreedSlot
new_slot user game_key_id land_token_id is_open i = record {
  id = i;
  is_open = is_open;
  is_used = false;
  type = outdoor;
  game_key_id = game_key_id;
  land_token_id = land_token_id;
  user_address = user;
  deleted_at = none;
}

-- The loop that fills `data`, with the rounds left, after `data[0].isOpen = true`.
abbrev pub slots_data : ℕ → (Bool → ℕ → BreedSlot) → Bool → List (ℕ → BreedSlot)
slots_data zero row is_open = []
slots_data (suc n) row is_open = row is_open ∷ slots_data n row false

-- The `where` of the count in `createFreeLandSlots`.
abbrev pub is_free_land : Address → ℕ → BreedSlot → Bool
is_free_land user game_key_id x =
    has x.game_key_id game_key_id
    && x.user_address == user
    && not (is_some x.land_token_id)
    && not (is_some x.deleted_at)

-- `createFreeLandSlots`.
unfoldable pub create_free_land_slots : Address → ℕ → Exec (Unit {0})
create_free_land_slots user game_key_id = do
  n ← count slot_table (is_free_land user game_key_id)
  if ltb 0 n
      then pure tt
      else create_many slot_table (slots_data 5 (new_slot user (some game_key_id) none) true)

-- The `where` of the count in `createNewLandSlots`, and of the answer of `purchaseLand`.
abbrev pub is_land : Address → ℕ → BreedSlot → Bool
is_land user land_token_id x =
    x.user_address == user && has x.land_token_id land_token_id && not (is_some x.deleted_at)

-- `createNewLandSlots`.
unfoldable pub create_new_land_slots : Address → ℕ → Exec (Unit {0})
create_new_land_slots user land_token_id = do
  n ← count slot_table (is_land user land_token_id)
  if ltb 0 n
      then pure tt
      else create_many slot_table (slots_data 5 (new_slot user none (some land_token_id)) true)
