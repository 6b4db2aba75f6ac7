-- ===== src/Tests/Breeding.antt =====
-- Sessions, buds and slots.
use backend.Common.{
  ℕ, String, ◌+◌, ◌≤◌, ◌≡◌, refl, arith, Bool, some, none, true, false, List, [], ◌∷◌, All, length,
  tally, map, if◌then◌else◌, ltb,
}
use text.Mathlib.Text.{◌==◌ as str_eq}
use backend.Common.Int.{ℤ, pos, ◌+ℤ◌}
use backend.Schema.{Error, ok, err, Address, BreedPair, BreedLevel, BreedBud, Gen1Bud, paired}
use backend.Db.{State}
use backend.Env.{addresses, config}
use backend.Utils.{get_breed_time, random_number, scale, pick, generate_random_bud, bud_names}
use backend.HashTable.{look_up_beginning_success_rate, look_up_rate, hash_table_begin}
use backend.Bud.{
  check_bud_pair_genders, id_and_gender, out_of_range, get_metadatas, all_revealed,
  verify_bud_pairs, chunks, rename_gen1_bud, rename_found, check_bud_name, chunks_from,
  verify_metadatas, require_owners,
}
use backend.Bud.Chunks.{join, chunks-join}
use backend.Bud.Pairs.{verify_bud_pairs-ok}
use backend.Bud.Renames.{rename_gen1_bud-ok}
use backend.Land.{is_free_land, create_free_land_slots, find_open_breed_slot_by_id}
use backend.Land.Slots.{create_free_land_slots-idempotent}
use backend.Breed.{
  CreateBreedPair, breed_time_elapsed, create_pair, in_breeding, new_pair, level_breeding_up,
  start_breed_level, find_pair_in_breeding, place_pair, get_start_success_rate, base_rate, occupy,
  create_level_buds, create_level,
}
use backend.Breed.Charges.{paid, level_breeding_up-too_early}
use backend.Breed.Creation.{FreeSlot, create_pair-ok}
use backend.Sessions.{IsGood}
use backend.Auth.{get_login_message}
use backend.Sessions.Requests.{Request, serve, serve-IsGood, empty, empty-IsGood}
use backend.Tests.Fixtures.{env, caller, start, bud, user}

abbrev body : CreateBreedPair
body = record {
  male_bud_id = pos 1;
  female_bud_id = pos 2;
  slot_id = 1;
  game_item_id = none;
  upgrade_slot = false;
}

-- A login makes the slots of a land; a session is begun, levelled up and canceled.
abbrev requests : List Request
requests =
    Request.log_in env (record {
      message = get_login_message 3 "0000001000000";
      address = 7;
      game_key_id = 3;
      signature = "0x0";
    })
    ∷ Request.pair env caller body
    ∷ Request.level_up env caller 1 1 2
    ∷ Request.cancel caller 1
    ∷ Request.snapshot
    ∷ []

serve-IsGood_example : IsGood (serve requests empty)
serve-IsGood_example = serve-IsGood requests empty empty-IsGood

abbrev three_ids : List ℕ
three_ids = 5 ∷ 6 ∷ 7 ∷ []

chunks-join_example :
    (join (chunks 2 three_ids) ≡ three_ids) × All (λ c. length c ≤ 2) (chunks 2 three_ids)
chunks-join_example = chunks-join 2 three_ids (omega arith)

create_free_land_slots-idempotent_example :
    let s' = (create_free_land_slots 8 4 start).1 in
    let before = tally (is_free_land 8 4) start.slots.rows in
    (tally (is_free_land 8 4) s'.slots.rows ≡ (if ltb 0 before then before else 5))
    × (create_free_land_slots 8 4 s' ≡ (ok tt, s'))
create_free_land_slots-idempotent_example = create_free_land_slots-idempotent 8 4 start

abbrev level_bud : ℕ → Bool → BreedBud
level_bud i is_male = record { id = i; bud = bud is_male; level_id = 1 }

-- A session at a level.
abbrev pair_at : ℕ → BreedPair
pair_at n = record {
  id = 1;
  male_bud_id = pos 1;
  female_bud_id = pos 2;
  rate = pos 100;
  created_at = 0;
  user_address = 7;
  current_level = n;
  status = paired;
  slot_id = 1;
  game_key_id = 3;
  game_item_id = none;
}

abbrev running : ℕ → State
running n = record start { pairs = record { rows = pair_at n ∷ []; next = 2 } }

verify_bud_pairs-ok_example :
    (out_of_range (pos 1) ≡ false)
    × (out_of_range (pos 2) ≡ false)
    × ((rest : List Address) × (env.owners_of (addresses env.network).bud (pos 1 ∷ pos 2 ∷ [])
          ≡ some (7 ∷ 7 ∷ rest)))
    × (get_metadatas env (pos 1 ∷ pos 2 ∷ []) ≡ get_metadatas env (pos 1 ∷ pos 2 ∷ []))
    × (all_revealed (get_metadatas env (pos 1 ∷ pos 2 ∷ [])) ≡ true)
    × (check_bud_pair_genders
          (map id_and_gender (get_metadatas env (pos 1 ∷ pos 2 ∷ [])))
          (pos 1)
          (pos 2)
        ≡ true)
    × (start ≡ start)
unfolding verify_bud_pairs verify_metadatas require_owners check_bud_pair_genders get_metadatas
    chunks chunks_from
verify_bud_pairs-ok_example =
    verify_bud_pairs-ok env 7 (pos 1) (pos 2) start start (get_metadatas env (pos 1 ∷ pos 2 ∷ []))
      refl

abbrev new_bud : Gen1Bud
new_bud = record {
  id = 4;
  bud = bud true;
  created_at = 900000;
  minter_address = 7;
  signature = "";
  pair_id = none;
}

abbrev with_bud : State
with_bud = record start { gen1_buds = record { rows = new_bud ∷ []; next = 5 } }

abbrev haze : String
haze = "Haze"

rename_gen1_bud-ok_example :
    (b : Gen1Bud) × (b.id ≡ 4)
    × (b.minter_address ≡ 7)
    × (1000000 ≤ b.created_at + 600000)
    × (env.name_allowed haze ≡ some true)
    × (tally (λ b. str_eq b.bud.name haze) with_bud.gen1_buds.rows ≡ 0)
    × (haze ≡ haze)
unfolding rename_gen1_bud rename_found check_bud_name config
rename_gen1_bud-ok_example =
    rename_gen1_bud-ok env caller 4 haze with_bud (rename_gen1_bud env caller 4 haze with_bud).1
      (record new_bud { bud = record new_bud.bud { name = haze } }) refl

create_pair-ok_example :
    (rest : List Address) × (env.owners_of (addresses env.network).bud (pos 1 ∷ pos 2 ∷ [])
      ≡ some (7 ∷ 7 ∷ rest))
    × (all_revealed (get_metadatas env (pos 1 ∷ pos 2 ∷ [])) ≡ true)
    × (check_bud_pair_genders
          (map id_and_gender (get_metadatas env (pos 1 ∷ pos 2 ∷ [])))
          (pos 1)
          (pos 2)
        ≡ true)
    × (tally (in_breeding (pos 1) (pos 2)) start.pairs.rows ≡ 0)
    × FreeSlot caller 1 start
    × ((rate : ℤ) × (i : ℕ) × (new_pair env caller body (pos 150) 1
          ≡ new_pair env caller body rate i))
unfolding create_pair verify_bud_pairs verify_metadatas require_owners check_bud_pair_genders
    get_metadatas chunks chunks_from find_pair_in_breeding place_pair find_open_breed_slot_by_id
    get_start_success_rate base_rate config look_up_beginning_success_rate look_up_rate
    hash_table_begin ◌+ℤ◌ occupy start_breed_level create_level_buds create_level
    generate_random_bud random_number scale pick bud_names
create_pair-ok_example =
    create_pair-ok env caller body start (create_pair env caller body start).1
      (new_pair env caller body (pos 150) 1) refl

abbrev first_level : BreedLevel
first_level = record {
  id = 1;
  pair_id = 1;
  level = 1;
  created_at = 995000;
  bonus_rate = pos 0;
  male_breed_bud_id = none;
  female_breed_bud_id = none;
}

-- Five seconds after the start of a level of ten.
abbrev early : State
early = record (running 1) { levels = record { rows = first_level ∷ []; next = 2 } }

level_breeding_up-too_early_example :
    level_breeding_up env caller 1 1 2 early
    ≡ (err (Error.unprocessable "Breeding time not elapsed"), paid 7 user early)
unfolding breed_time_elapsed get_breed_time config
level_breeding_up-too_early_example =
    level_breeding_up-too_early env caller (pair_at 1) first_level user 1 1 2 early refl
      (omega arith) refl (refl, refl, refl) refl refl refl refl refl
