-- ===== src/Tests/Lifecycle.antt =====
-- Sessions from their start to their end.
use backend.Common.{
  ℕ, suc, ◌+◌, ◌*◌, ◌≡◌, refl, arith, Option, none, some, true, false, [], ◌∷◌, List,
}
use backend.Common.Int.{ℤ, pos, ◌-ℤ◌}
use backend.Schema.{ok, err, Error, BreedPair, BreedLevel, BreedBud, User, paired}
use backend.Db.{State}
use backend.Env.{Env, config}
use backend.Utils.{sign_mint_request, get_bonus_rate_status, get_breed_time}
use backend.Bud.{get_metadatas, check_bud_pair_genders, chunks, chunks_from}
use backend.Breed.{
  settle, CreateBreedPair, new_pair, create_pair, breed_time_elapsed, verify_game_item_possession,
  Finalized, level_breeding_up, finalize_breeding,
}
use backend.Breed.Advance.{evaluated}
use backend.Breed.Start.{HasStarted, create_pair-starts}
use backend.Breed.Finish.{LacksSignature, settle-unsigned, IsSettled, finalize_breeding-settles}
use backend.User.Points.{user_at}
use backend.Breed.Levels.{at_level}
use backend.Breed.Lifecycle.{Climbs, breeding-finishes}
use backend.Sessions.Requests.{Request, serve}
use backend.Sessions.Moves.{Follows}
use backend.Sessions.Numbering.{Numbered}
use backend.Sessions.LifeCycle.{serve-Follows}
use backend.Breed.Stuck.{level_breeding_up-stuck}
use backend.Tests.Fixtures.{env, bud, caller, user, slot, metadata, start}

abbrev body : CreateBreedPair
body = record {
  male_bud_id = pos 1;
  female_bud_id = pos 2;
  slot_id = 1;
  game_item_id = none;
  upgrade_slot = false;
}

create_pair-starts_example :
    (rate : ℤ) × (s' : State) × (create_pair env caller body start
      ≡ (ok (new_pair env caller body rate 1), s'))
    × HasStarted env (new_pair env caller body rate 1) start s'
unfolding get_metadatas check_bud_pair_genders chunks chunks_from
create_pair-starts_example =
    create_pair-starts env caller body (metadata (pos 1)) (metadata (pos 2)) slot start
      (λ n. omega arith) (omega arith) (refl, refl, refl, refl, refl, refl) refl refl (refl, refl)
      (refl, refl)

-- A session at the level 5, whose time has passed.
abbrev session : BreedPair
session = record {
  id = 1;
  male_bud_id = pos 1;
  female_bud_id = pos 2;
  rate = pos 100;
  created_at = 900000;
  user_address = 7;
  current_level = 5;
  status = paired;
  slot_id = 1;
  game_key_id = 3;
  game_item_id = none;
}

abbrev last_level : BreedLevel
last_level = record {
  id = 1;
  pair_id = 1;
  level = 5;
  created_at = 900000;
  bonus_rate = pos 0;
  male_breed_bud_id = none;
  female_breed_bud_id = none;
}

abbrev male : BreedBud
male = record { id = 1; bud = bud true; level_id = 1 }

abbrev female : BreedBud
female = record { id = 2; bud = bud false; level_id = 1 }

abbrev bred : State
bred = record start {
  pairs = record { rows = session ∷ []; next = 2 };
  levels = record { rows = last_level ∷ []; next = 2 };
  breed_buds = record { rows = male ∷ female ∷ []; next = 3 };
  slots = record { rows = record slot { is_used = true } ∷ []; next = 2 };
}

finalize_breeding-settles_example :
    (done : Option Finalized) × (s' : State) × (finalize_breeding env caller 1 1 2 bred
      ≡ (ok done, s'))
    × IsSettled env caller 1 session done s'
unfolding breed_time_elapsed get_breed_time config check_bud_pair_genders sign_mint_request
finalize_breeding-settles_example =
    finalize_breeding-settles env caller session last_level male female 1 1 2 bred
      (λ n. omega arith) refl refl refl (refl, refl, refl, refl, refl, refl) (λ i. (_, refl))
      (omega arith) refl

level_breeding_up-stuck_example :
    (s' : State) × (level_breeding_up env caller 1 1 2 bred
      ≡ (ok (get_bonus_rate_status (evaluated male female).bonus_rate), s'))
    × (level_breeding_up env caller 1 1 2 s'
        ≡ (err (Error.bad_request "Target level reached. Do finalize!"), s'))
    × (finalize_breeding env caller 1 1 2 s' ≡ (err (Error.not_found "Breed level not found"), s'))
unfolding breed_time_elapsed get_breed_time config check_bud_pair_genders
    verify_game_item_possession
level_breeding_up-stuck_example =
    level_breeding_up-stuck env caller session last_level user male female 1 1 2 1 2 bred refl refl
      refl refl (refl, refl, refl) refl refl (refl, refl, refl, refl, refl, refl) refl

-- A request every ten seconds, which is the time that a level takes.
abbrev surroundings : ℕ → Env
surroundings n = record env { now = 1000000 + n * 10000 }

abbrev rich : User
rich = record user { breeding_point = pos 100 }

abbrev funded : State
funded = record start { users = rich ∷ [] }

ten_seconds : (n : ℕ) → breed_time_elapsed (surroundings (suc n)) (surroundings n).now none ≡ true
unfolding breed_time_elapsed get_breed_time config
ten_seconds n = ground arith

breeding-finishes_example :
    (p : BreedPair) × (male : ℕ) × (female : ℕ) × (done : Option Finalized) × (s1 : State)
    × (s5 : State) × (s6 : State) × (create_pair (surroundings 0) caller body funded ≡ (ok p, s1))
    × Climbs surroundings caller p.id 1 s1 5 s5
    × (user_at 7 s5 ≡ some (record rich { breeding_point = pos 100 -ℤ pos 60 }))
    × (finalize_breeding (surroundings 5) caller p.id male female s5 ≡ (ok done, s6))
    × IsSettled (surroundings 5) caller p.id (at_level 5 p) done s6
unfolding get_metadatas check_bud_pair_genders chunks chunks_from sign_mint_request
breeding-finishes_example =
    breeding-finishes surroundings caller body (metadata (pos 1)) (metadata (pos 2)) slot rich
      funded (λ n. (λ k. omega arith, (refl, refl, refl), ten_seconds n)) (λ i. (_, refl))
      (refl, refl, refl, refl, refl, refl) refl refl (refl, refl) (refl, refl)
      (λ i le. (refl, refl)) refl refl refl

-- A session's last request, and a second one for the same buds.
abbrev last_requests : List Request
last_requests =
    Request.finalize env caller 1 1 2
    ∷ Request.pair env caller body
    ∷ Request.cancel caller 2
    ∷ Request.snapshot
    ∷ []

serve-Follows_example :
    Numbered (serve last_requests bred).pairs
    × Follows bred.pairs.rows (serve last_requests bred).pairs.rows
serve-Follows_example = serve-Follows last_requests bred (λ i. ground arith, λ i l. ground arith)

-- The last session where the server has no key.
abbrev no_key : Env
no_key = record env { wallet_key = none }

settle-unsigned_example :
    (s' : State) × (settle no_key caller 1 session (some (bud true)) bred ≡ (err Error.prisma, s'))
    × LacksSignature no_key caller 1 session (bud true) bred s'
unfolding sign_mint_request
settle-unsigned_example =
    settle-unsigned no_key caller 1 session (bud true) bred refl refl (omega arith)
