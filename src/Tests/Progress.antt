-- ===== src/Tests/Progress.antt =====
-- A session that goes to its next level, and a random bud.
use backend.Common.{◌+◌, ◌≡◌, refl, arith, none, true, false, [], ◌∷◌}
use backend.Common.Int.{pos}
use backend.Schema.{ok, Bud, BreedPair, BreedLevel, BreedBud, paired}
use backend.Db.{State}
use backend.Env.{config}
use backend.Utils.{default_options, get_bonus_rate_status, get_breed_time, generate_random_bud}
use backend.Utils.Buds.{DrawsBelowOne, IsOfOptions, generate_random_bud-total}
use backend.Bud.{check_bud_pair_genders}
use backend.Breed.{
  breed_time_elapsed, verify_game_item_possession, level_breeding_up, cancel_breeding,
}
use backend.Breed.Advance.{evaluated, IsAdvanced, level_breeding_up-advances}
use backend.Sessions.{IsGood}
use backend.Sessions.Cancels.{IsFreed, cancel_breeding-frees}
use backend.Tests.Fixtures.{env, bud, caller, user, slot, start}

draws : DrawsBelowOne env
draws n = omega arith

generate_random_bud-total_example :
    (b : Bud) × (generate_random_bud env default_options start
      ≡ (ok b, record start { drawn = 6 + start.drawn }))
    × IsOfOptions default_options b
generate_random_bud-total_example =
    generate_random_bud-total env default_options start draws (omega arith) (omega arith)

abbrev session : BreedPair
session = record {
  id = 1;
  male_bud_id = pos 1;
  female_bud_id = pos 2;
  rate = pos 100;
  created_at = 900000;
  user_address = 7;
  current_level = 1;
  status = paired;
  slot_id = 1;
  game_key_id = 3;
  game_item_id = none;
}

abbrev first_level : BreedLevel
first_level = record {
  id = 1;
  pair_id = 1;
  level = 1;
  created_at = 900000;
  bonus_rate = pos 0;
  male_breed_bud_id = none;
  female_breed_bud_id = none;
}

abbrev male : BreedBud
male = record { id = 1; bud = bud true; level_id = 1 }

abbrev female : BreedBud
female = record { id = 2; bud = bud false; level_id = 1 }

-- A session at the first level, whose time has passed.
abbrev bred : State
bred = record start {
  pairs = record { rows = session ∷ []; next = 2 };
  levels = record { rows = first_level ∷ []; next = 2 };
  breed_buds = record { rows = male ∷ female ∷ []; next = 3 };
}

level_breeding_up-advances_example :
    (s' : State) × (level_breeding_up env caller 1 1 2 bred
      ≡ (ok (get_bonus_rate_status (evaluated male female).bonus_rate), s'))
    × IsAdvanced env caller session first_level user male female 1 2 bred s'
unfolding breed_time_elapsed get_breed_time config check_bud_pair_genders
    verify_game_item_possession
level_breeding_up-advances_example =
    level_breeding_up-advances env caller session first_level user male female 1 1 2 bred draws refl
      refl (omega arith) refl (refl, refl, refl) refl refl (refl, refl, refl, refl, refl, refl) refl

-- The same session on its slot.
abbrev placed : State
placed = record bred { slots = record { rows = record slot { is_used = true } ∷ []; next = 2 } }

placed-IsGood : IsGood placed
placed-IsGood = record {
  one_row = λ i. ground arith;
  occupied = λ i. ground arith;
  male_once = λ b. ground arith;
  female_once = λ b. ground arith;
  fresh = λ i h. ground (arith, h);
}

cancel_breeding-frees_example :
    (s' : State) × (cancel_breeding caller 1 placed ≡ (ok tt, s')) × IsFreed session s'
cancel_breeding-frees_example = cancel_breeding-frees caller 1 session placed placed-IsGood refl
