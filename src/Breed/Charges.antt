-- ===== src/Breed/Charges.antt =====
-- What `levelBreedingUp` of src/breed/breed.controller.ts charges.
use backend.Common.{
  ℕ, ◌≤◌, ◌≡◌, refl, true, false, arith, none, some, [], ◌∷◌, first, change, ◌==◌, ltb, eq→==,
}
use backend.Common.Int.{pos, ltb_ℤ, ◌-ℤ◌, ◌==ℤ◌}
use backend.Schema.{Error, Address, Caller, User, BreedPair, BreedLevel, ok, err}
use backend.Db.{State}
use backend.Env.{Env, addresses, config}
use backend.Bud.{verify_bud_pairs, require_owners, out_of_range}
use backend.User.{consume_breeding_point, consume_found}
use backend.User.Points.{user_at}
use backend.Breed.Service.{
  is_level, breed_time_elapsed, evaluate_level, evaluate_breed_level, verify_game_item_possession,
}
use backend.Breed.Controller.{own_paired, find_own_pair, level_up_pair, level_breeding_up}

-- The buds of a session are on its owner's account.
abbrev pub BudsOwned : Env → BreedPair → Type 0
BudsOwned env pair =
    (out_of_range pair.male_bud_id ≡ false)
    × (out_of_range pair.female_bud_id ≡ false)
    × (env.owners_of (addresses env.network).bud (pair.male_bud_id ∷ pair.female_bud_id ∷ [])
        ≡ some (pair.user_address ∷ pair.user_address ∷ []))

pub owned :
    (env : Env) (pair : BreedPair) (s : State)
    → BudsOwned env pair
    → verify_bud_pairs env pair.user_address pair.male_bud_id pair.female_bud_id false s
      ≡ (ok [], s)
unfolding verify_bud_pairs require_owners
owned env pair s (low, high, o) =
    rw low rw high rw o rw (eq→== pair.user_address pair.user_address refl) refl

-- The state after the user has paid.
abbrev pub paid : Address → User → State → State
paid a u s = record s {
  users =
      change (λ x. x.address == a) (λ x. record x { breeding_point = u.breeding_point -ℤ pos 15 })
        s.users;
}

pub pays :
    (env : Env) (a : Address) (u : User) (s : State)
    → user_at a s ≡ some u
    → ltb_ℤ u.breeding_point (pos 15) ≡ false
    → consume_breeding_point a 15 s
      ≡ (ok (record u { breeding_point = u.breeding_point -ℤ pos 15 }), paid a u s)
unfolding consume_breeding_point consume_found
pays env a u s e h = rw e rw h rw e refl

pub not_past : (n : ℕ) → n ≤ 5 → ltb 5 n ≡ false
not_past n h = ground arith

-- For a session with no game item at a level up to 5, whose buds are its owner's, whose level's
-- row is not evaluated, and of a user with 15 points at least: a request to level up before the
-- breeding time has elapsed is refused, and takes 15 points all the same.
pub level_breeding_up-too_early :
    (env : Env) (req : Caller) (pair : BreedPair) (level : BreedLevel) (u : User)
    (pair_id male female : ℕ) (s : State)
    → first (own_paired req.user pair_id) s.pairs.rows ≡ some pair
    → pair.current_level ≤ 5
    → pair.game_item_id ≡ none
    → BudsOwned env pair
    → user_at req.user s ≡ some u
    → ltb_ℤ u.breeding_point (pos 15) ≡ false
    → first (is_level pair.id pair.current_level) s.levels.rows ≡ some level
    → (level.bonus_rate ==ℤ pos 0) ≡ true
    → breed_time_elapsed env level.created_at none ≡ false
    → level_breeding_up env req pair_id male female s
      ≡ (err (Error.unprocessable "Breeding time not elapsed"), paid req.user u s)
unfolding level_breeding_up find_own_pair level_up_pair verify_game_item_possession
    evaluate_breed_level evaluate_level config
level_breeding_up-too_early env req pair level u pair_id male female s e n g b ue enough l zero_rate
      t =
    rw e rw (not_past pair.current_level n) rw g rw (owned env pair s b) rw
      (pays env req.user u s ue enough) rw l rw zero_rate rw t refl
