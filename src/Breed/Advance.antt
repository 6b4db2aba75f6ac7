-- ===== src/Breed/Advance.antt =====
-- A request to level up that goes through: `levelBreedingUp` of src/breed/breed.controller.ts.
use backend.Common.{
  ℕ, suc, ◌+◌, ◌≤◌, ◌<◌, ◌≡◌, refl, ap, ◌∙◌, arith, true, false, ◌&&◌, some, [], ◌∷◌, map, ltb,
  ◌==◌, tally, first, change, keep, includes,
}
use backend.Common.Counting.{tally-change_same}
use backend.Common.Int.{ℤ, pos, ltb_ℤ, ◌-ℤ◌, ◌==ℤ◌}
use backend.Schema.{ok, Caller, User, BreedPair, BreedLevel, BreedBud}
use backend.Db.{State}
use backend.Db.Inversion.{bind-runs}
use backend.Env.{Env, config}
use backend.Utils.{get_bonus_rate_status}
use backend.Utils.Buds.{DrawsBelowOne}
use backend.Bud.{check_bud_pair_genders}
use backend.User.Points.{user_at, found_after}
use backend.Breed.Service.{
  is_level, breed_time_elapsed, Evaluated, evaluate_buds, evaluate_list, breed_id_and_gender,
  evaluate_level, evaluate_breed_level, start_breed_level, verify_game_item_possession,
}
use backend.Breed.Controller.{own_paired, find_own_pair, level_up_pair, level_breeding_up}
use backend.Breed.Charges.{BudsOwned, owned, paid, pays, not_past}
use backend.Breed.Progress.{HasBegun, start_breed_level-runs}

-- What the evaluation of two buds answers.
abbrev pub evaluated : BreedBud → BreedBud → Evaluated
evaluated a b =
    evaluate_buds (record { bonus_rate = pos 0; male_bud = a.bud; female_bud = b.bud }) (a ∷ b ∷ [])

-- The level has been bred for its time and is not evaluated, its row is found by its id, and the
-- two buds named are of it, with the genders of their roles.
abbrev pub IsReady : Env → BreedPair → BreedLevel → BreedBud → BreedBud → ℕ → ℕ → State → Type 0
IsReady env pair level a b male female s =
    (first (is_level pair.id pair.current_level) s.levels.rows ≡ some level)
    × (first (λ x. x.id == level.id) s.levels.rows ≡ some level)
    × ((level.bonus_rate ==ℤ pos 0) ≡ true)
    × (breed_time_elapsed env level.created_at pair.game_item_id ≡ true)
    × (keep (λ x. includes x.id (male ∷ female ∷ []) && x.level_id == level.id) s.breed_buds.rows
        ≡ a ∷ b ∷ [])
    × (check_bud_pair_genders (map breed_id_and_gender (a ∷ b ∷ [])) (pos male) (pos female) ≡ true)

-- A level with its evaluation.
abbrev pub with_evaluation : ℤ → ℕ → ℕ → BreedLevel → BreedLevel
with_evaluation rate male female x = record x {
  bonus_rate = rate;
  male_breed_bud_id = some male;
  female_breed_bud_id = some female;
}

abbrev pub evaluated_state : BreedLevel → ℤ → ℕ → ℕ → State → State
evaluated_state level rate male female s = record s {
  levels = record s.levels {
    rows = change (λ x. x.id == level.id) (with_evaluation rate male female) s.levels.rows;
  };
}

pub evaluate_breed_level-runs :
    (env : Env) (pair : BreedPair) (level : BreedLevel) (a b : BreedBud) (male female : ℕ)
    (s : State)
    → IsReady env pair level a b male female s
    → evaluate_breed_level env pair male female s
      ≡ (ok (evaluated a b), evaluated_state level (evaluated a b).bonus_rate male female s)
unfolding evaluate_breed_level evaluate_level evaluate_list
evaluate_breed_level-runs env pair level a b male female s (l, i, fresh, elapsed, buds, fit) =
    rw l rw fresh rw elapsed rw buds rw fit rw i refl

still_none :
    (level : BreedLevel) (rate : ℤ) (pair_id n male female : ℕ) (s : State)
    → ltb 0 (tally (is_level pair_id n) s.levels.rows) ≡ false
    → ltb 0 (tally (is_level pair_id n) (evaluated_state level rate male female s).levels.rows)
      ≡ false
still_none level rate pair_id n male female s h =
    ap (ltb 0) (
      tally-change_same (is_level pair_id n) (λ x. x.id == level.id)
        (with_evaluation rate male female) s.levels.rows (λ x. refl))
    ∙ h

at_most_five : (n : ℕ) → n < 5 → n ≤ 5
at_most_five n h = omega (arith, h)

-- What a session that has been levelled up is: one level further, with the evaluation in the old
-- level's row and a new level begun, and its user 15 points poorer.
abbrev pub IsAdvanced :
    Env
    → Caller
    → BreedPair
    → BreedLevel
    → User
    → BreedBud
    → BreedBud
    → ℕ
    → ℕ
    → State
    → State
    → Type 0
IsAdvanced env req pair level u a b male female s s' =
    (first (λ x. x.id == pair.id) s'.pairs.rows
      ≡ some (record pair { current_level = pair.current_level + 1 }))
    × (user_at req.user s' ≡ some (record u { breeding_point = u.breeding_point -ℤ pos 15 }))
    × HasBegun env pair.id (pair.current_level + 1)
        (evaluated_state level (evaluated a b).bonus_rate male female s) s'

-- The tables that a new level leaves alone, and the next level's id.
abbrev pub IsAside : State → State → Type 0
IsAside s s' =
    (s'.slots ≡ s.slots) × (s'.gen1_buds ≡ s.gen1_buds) × (s'.levels.next ≡ suc s.levels.next)

pub level_breeding_up-runs :
    (env : Env) (req : Caller) (pair : BreedPair) (level : BreedLevel) (u : User) (a b : BreedBud)
    (pair_id male female : ℕ) (s : State)
    → DrawsBelowOne env
    → first (own_paired req.user pair_id) s.pairs.rows ≡ some pair
    → first (λ x. x.id == pair.id) s.pairs.rows ≡ some pair
    → pair.current_level < 5
    → verify_game_item_possession env pair s ≡ (ok true, s)
    → BudsOwned env pair
    → user_at req.user s ≡ some u
    → ltb_ℤ u.breeding_point (pos 15) ≡ false
    → IsReady env pair level a b male female s
    → ltb 0 (tally (is_level pair.id (pair.current_level + 1)) s.levels.rows) ≡ false
    → (s' : State) × (level_breeding_up env req pair_id male female s
        ≡ (ok (get_bonus_rate_status (evaluated a b).bonus_rate), s'))
      × IsAdvanced env req pair level u a b male female s s'
      × IsAside s s'
unfolding level_breeding_up find_own_pair level_up_pair config
level_breeding_up-runs env req pair level u a b pair_id male female s below own found h item owner
      user enough ready none_yet =
    let e = evaluated a b in
    let s1 = paid req.user u s in
    let s2 = evaluated_state level e.bonus_rate male female s1 in
    let evaluation = evaluate_breed_level-runs env pair level a b male female s1 ready in
    let (s3, start, row, begun, users, slots, _, gen1_buds, next) =
      start_breed_level-runs env pair e.male_bud e.female_bud s2 below h found
        (still_none level e.bonus_rate pair.id (pair.current_level + 1) male female s none_yet) in
    (
      s3,
      rw own rw (not_past pair.current_level (at_most_five pair.current_level h)) rw item rw
          (owned env pair s owner) rw (pays env req.user u s user enough)
          (bind-runs (evaluate_breed_level env pair male female) _ s1 s2 e evaluation
            ∙ bind-runs (start_breed_level env pair e.male_bud e.female_bud) _ s2 s3 _ start),
      (
        row,
        ap (first (λ x. x.address == req.user)) users
            ∙ found_after req.user (λ x. record x { breeding_point = u.breeding_point -ℤ pos 15 })
                s.users u (λ x. refl) user,
        begun,
      ),
      (slots, gen1_buds, next),
    )

-- For a running session of the caller, found by its id, below the level 5, whose game item check
-- passes, whose buds are its owner's, whose user has 15 points at least, whose level's row,
-- found by its id, is not evaluated and has bred for its time, with two buds named that are of
-- the level and fit their roles, and with no row of the next level yet, every draw of a random
-- number being below one: the request to level up succeeds with the status of the two buds'
-- rates; the session is one level further, the user has 15 points less, the level's row has the
-- evaluation, and the next level's row has begun with two male and two female buds.
pub level_breeding_up-advances :
    (env : Env) (req : Caller) (pair : BreedPair) (level : BreedLevel) (u : User) (a b : BreedBud)
    (pair_id male female : ℕ) (s : State)
    → DrawsBelowOne env
    → first (own_paired req.user pair_id) s.pairs.rows ≡ some pair
    → first (λ x. x.id == pair.id) s.pairs.rows ≡ some pair
    → pair.current_level < 5
    → verify_game_item_possession env pair s ≡ (ok true, s)
    → BudsOwned env pair
    → user_at req.user s ≡ some u
    → ltb_ℤ u.breeding_point (pos 15) ≡ false
    → IsReady env pair level a b male female s
    → ltb 0 (tally (is_level pair.id (pair.current_level + 1)) s.levels.rows) ≡ false
    → (s' : State) × (level_breeding_up env req pair_id male female s
        ≡ (ok (get_bonus_rate_status (evaluated a b).bonus_rate), s'))
      × IsAdvanced env req pair level u a b male female s s'
level_breeding_up-advances env req pair level u a b pair_id male female s below own found h item
      owner user enough ready none_yet =
    let (s', done, advanced, aside) =
      level_breeding_up-runs env req pair level u a b pair_id male female s below own found h item
        owner user enough ready none_yet in
    (s', done, advanced)
