-- ===== src/Breed/Stuck.antt =====
-- A session at the target level that is levelled up (src/breed/breed.controller.ts).
use backend.Common.{
  ℕ, ◌≡◌, refl, ap, ◌∙◌, true, false, arith, none, some, ltb, ◌==◌, eq→==, if◌then◌else◌, tally,
  first, change,
}
use backend.Common.Counting.{none_found, first-change_other, tally-change_same}
use backend.Common.Int.{pos, ltb_ℤ}
use backend.Schema.{Error, Caller, User, BreedPair, BreedLevel, BreedBud, ok, err}
use backend.Db.{State}
use backend.Db.Inversion.{bind-runs}
use backend.Env.{Env, config}
use backend.Utils.{get_bonus_rate_status}
use backend.User.Points.{user_at}
use backend.Breed.Service.{
  is_level, evaluate_breed_level, start_breed_level, verify_game_item_possession,
}
use backend.Breed.Controller.{
  own_paired, find_own_pair, level_up_pair, level_breeding_up, finalize_breeding,
}
use backend.Breed.Charges.{BudsOwned, owned, paid, pays}
use backend.Breed.Advance.{
  evaluated, IsReady, evaluated_state, with_evaluation, evaluate_breed_level-runs,
}
use backend.Breed.Target.{past_target-stuck, start_breed_level-past_target}

-- The session as it is after the request.
abbrev pub past_target : BreedPair → BreedPair
past_target pair = record pair { current_level = 6 }

own_past_target :
    (req : Caller) (pair : BreedPair) (pair_id : ℕ) (s : State)
    → first (own_paired req.user pair_id) s.pairs.rows ≡ some pair
    → first (own_paired req.user pair_id) (change (λ x. x.id == pair.id) past_target s.pairs.rows)
      ≡ some (past_target pair)
own_past_target req pair pair_id s own =
    first-change_other (own_paired req.user pair_id) (λ x. x.id == pair.id) past_target s.pairs.rows
      pair (λ _. refl) own
    ∙ ap (λ b. some (if b then past_target pair else pair)) (eq→== pair.id pair.id refl)

no_level_past_target :
    (level : BreedLevel) (pair : BreedPair) (a b : BreedBud) (male female : ℕ) (s : State)
    → tally (is_level pair.id 6) s.levels.rows ≡ 0
    → first
        (is_level pair.id 6)
        (evaluated_state level (evaluated a b).bonus_rate male female s).levels.rows
      ≡ none
no_level_past_target level pair a b male female s h = none_found (is_level pair.id 6) _ (
    tally-change_same (is_level pair.id 6) (λ x. x.id == level.id)
      (with_evaluation (evaluated a b).bonus_rate male female) s.levels.rows (λ x. refl)
    ∙ h)

at_target : (n : ℕ) → n ≡ 5 → ltb 5 n ≡ false
at_target n h = ground arith

-- A running session of the caller at the level 5, found by its id, that could be finalized, and
-- whose level could be evaluated as for the next level, with points enough and no row of a level
-- 6: the request to level it up succeeds, and after it every request to level it up is refused
-- with the advice to finalize, and every one to finalize it is refused for want of the level's
-- row; neither writes anything.
pub level_breeding_up-stuck :
    (env : Env) (req : Caller) (pair : BreedPair) (level : BreedLevel) (u : User) (a b : BreedBud)
    (pair_id male female male' female' : ℕ) (s : State)
    → first (own_paired req.user pair_id) s.pairs.rows ≡ some pair
    → first (λ x. x.id == pair.id) s.pairs.rows ≡ some pair
    → pair.current_level ≡ 5
    → verify_game_item_possession env pair s ≡ (ok true, s)
    → BudsOwned env pair
    → user_at req.user s ≡ some u
    → ltb_ℤ u.breeding_point (pos 15) ≡ false
    → IsReady env pair level a b male female s
    → tally (is_level pair.id 6) s.levels.rows ≡ 0
    → (s' : State) × (level_breeding_up env req pair_id male female s
        ≡ (ok (get_bonus_rate_status (evaluated a b).bonus_rate), s'))
      × (level_breeding_up env req pair_id male' female' s'
          ≡ (err (Error.bad_request "Target level reached. Do finalize!"), s'))
      × (finalize_breeding env req pair_id male' female' s'
          ≡ (err (Error.not_found "Breed level not found"), s'))
unfolding level_breeding_up find_own_pair level_up_pair config
level_breeding_up-stuck env req pair level u a b pair_id male female male' female' s own found h
      item owner user enough ready none_yet =
    let e = evaluated a b in
    let s1 = paid req.user u s in
    let s2 = evaluated_state level e.bonus_rate male female s1 in
    let evaluation = evaluate_breed_level-runs env pair level a b male female s1 ready in
    let start = start_breed_level-past_target env pair pair e.male_bud e.female_bud s2 h found in
    let s3 = record s2 {
      pairs = record s2.pairs { rows = change (λ x. x.id == pair.id) past_target s2.pairs.rows };
    } in
    let (up, done) =
      past_target-stuck env req (past_target pair) pair_id male' female' s3
        (own_past_target req pair pair_id s2 own) (omega arith)
        (no_level_past_target level pair a b male female s1 none_yet) in
    (
      s3,
      rw own rw (at_target pair.current_level h) rw item rw (owned env pair s owner) rw
          (pays env req.user u s user enough)
          (bind-runs (evaluate_breed_level env pair male female) _ s1 s2 e evaluation
            ∙ bind-runs (start_breed_level env pair e.male_bud e.female_bud) _ s2 s3 _ start),
      up,
      done,
    )
