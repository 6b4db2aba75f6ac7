-- ===== src/Breed/Target.antt =====
-- Sessions at and past the target level (src/breed/breed.controller.ts).
use backend.Common.{ℕ, ◌<◌, ◌≡◌, refl, true, false, arith, none, some, ltb, ◌==◌, first, change}
use backend.Schema.{Error, Caller, BreedPair, Bud, ok, err}
use backend.Db.{State}
use backend.Env.{Env, config}
use backend.Breed.Service.{start_breed_level, evaluate_level, evaluate_breed_level, is_level}
use backend.Breed.Controller.{
  own_paired, find_own_pair, level_up_pair, level_breeding_up, finalize_pair, finalize_breeding,
}

past : (n : ℕ) → 5 < n → (ltb 5 n ≡ true) × (ltb n 5 ≡ false)
past n h = (ground arith, ground arith)

-- A session past the level 5 with no row of its level can neither be levelled up nor be
-- finalized: the one is refused with the advice to do the other, the other for want of the row;
-- neither writes anything.
pub past_target-stuck :
    (env : Env) (req : Caller) (pair : BreedPair) (pair_id male female : ℕ) (s : State)
    → first (own_paired req.user pair_id) s.pairs.rows ≡ some pair
    → 5 < pair.current_level
    → first (is_level pair.id pair.current_level) s.levels.rows ≡ none
    → (level_breeding_up env req pair_id male female s
        ≡ (err (Error.bad_request "Target level reached. Do finalize!"), s))
      × (finalize_breeding env req pair_id male female s
          ≡ (err (Error.not_found "Breed level not found"), s))
unfolding level_breeding_up finalize_breeding find_own_pair level_up_pair finalize_pair
    evaluate_breed_level evaluate_level config
past_target-stuck env req pair pair_id male female s e h l =
    let (above, not_below) = past pair.current_level h in
    (rw e rw above refl, rw e rw not_below rw l refl)

-- A session at the level 5 that starts its next level stands at 6, and no row and no buds are
-- made for the new level.
pub start_breed_level-past_target :
    (env : Env) (pair p : BreedPair) (male female : Bud) (s : State)
    → pair.current_level ≡ 5
    → first (λ x. x.id == pair.id) s.pairs.rows ≡ some p
    → start_breed_level env pair male female s ≡ (
      ok (record p { current_level = 6 }),
      record s {
        pairs = record s.pairs {
          rows = change (λ x. x.id == pair.id) (λ x. record x { current_level = 6 }) s.pairs.rows;
        };
      },
    )
unfolding start_breed_level config
start_breed_level-past_target env pair p male female s h e = rw h rw e refl
