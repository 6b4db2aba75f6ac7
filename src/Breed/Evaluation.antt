-- ===== src/Breed/Evaluation.antt =====
-- The evaluation of a level, from src/breed/breed.service.ts.
use backend.Common.{ℕ, ◌≡◌, refl, true, false, arith, [], ◌∷◌, map}
use backend.Common.Int.{ℤ, pos, ◌+ℤ◌}
use backend.Schema.{BreedBud, is_male, ok}
use backend.Db.{State}
use backend.HashTable.{look_up_breed_rate}
use backend.Bud.{check_bud_pair_genders}
use backend.Bud.Pairs.{check_bud_pair_genders-Fits}
use backend.Breed.Service.{breed_id_and_gender, evaluate_list}

-- The rate of a bud by its traits.
abbrev pub rate_of : BreedBud → ℤ
rate_of b = look_up_breed_rate b.bud.thc b.bud.bud_size

in_order :
    (a b : BreedBud) (s : State)
    → is_male a.bud.gender ≡ true
    → is_male b.bud.gender ≡ false
    → (evaluate_list (a ∷ b ∷ []) s ≡ (
      ok (record {
        bonus_rate = (pos 0 +ℤ rate_of a) +ℤ rate_of b;
        male_bud = a.bud;
        female_bud = b.bud;
      }),
      s,
    ))
      × (evaluate_list (b ∷ a ∷ []) s ≡ (
        ok (record {
          bonus_rate = (pos 0 +ℤ rate_of b) +ℤ rate_of a;
          male_bud = a.bud;
          female_bud = b.bud;
        }),
        s,
      ))
unfolding evaluate_list
in_order a b s ha hb = (rw (ha, hb) refl, rw (ha, hb) refl)

-- Two buds whose genders fit their roles, in either order of their rows: the evaluation takes
-- the one named as the male for the male bud, the other for the female bud, and adds up their
-- rates.
pub evaluate_list-roles :
    (male female : ℕ) (a b : BreedBud) (s : State)
    → a.id ≡ male
    → b.id ≡ female
    → check_bud_pair_genders (map breed_id_and_gender (a ∷ b ∷ [])) (pos male) (pos female) ≡ true
    → (evaluate_list (a ∷ b ∷ []) s ≡ (
      ok (record {
        bonus_rate = (pos 0 +ℤ rate_of a) +ℤ rate_of b;
        male_bud = a.bud;
        female_bud = b.bud;
      }),
      s,
    ))
      × (evaluate_list (b ∷ a ∷ []) s ≡ (
        ok (record {
          bonus_rate = (pos 0 +ℤ rate_of b) +ℤ rate_of a;
          male_bud = a.bud;
          female_bud = b.bud;
        }),
        s,
      ))
evaluate_list-roles male female a b s ha hb h =
    let (enough, (fa, (fb, rest))) =
      (check_bud_pair_genders-Fits (map breed_id_and_gender (a ∷ b ∷ [])) (pos male) (pos female)).0
        h in
    in_order a b s (ground (arith, ha, fa)) (ground (arith, hb, fb))
