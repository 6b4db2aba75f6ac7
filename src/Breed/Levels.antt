-- ===== src/Breed/Levels.antt =====
-- What a level that has begun is (`startBreedLevel` of src/breed/breed.service.ts): it can be
-- evaluated once its time has passed, and no later level is there.
use backend.Common.{
  ℕ, suc, ◌≤◌, ◌≡◌, refl, ap, ◌∙◌, arith, Bool, true, false, ◌&&◌, some, List, [], ◌∷◌, ◌++◌, map,
  ◌==◌, eq→==, tally, tally-append, first, keep, includes,
}
use backend.Common.Counting.{none_found, first-append_new, tally-le}
use backend.Common.Int.{pos}
use backend.Schema.{m, f, BreedPair, BreedBud}
use backend.Db.{State}
use backend.Env.{Env}
use backend.Bud.{check_bud_pair_genders}
use backend.Breed.Service.{is_level, breed_time_elapsed, breed_id_and_gender}
use backend.Breed.Progress.{fresh_level, HasBegun}
use backend.Breed.Advance.{IsReady}

module _ {R : Type 0} where
  -- What a stronger test finds, where the row found passes it.
  pub first-stronger :
      (w v : R → Bool) (rs : List R) (r : R)
      → first w rs ≡ some r
      → v r ≡ true
      → ((x : R) → v x ≡ true → w x ≡ true)
      → first v rs ≡ some r
  first-stronger w v [] r e h k = ground arith
  first-stronger w v (x ∷ rs) r e h k = ground (arith, first-stronger w v rs r, k x)

  keep-append : (w : R → Bool) (rs qs : List R) → tally w rs ≡ 0 → keep w (rs ++ qs) ≡ keep w qs
  keep-append w [] qs h = refl
  keep-append w (x ∷ rs) qs h = ground (arith, keep-append w rs qs)

  none_weaker :
      (a b : R → Bool) (rs : List R)
      → tally b rs ≡ 0
      → ((x : R) → a x ≡ true → b x ≡ true)
      → tally a rs ≡ 0
  none_weaker a b rs h k = omega (arith, h, tally-le a b rs k)

kept_two :
    (w : BreedBud → Bool) (b1 b2 b3 b4 : BreedBud)
    → w b1 ≡ true
    → w b2 ≡ true
    → w b3 ≡ false
    → w b4 ≡ false
    → keep w (b1 ∷ b2 ∷ b3 ∷ b4 ∷ []) ≡ b1 ∷ b2 ∷ []
kept_two w b1 b2 b3 b4 h1 h2 h3 h4 = rw (h1, h2, h3, h4) refl

-- The request names the buds with the first two new ids.
abbrev is_named : ℕ → ℕ → BreedBud → Bool
is_named n l b = includes b.id (n ∷ suc n ∷ []) && b.level_id == l

first_named : (n l : ℕ) (b : BreedBud) → b.id ≡ n → b.level_id ≡ l → is_named n l b ≡ true
first_named n l b i e = ground arith

second_named : (n l : ℕ) (b : BreedBud) → b.id ≡ suc n → b.level_id ≡ l → is_named n l b ≡ true
second_named n l b i e = ground arith

third_unnamed : (n l : ℕ) (b : BreedBud) → b.id ≡ suc (suc n) → is_named n l b ≡ false
third_unnamed n l b i = ground arith

fourth_unnamed : (n l : ℕ) (b : BreedBud) → b.id ≡ suc (suc (suc n)) → is_named n l b ≡ false
fourth_unnamed n l b i = ground arith

-- The first two buds of a level that has begun are a male and a female.
roles_fit :
    (n : ℕ) (b1 b2 : BreedBud)
    → b1.id ≡ n
    → b1.bud.gender ≡ m
    → b2.id ≡ suc n
    → b2.bud.gender ≡ f
    → check_bud_pair_genders (map breed_id_and_gender (b1 ∷ b2 ∷ [])) (pos n) (pos (suc n)) ≡ true
unfolding check_bud_pair_genders
roles_fit n b1 b2 i1 g1 i2 g2 = ground arith

-- The session at a level.
abbrev pub at_level : ℕ → BreedPair → BreedPair
at_level n p = record p { current_level = n }

-- No level has an id from the next one on, and no bud is of a level with one.
abbrev pub FreshLevels : State → Type 0
FreshLevels s =
    (i : ℕ)
    → s.levels.next ≤ i
    → (tally (λ l. l.id == i) s.levels.rows ≡ 0)
      × (tally (λ b. b.level_id == i) s.breed_buds.rows ≡ 0)

-- The session has no level from a number on.
abbrev pub NoneFrom : ℕ → ℕ → State → Type 0
NoneFrom i n s = (k : ℕ) → n ≤ k → tally (is_level i k) s.levels.rows ≡ 0

own_level : (env : Env) (i n l : ℕ) → is_level i n (fresh_level env i n l) ≡ true
own_level env i n l = ground arith

-- A level that has begun is ready for its evaluation once its time has passed.
pub begun-IsReady :
    (env env' : Env) (p : BreedPair) (n : ℕ) (s s' : State) (begun : HasBegun env p.id n s s')
    → tally (is_level p.id n) s.levels.rows ≡ 0
    → FreshLevels s
    → breed_time_elapsed env' env.now p.game_item_id ≡ true
    → IsReady env'
        (at_level n p)
        (fresh_level env p.id n s.levels.next)
        begun.0
        begun.1
        s.breed_buds.next
        (suc s.breed_buds.next)
        s'
begun-IsReady env env' p n s s'
      (b1, b2, b3, b4, levels, buds, (i1, l1, g1), (i2, l2, g2), (i3, l3, g3), (i4, l4, g4))
      none_yet new elapsed =
    let l = s.levels.next in
    let i = s.breed_buds.next in
    let level = fresh_level env p.id n l in
    let (new_level, new_buds) = new l (omega arith) in
    (
      ap (first (is_level p.id n)) levels
          ∙ first-append_new (is_level p.id n) s.levels.rows level
              (none_found (is_level p.id n) s.levels.rows none_yet) (own_level env p.id n l),
      ap (first (λ x. x.id == l)) levels
          ∙ first-append_new (λ x. x.id == l) s.levels.rows level
              (none_found (λ x. x.id == l) s.levels.rows new_level) (eq→== l l refl),
      refl,
      elapsed,
      ap (keep (is_named i l)) buds
          ∙ keep-append (is_named i l) s.breed_buds.rows (b1 ∷ b2 ∷ b3 ∷ b4 ∷ []) (
              none_weaker (is_named i l) (λ b. b.level_id == l) s.breed_buds.rows new_buds
                (λ b e. ground arith))
          ∙ kept_two (is_named i l) b1 b2 b3 b4 (first_named i l b1 i1 l1)
              (second_named i l b2 i2 l2) (third_unnamed i l b3 i3) (fourth_unnamed i l b4 i4),
      roles_fit i b1 b2 i1 g1 i2 g2,
    )

later_level : (env : Env) (i n k l : ℕ) → suc n ≤ k → is_level i k (fresh_level env i n l) ≡ false
later_level env i n k l h = ground arith

pub begun-NoneFrom :
    (env : Env) (i n : ℕ) (s s' : State)
    → HasBegun env i n s s'
    → NoneFrom i n s
    → NoneFrom i (suc n) s'
begun-NoneFrom env i n s s' begun h k le =
    ap (tally (is_level i k)) begun.4
    ∙ tally-append (is_level i k) s.levels.rows (fresh_level env i n s.levels.next ∷ [])
    ∙ rw (h k (omega (arith, le)), later_level env i n k s.levels.next le) refl

other_id : (l i : ℕ) → suc l ≤ i → (l == i) ≡ false
other_id l i h = ground arith

of_other : (b : BreedBud) (l i : ℕ) → b.level_id ≡ l → suc l ≤ i → (b.level_id == i) ≡ false
of_other b l i e h = ground arith

pub begun-FreshLevels :
    (env : Env) (i n : ℕ) (s s' : State)
    → HasBegun env i n s s'
    → s'.levels.next ≡ suc s.levels.next
    → FreshLevels s
    → FreshLevels s'
begun-FreshLevels env i n s s'
      (b1, b2, b3, b4, levels, buds, (_, l1, _), (_, l2, _), (_, l3, _), (_, l4, _)) next h k le =
    let le' : suc s.levels.next ≤ k = omega (arith, le, next) in
    let (no_level, no_bud) = h k (omega (arith, le')) in
    (
      ap (tally (λ l. l.id == k)) levels
          ∙ tally-append (λ l. l.id == k) s.levels.rows (fresh_level env i n s.levels.next ∷ [])
          ∙ rw (no_level, other_id s.levels.next k le') refl,
      ap (tally (λ b. b.level_id == k)) buds
          ∙ tally-append (λ b. b.level_id == k) s.breed_buds.rows (b1 ∷ b2 ∷ b3 ∷ b4 ∷ [])
          ∙ rw
              (
                no_bud,
                of_other b1 s.levels.next k l1 le',
                of_other b2 s.levels.next k l2 le',
                of_other b3 s.levels.next k l3 le',
                of_other b4 s.levels.next k l4 le',
              )
              refl,
    )
