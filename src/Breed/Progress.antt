-- ===== src/Breed/Progress.antt =====
-- How a session gets to its next level: `startBreedLevel` of src/breed/breed.service.ts.
use backend.Common.{
  ℕ, suc, ◌+◌, ◌<◌, ◌≡◌, refl, ap, ◌∙◌, arith, false, none, some, List, [], ◌∷◌, ◌++◌, ltb, ◌==◌,
  tally, first, change,
}
use backend.Common.Int.{pos}
use backend.Schema.{ok, Bud, BudGender, m, f, BreedPair, BreedLevel, BreedBud}
use backend.Db.{Rows, State, pair_table, updated}
use backend.Db.Inversion.{bind-runs}
use backend.Env.{Env, config}
use backend.Utils.Buds.{DrawsBelowOne, generate_random_bud-total}
use backend.Breed.Service.{is_level, create_level, target_bud, create_level_buds, start_breed_level}

-- A level that has just begun.
abbrev pub fresh_level : Env → ℕ → ℕ → ℕ → BreedLevel
fresh_level env pair_id level i = record {
  id = i;
  pair_id = pair_id;
  level = level;
  created_at = env.now;
  bonus_rate = pos 0;
  male_breed_bud_id = none;
  female_breed_bud_id = none;
}

-- A bud with an id, of a level, of a gender.
abbrev pub IsOfLevel : ℕ → ℕ → BudGender → BreedBud → Type 0
IsOfLevel i level_id g b = (b.id ≡ i) × (b.level_id ≡ level_id) × (b.bud.gender ≡ g)

-- A level has begun: its row is there, with two males and two females to choose from.
abbrev pub HasBegun : Env → ℕ → ℕ → State → State → Type 0
HasBegun env pair_id level s s' =
    (b1 : BreedBud) × (b2 : BreedBud) × (b3 : BreedBud) × (b4 : BreedBud) × (s'.levels.rows
      ≡ s.levels.rows ++ fresh_level env pair_id level s.levels.next ∷ [])
    × (s'.breed_buds.rows ≡ s.breed_buds.rows ++ b1 ∷ b2 ∷ b3 ∷ b4 ∷ [])
    × IsOfLevel s.breed_buds.next s.levels.next m b1
    × IsOfLevel (suc s.breed_buds.next) s.levels.next f b2
    × IsOfLevel (suc (suc s.breed_buds.next)) s.levels.next f b3
    × IsOfLevel (suc (suc (suc s.breed_buds.next))) s.levels.next m b4

target_bud-total :
    (env : Env) (g : BudGender) (parent : Bud) (s : State)
    → DrawsBelowOne env
    → (b : Bud) × (target_bud env g parent s ≡ (ok b, record s { drawn = 6 + s.drawn }))
      × (b.gender ≡ g)
target_bud-total env g parent s below =
    let (b, e, (t, u, v, w, gender)) =
      generate_random_bud-total env _ s below (omega arith) (omega arith) in
    (b, e, gender)

create_level-runs :
    (env : Env) (pair_id level : ℕ) (s : State)
    → ltb 0 (tally (is_level pair_id level) s.levels.rows) ≡ false
    → create_level env pair_id level s ≡ (
      ok (fresh_level env pair_id level s.levels.next),
      record s {
        levels = record {
          rows = s.levels.rows ++ fresh_level env pair_id level s.levels.next ∷ [];
          next = suc s.levels.next;
        };
      },
    )
unfolding create_level
create_level-runs env pair_id level s h = rw h refl

pub create_level_buds-runs :
    (env : Env) (pair_id level : ℕ) (male female : Bud) (s : State)
    → DrawsBelowOne env
    → ltb 0 (tally (is_level pair_id level) s.levels.rows) ≡ false
    → (s' : State) × (create_level_buds env pair_id level male female s ≡ (ok tt, s'))
      × HasBegun env pair_id level s s'
      × (s'.pairs ≡ s.pairs)
      × (s'.users ≡ s.users)
      × (s'.slots ≡ s.slots)
      × (s'.gen1_buds ≡ s.gen1_buds)
      × (s'.levels.next ≡ suc s.levels.next)
unfolding create_level_buds
create_level_buds-runs env pair_id level male female s below h =
    let (b1, e1, g1) = target_bud-total env m male s below in
    let s1 = record s { drawn = 6 + s.drawn } in
    let (b2, e2, g2) = target_bud-total env f female s1 below in
    let s2 = record s1 { drawn = 6 + s1.drawn } in
    let (b3, e3, g3) = target_bud-total env f female s2 below in
    let s3 = record s2 { drawn = 6 + s2.drawn } in
    let (b4, e4, g4) = target_bud-total env m male s3 below in
    let s4 = record s3 { drawn = 6 + s3.drawn } in
    let e5 = create_level-runs env pair_id level s4 h in
    (
      _,
      bind-runs (target_bud env m male) _ s s1 b1 e1
          ∙ bind-runs (target_bud env f female) _ s1 s2 b2 e2
          ∙ bind-runs (target_bud env f female) _ s2 s3 b3 e3
          ∙ bind-runs (target_bud env m male) _ s3 s4 b4 e4
          ∙ bind-runs (create_level env pair_id level) _ s4 _ _ e5,
      (
        _,
        _,
        _,
        _,
        refl,
        refl,
        (refl, refl, g1),
        (refl, refl, g2),
        (refl, refl, g3),
        (refl, refl, g4),
      ),
      refl,
      refl,
      refl,
      refl,
      refl,
    )

not_past_target : (n : ℕ) → n < 5 → ltb 5 (n + 1) ≡ false
not_past_target n h = ground arith

changed_row :
    (i n : ℕ) (rows : List BreedPair) (p : BreedPair)
    → first (λ x. x.id == i) rows ≡ some p
    → first (λ x. x.id == i) (change (λ x. x.id == i) (λ x. record x { current_level = n }) rows)
      ≡ some (record p { current_level = n })
changed_row i n [] p h = ground arith
changed_row i n (x ∷ rows) p h = ground (arith, h, changed_row i n rows p)

-- A session's row with a level, in the table.
abbrev pub levelled : ℕ → ℕ → Rows BreedPair → Rows BreedPair
levelled i n t = record t {
  rows = change (λ x. x.id == i) (λ x. record x { current_level = n }) t.rows;
}

-- Below the target level, the start of a level that has no row yet makes the level's row and
-- buds, and moves the session's level up by one.
pub start_breed_level-runs :
    (env : Env) (pair : BreedPair) (male female : Bud) (s : State)
    → DrawsBelowOne env
    → pair.current_level < 5
    → first (λ x. x.id == pair.id) s.pairs.rows ≡ some pair
    → ltb 0 (tally (is_level pair.id (pair.current_level + 1)) s.levels.rows) ≡ false
    → (s' : State) × (start_breed_level env pair male female s
        ≡ (ok (record pair { current_level = pair.current_level + 1 }), s'))
      × (first (λ x. x.id == pair.id) s'.pairs.rows
          ≡ some (record pair { current_level = pair.current_level + 1 }))
      × HasBegun env pair.id (pair.current_level + 1) s s'
      × (s'.users ≡ s.users)
      × (s'.slots ≡ s.slots)
      × (s'.pairs ≡ levelled pair.id (pair.current_level + 1) s.pairs)
      × (s'.gen1_buds ≡ s.gen1_buds)
      × (s'.levels.next ≡ suc s.levels.next)
unfolding start_breed_level config
start_breed_level-runs env pair male female s below h found none_yet =
    let n = pair.current_level + 1 in
    let (t, e, begun, pairs, users, slots, gen1_buds, next) =
      create_level_buds-runs env pair.id n male female s below none_yet in
    let found' : first (λ x. x.id == pair.id) t.pairs.rows ≡ some pair =
      ap (λ x. first (λ y. y.id == pair.id) x.rows) pairs ∙ found in
    (
      record t { pairs = levelled pair.id n t.pairs },
      rw (not_past_target pair.current_level h) (
          bind-runs (create_level_buds env pair.id n male female) _ s t tt e
          ∙ ap (λ o. updated pair_table pair.id (λ x. record x { current_level = n }) o t) found'),
      changed_row pair.id n t.pairs.rows pair found',
      begun,
      users,
      slots,
      ap (levelled pair.id n) pairs,
      gen1_buds,
      next,
    )
