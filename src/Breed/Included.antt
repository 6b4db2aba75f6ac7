-- ===== src/Breed/Included.antt =====
-- The levels and buds that the query of `getPairs` in src/breed/breed.controller.ts includes.
use backend.Common.{
  ◌+◌, ℕ, ◌≤◌, ◌≡◌, refl, ap, ◌∙◌, Bool, ◌&&◌, List, [], ◌∷◌, map, leb, ◌==◌, arith, if◌then◌else◌,
  keep, tally, All, Bool-cases, inl, inr,
}
use backend.Common.Counting.{tally-keep}
use backend.Schema.{BreedPair, BreedLevel, BreedBud}
use backend.Db.{State}
use backend.Breed.Views.{IncludedLevel, insert_by_level, by_level, included}

-- Levels that follow one another.
abbrev pub AreAscending : List BreedLevel → Type 0
AreAscending [] = Unit
AreAscending (l ∷ ls) = All (λ x. l.level ≤ x.level) ls × AreAscending ls

module _ (P : BreedLevel → Type 0) where
  All-insert_by_level :
      (l : BreedLevel) (xs : List BreedLevel) → P l → All P xs → All P (insert_by_level l xs)
  All-insert_by_level l [] h hs = (h, tt)
  All-insert_by_level l (x ∷ xs) h (k, hs) = elim (Bool-cases (leb l.level x.level)) [
    | inl e ↦ rw e (h, (k, hs))
    | inr e ↦ rw e (k, All-insert_by_level l xs h hs)
  ]

All-further :
    (m n : ℕ) (ls : List BreedLevel) → m ≤ n → All (λ x. n ≤ x.level) ls → All (λ x. m ≤ x.level) ls
All-further m n [] h hs = tt
All-further m n (l ∷ ls) h (k, hs) = (omega (arith, h, k), All-further m n ls h hs)

AreAscending-insert_by_level :
    (l : BreedLevel) (xs : List BreedLevel) → AreAscending xs → AreAscending (insert_by_level l xs)
AreAscending-insert_by_level l [] h = (tt, tt)
AreAscending-insert_by_level l (x ∷ xs) (h, hs) = elim (Bool-cases (leb l.level x.level)) [
  | inl e ↦
      let le : l.level ≤ x.level = ground arith in
      rw e ((le, All-further l.level x.level xs le h), (h, hs))
  | inr e ↦ rw e (
    All-insert_by_level (λ y. x.level ≤ y.level) l xs (ground arith) h,
    AreAscending-insert_by_level l xs hs,
  )
]

AreAscending-by_level : (ls : List BreedLevel) → AreAscending (by_level ls)
AreAscending-by_level [] = tt
AreAscending-by_level (l ∷ ls) =
    AreAscending-insert_by_level l (by_level ls) (AreAscending-by_level ls)

tally-insert_by_level :
    (w : BreedLevel → Bool) (l : BreedLevel) (xs : List BreedLevel)
    → tally w (insert_by_level l xs) ≡ tally w (l ∷ xs)
tally-insert_by_level w l [] = refl
tally-insert_by_level w l (x ∷ xs) = ground (arith, tally-insert_by_level w l xs)

tally-by_level : (w : BreedLevel → Bool) (ls : List BreedLevel) → tally w (by_level ls) ≡ tally w ls
tally-by_level w [] = refl
tally-by_level w (l ∷ ls) =
    tally-insert_by_level w l (by_level ls)
    ∙ ap (λ n. (if w l then 1 else 0) + n) (tally-by_level w ls)

-- The buds are those of the level: as many pass any test.
abbrev pub HasItsBuds : State → IncludedLevel → Type 0
HasItsBuds s i =
    (w : BreedBud → Bool)
    → tally w i.buds ≡ tally (λ b. w b && b.level_id == i.level.id) s.breed_buds.rows

-- The levels are those of the session: as many pass any test; they ascend, and have their buds.
abbrev pub AreLevelsOf : State → BreedPair → List IncludedLevel → Type 0
AreLevelsOf s p is =
    AreAscending (map (λ i. i.level) is)
    × ((w : BreedLevel → Bool)
        → tally w (map (λ i. i.level) is) ≡ tally (λ l. w l && l.pair_id == p.id) s.levels.rows)
    × All (HasItsBuds s) is

abbrev with_buds : State → BreedLevel → IncludedLevel
with_buds s l = record { level = l; buds = keep (λ b. b.level_id == l.id) s.breed_buds.rows }

level-with_buds :
    (s : State) (ls : List BreedLevel) → map (λ i. i.level) (map (with_buds s) ls) ≡ ls
level-with_buds s [] = refl
level-with_buds s (l ∷ ls) = ap (λ xs. l ∷ xs) (level-with_buds s ls)

have_buds : (s : State) (ls : List BreedLevel) → All (HasItsBuds s) (map (with_buds s) ls)
have_buds s [] = tt
have_buds s (l ∷ ls) =
    (λ w. tally-keep w (λ b. b.level_id == l.id) s.breed_buds.rows, have_buds s ls)

pub included-AreLevelsOf : (s : State) (p : BreedPair) → AreLevelsOf s p (included s p)
included-AreLevelsOf s p =
    let mine = keep (λ l. l.pair_id == p.id) s.levels.rows in
    let same = level-with_buds s (by_level mine) in
    (
      rw same (AreAscending-by_level mine),
      λ w.
          ap (tally w) same
          ∙ tally-by_level w mine
          ∙ tally-keep w (λ l. l.pair_id == p.id) s.levels.rows,
      have_buds s (by_level mine),
    )
