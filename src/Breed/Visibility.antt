-- ===== src/Breed/Visibility.antt =====
-- What a player sees of the own sessions: src/breed/dto/breed.dto.ts.
use backend.Breed.Included.{AreLevelsOf, included-AreLevelsOf}
use backend.Common.{
  false, ℕ, ◌+◌, ◌*◌, ◌≡◌, refl, Option, none, some, true, List, [], ◌∷◌, map, arith, if◌then◌else◌,
  truthy, keep, Bool-cases, inl, inr, ==→eq,
}
use backend.Schema.{Address, Caller, BreedPair, ok}
use backend.Db.{State}
use backend.Env.{Env, Network, goerli, mainnet, config}
use backend.Utils.{get_bonus_rate_status, get_breed_time}
use backend.Breed.Service.{breed_time_elapsed}
use backend.Breed.Time.{level_seconds, same_time}
use backend.Breed.Views.{
  BreedLevelDto, BreedPairDto, new_level_dto, new_pair_dto, IncludedLevel, included, is_asked,
  get_pairs,
}

-- A level of a session is shown whole exactly if `evaluateBreedLevel` would find its time elapsed.
abbrev pub IsShown : Env → Option ℕ → IncludedLevel → BreedLevelDto → Type 0
IsShown env item l d =
    let elapsed = breed_time_elapsed env l.level.created_at item in
    (d.id ≡ l.level.id)
    × (d.level ≡ l.level.level)
    × (d.end_at ≡ some (l.level.created_at + level_seconds env.network item * 1000))
    × (d.buds ≡ (if elapsed then some l.buds else none))
    × (d.bonus_rate ≡ (if elapsed then some (get_bonus_rate_status l.level.bonus_rate) else none))

some_seconds :
    (network : Network) (item : Option ℕ) → truthy (some (level_seconds network item)) ≡ true
some_seconds goerli item = ground arith
some_seconds mainnet item = ground arith

new_level_dto-IsShown :
    (env : Env) (item : Option ℕ) (l : IncludedLevel)
    → IsShown env item l
        (new_level_dto env (get_breed_time (config env.network).time_period item) l.level l.buds)
unfolding new_level_dto breed_time_elapsed
new_level_dto-IsShown env item l =
    rw (same_time env.network item) rw (some_seconds env.network item)
      (refl, refl, refl, refl, refl)

-- Levels and what is shown of them, one by one.
abbrev pub AreShown : Env → Option ℕ → List IncludedLevel → List BreedLevelDto → Type 0
AreShown env item [] [] = Unit
AreShown env item [] (d ∷ ds) = ⊥
AreShown env item (l ∷ ls) [] = ⊥
AreShown env item (l ∷ ls) (d ∷ ds) = IsShown env item l d × AreShown env item ls ds

shown :
    (env : Env) (item : Option ℕ) (ls : List IncludedLevel)
    → AreShown env item ls (
        map
          (λ l.
            new_level_dto env (get_breed_time (config env.network).time_period item) l.level l.buds)
          ls)
shown env item [] = tt
shown env item (l ∷ ls) = (new_level_dto-IsShown env item l, shown env item ls)

-- What is shown of a session, with its levels.
abbrev pub IsView : Env → State → BreedPair → BreedPairDto → Type 0
IsView env s p d =
    (d.id ≡ p.id)
    × (d.status ≡ p.status)
    × (d.current_level ≡ p.current_level)
    × (d.male_bud_id ≡ p.male_bud_id)
    × (d.female_bud_id ≡ p.female_bud_id)
    × (d.user_address ≡ p.user_address)
    × (d.slot_id ≡ p.slot_id)
    × (d.game_key_id ≡ p.game_key_id)
    × (d.game_item_id ≡ p.game_item_id)
    × (d.created_at ≡ p.created_at)
    × ((is : List IncludedLevel) × (ls : List BreedLevelDto) × (d.levels ≡ some ls)
        × AreLevelsOf s p is
        × AreShown env p.game_item_id is ls)

-- The session is the user's, and the one of the number where a number is given.
abbrev pub IsAskedFor : Address → Option ℕ → BreedPair → Type 0
IsAskedFor user pair_id p = (p.user_address ≡ user) × ((i : ℕ) → pair_id ≡ some i → p.id ≡ i)

-- One entry for each session that is asked for, in the table's order, and no other.
pub data Lists (env : Env) (s : State) (user : Address) (pair_id : Option ℕ)
    : List BreedPair → List BreedPairDto → Type 0 where
  ends : Lists env s user pair_id [] []
  shows :
      {p : BreedPair} {d : BreedPairDto} {ps : List BreedPair} {ds : List BreedPairDto}
      → IsAskedFor user pair_id p
      → IsView env s p d
      → Lists env s user pair_id ps ds
      → Lists env s user pair_id (p ∷ ps) (d ∷ ds)
  skips :
      {p : BreedPair} {ps : List BreedPair} {ds : List BreedPairDto}
      → ¬ IsAskedFor user pair_id p
      → Lists env s user pair_id ps ds
      → Lists env s user pair_id (p ∷ ps) ds

asked :
    (user : Address) (pair_id : Option ℕ) (p : BreedPair)
    → is_asked user pair_id p ≡ true
    → IsAskedFor user pair_id p
asked user none p h = (==→eq p.user_address user h, λ i e. cc)
asked user (some j) p h = (ground arith, λ i e. ground arith)

not_asked :
    (user : Address) (pair_id : Option ℕ) (p : BreedPair)
    → is_asked user pair_id p ≡ false
    → ¬ IsAskedFor user pair_id p
not_asked user none p h (e, k) = ground arith
not_asked user (some j) p h (e, k) = ground (arith, k j refl)

views :
    (env : Env) (s : State) (user : Address) (pair_id : Option ℕ) (ps : List BreedPair)
    → Lists env s user pair_id ps (
        map
          (λ p. new_pair_dto env (config env.network).time_period p (some (included s p)))
          (keep (is_asked user pair_id) ps))
unfolding new_pair_dto
views env s user pair_id [] = ends
views env s user pair_id (p ∷ ps) = elim (Bool-cases (is_asked user pair_id p)) [
  | inl e ↦ rw e (
      shows (asked user pair_id p e)
        (
          refl,
          refl,
          refl,
          refl,
          refl,
          refl,
          refl,
          refl,
          refl,
          refl,
          (_, _, refl, included-AreLevelsOf s p, shown env p.game_item_id (included s p)),
        )
        (views env s user pair_id ps))
  | inr e ↦ rw e (skips (not_asked user pair_id p e) (views env s user pair_id ps))
]

-- The listing answers one entry for each session that is the caller's and, where a number is
-- given, has that number, in the table's order, and none for any other session. An entry has its
-- session's numbers, status and level, and its levels: they are the session's, each as often as
-- it is in the table, in ascending order, each with the end of its time and, exactly if the
-- evaluation of a level would find the time elapsed, with its bonus and the buds of that level,
-- each as often as it is in the table.
pub get_pairs-Lists :
    (env : Env) (req : Caller) (pair_id : Option ℕ) (s : State)
    → (dtos : List BreedPairDto) × (get_pairs env req pair_id s ≡ (ok dtos, s))
      × Lists env s req.user pair_id s.pairs.rows dtos
unfolding get_pairs
get_pairs-Lists env req pair_id s = (_, refl, views env s req.user pair_id s.pairs.rows)
