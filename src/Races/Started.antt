-- ===== src/Races/Started.antt =====
-- The tables after one request for a session has gone through (`createPair` of
-- src/breed/breed.controller.ts).
use backend.Common.{
  ℕ, suc, ◌+◌, ◌≡◌, refl, ap, sym, ◌∙◌, arith, Bool, true, false, List, [], ◌∷◌, ◌++◌, ◌==◌,
  if◌then◌else◌, tally, tally-append,
}
use mathlib.Core.Path.{subst}
use backend.Common.Counting.{tally-change_same, tally-le}
use backend.Common.Int.{ℤ, ◌==ℤ◌}
use backend.Schema.{Caller, BreedPair, BreedLevel}
use backend.Db.{State}
use backend.Env.{Env}
use backend.Breed.{CreateBreedPair, in_breeding, new_pair}
use backend.Breed.Progress.{HasBegun, fresh_level, levelled}
use backend.Breed.Start.{IsUnused, IsNewId, Others}
use backend.Sessions.{with_male}

-- A session that has started is counted by a test that does not read the level.
pub one_more :
    (w : BreedPair → Bool) (p : BreedPair) (s s' : State)
    → ((x : BreedPair) (n : ℕ) → w (record x { current_level = n }) ≡ w x)
    → w p ≡ true
    → Others p s s'
    → tally w s'.pairs.rows ≡ tally w s.pairs.rows + 1
one_more w p s s' any_level own (slots, users, gen1_buds, next, pairs) =
    let rows = s.pairs.rows ++ p ∷ [] in
    ap (λ t. tally w t.rows) pairs
    ∙ tally-change_same w (λ x. x.id == p.id) (λ x. record x { current_level = 1 }) rows
        (λ x. any_level x 1)
    ∙ tally-append w s.pairs.rows (p ∷ [])
    ∙ ap (λ b. tally w s.pairs.rows + ((if b then 1 else 0) + 0)) own

other_level : (n : ℕ) (l : BreedLevel) → l.pair_id ≡ n → (l.pair_id == suc n) ≡ false
other_level n l e = ground arith

levels_after :
    (env : Env) (n : ℕ) (s s' : State)
    → HasBegun env n 1 s s'
    → tally (λ l. l.pair_id == suc n) s.levels.rows ≡ 0
    → tally (λ l. l.pair_id == suc n) s'.levels.rows ≡ 0
levels_after env n s s' begun l =
    ap (tally (λ l. l.pair_id == suc n)) begun.4
    ∙ tally-append (λ l. l.pair_id == suc n) s.levels.rows (fresh_level env n 1 s.levels.next ∷ [])
    ∙ rw (l, other_level n (fresh_level env n 1 s.levels.next) refl) refl

other_pair : (n : ℕ) (p : BreedPair) → p.id ≡ n → (p.id == suc n) ≡ false
other_pair n p e = ground arith

pairs_after :
    (p : BreedPair) (s : State)
    → p.id ≡ s.pairs.next
    → tally (λ x. x.id == suc s.pairs.next) s.pairs.rows ≡ 0
    → tally
        (λ x. x.id == suc s.pairs.next)
        (levelled p.id 1 (record { rows = s.pairs.rows ++ p ∷ []; next = suc s.pairs.next })).rows
      ≡ 0
pairs_after p s e h =
    let w : BreedPair → Bool = λ x. x.id == suc s.pairs.next in
    tally-change_same w (λ x. x.id == p.id) (λ x. record x { current_level = 1 })
      (s.pairs.rows ++ p ∷ []) (λ x. refl)
    ∙ tally-append w s.pairs.rows (p ∷ [])
    ∙ rw (h, other_pair s.pairs.next p e) refl

-- The id after the next one is the next one after the start, and is unused still.
pub unused_after :
    (env : Env) (p : BreedPair) (s s' : State)
    → p.id ≡ s.pairs.next
    → HasBegun env s.pairs.next 1 s s'
    → s'.pairs ≡ levelled p.id 1 (record { rows = s.pairs.rows ++ p ∷ []; next = suc s.pairs.next })
    → IsUnused (suc s.pairs.next) s
    → IsNewId s'
unused_after env p s s' e begun pairs (ps, ls) =
    subst (λ n. IsUnused n s') (sym (ap (λ t. t.next) pairs))
      (
        ap (λ t. tally (λ x. x.id == suc s.pairs.next) t.rows) pairs ∙ pairs_after p s e ps,
        levels_after env s.pairs.next s s' begun ls,
      )

pub own_male : (b : ℤ) → (b ==ℤ b) ≡ true
own_male b = ground arith

pub no_male :
    (male female : ℤ) (ps : List BreedPair)
    → tally (in_breeding male female) ps ≡ 0
    → tally (with_male male) ps ≡ 0
no_male male female ps h =
    omega (arith, h, tally-le (with_male male) (in_breeding male female) ps (λ p e. ground arith))

pub own_buds :
    (env : Env) (req : Caller) (body : CreateBreedPair) (rate : ℤ) (i : ℕ)
    → in_breeding body.male_bud_id body.female_bud_id (new_pair env req body rate i) ≡ true
own_buds env req body rate i = ground arith
