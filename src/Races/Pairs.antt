-- ===== src/Races/Pairs.antt =====
-- Two requests for a session with the same buds that run at the same time (`createPair` of
-- src/breed/breed.controller.ts).
use backend.Common.{ℕ, suc, ◌+◌, ◌≡◌, ◌≤◌, sym, refl, ap, ◌∙◌, arith, true, false, ltb, ◌==◌, tally}
use backend.Common.Int.{ℤ}
use backend.Schema.{ok, Caller, Bud, BudWithId, BreedPair, BreedSlot, Error, err}
use backend.Db.{State, Exec, continue, pure, ◌>>=◌}
use backend.Db.Inversion.{bind-runs}
use backend.Env.{Env}
use backend.Utils.Buds.{DrawsBelowOne}
use backend.Breed.{CreateBreedPair, in_breeding, check_item, new_pair, place_pair, create_pair}
use mathlib.Core.Path.{subst}
use backend.Breed.Stages.{IsUser}
use backend.Breed.Checks.{BudsFit, checks, checks-runs, checks-refused, create_pair-checks}
use backend.Breed.Start.{IsUnused, IsNewId, IsFree, place_pair-runs, create_pair-runs}
use backend.Races.Started.{one_more, unused_after, own_male, own_buds, no_male}
use backend.Sessions.{IsGood, with_male}

-- The rest of `createPair` after its checks.
abbrev places : Env → Caller → CreateBreedPair → Bud × Bud → Exec BreedPair
places env req body buds = place_pair env req body buds.0 buds.1

-- Two requests one after the other.
unfoldable pub in_turn :
    Env → Caller → CreateBreedPair → CreateBreedPair → Exec (BreedPair × BreedPair)
in_turn env req body body' = do
  p ← create_pair env req body
  p' ← create_pair env req body'
  pure (p, p')

-- The same requests, with the second's checks before the first goes on.
unfoldable pub interleaved :
    Env → Caller → CreateBreedPair → CreateBreedPair → Exec (BreedPair × BreedPair)
interleaved env req body body' = do
  buds ← checks env req body
  buds' ← checks env req body'
  p ← places env req body buds
  p' ← places env req body' buds'
  pure (p, p')

-- The request on another slot.
abbrev pub on_slot : CreateBreedPair → ℕ → CreateBreedPair
on_slot body j = record body { slot_id = j }

-- In a state like this the user can begin a session with the two buds on either of two slots.
abbrev pub CanPair :
    Env
    → Caller
    → CreateBreedPair
    → ℕ
    → BudWithId
    → BudWithId
    → BreedSlot
    → BreedSlot
    → State
    → Type 0
CanPair env req body j m f x y s =
    IsUser req s
    × BudsFit env req body m f
    × ((t : State) → check_item env req body.game_item_id t ≡ (ok true, t))
    × (tally (in_breeding body.male_bud_id body.female_bud_id) s.pairs.rows ≡ 0)
    × IsFree req body.slot_id x s
    × IsFree req j y s
    × ((body.slot_id == j) ≡ false)
    × IsNewId s
    × IsUnused (suc s.pairs.next) s

counted : (n : ℕ) → n ≡ 1 → ltb 0 n ≡ true
counted n h = ground arith

two_males : (n k : ℕ) → n ≡ 0 → k ≡ n + 1 + 1 → k ≡ 2
two_males n k h e = omega arith

not_twice : (male : ℤ) (s : State) → tally (with_male male) s.pairs.rows ≡ 2 → ¬ IsGood s
not_twice male s h good = ground (arith, good.male_once male)

-- One after the other, the second request is refused.
second_refused :
    (env : Env) (req : Caller) (body : CreateBreedPair) (j : ℕ) (m f : BudWithId) (x y : BreedSlot)
    (s : State)
    → DrawsBelowOne env
    → CanPair env req body j m f x y s
    → (s' : State) × (in_turn env req body (on_slot body j) s
        ≡ (err (Error.conflict "One of the bud pairs is in breeding"), s'))
unfolding in_turn
second_refused env req body j m f x y s below
      (user, fit, item, unpaired, free, free', apart, new, new') =
    let (rate, s1, made, started, others) =
      create_pair-runs env req body m f x s below user fit (item s) unpaired free new in
    let p = new_pair env req body rate s.pairs.next in
    let w = in_breeding body.male_bud_id body.female_bud_id in
    let paired = counted (tally w s1.pairs.rows) (
      one_more w p s s1 (λ x n. refl) (own_buds env req body rate s.pairs.next) others
      ∙ ap (λ n. n + 1) unpaired) in
    let refused =
      create_pair-checks env req (on_slot body j) s1
      ∙ ap (λ r. continue r.0 (places env req (on_slot body j)) r.1)
          (checks-refused env req (on_slot body j) m f s1 fit (item s1) paired) in
    (
      s1,
      bind-runs (create_pair env req body) _ s s1 p made
          ∙ ap (λ r. continue r.0 (λ p'. pure (p, p')) r.1) refused,
    )

-- With both requests' checks first, both begin their sessions.
both_placed :
    (env : Env) (req : Caller) (body : CreateBreedPair) (j : ℕ) (m f : BudWithId) (x y : BreedSlot)
    (s : State)
    → DrawsBelowOne env
    → CanPair env req body j m f x y s
    → (both : BreedPair × BreedPair) × (s' : State) × (interleaved env req body (on_slot body j) s
        ≡ (ok both, s'))
      × (tally (with_male body.male_bud_id) s'.pairs.rows ≡ 2)
unfolding interleaved
both_placed env req body j m f x y s below
      (user, fit, item, unpaired, free, free', apart, new, new') =
    let (rate, s1, placed, started, others) =
      place_pair-runs env req body m.bud f.bud x s below user free new in
    let p = new_pair env req body rate s.pairs.next in
    let (rate', s2, placed', started', others') =
      place_pair-runs env req (on_slot body j) m.bud f.bud y s1 below
        (subst (λ us. 1 ≤ tally (λ u. u.address == req.user) us) (sym others.1) user)
        (others.0.1 req.user j apart ∙ free'.0, free'.1)
        (unused_after env p s s1 refl started.1 others.4 new') in
    let p' = new_pair env req (on_slot body j) rate' s1.pairs.next in
    let w = with_male body.male_bud_id in
    (
      (p, p'),
      s2,
      bind-runs (checks env req body) _ s s (m.bud, f.bud)
            (checks-runs env req body m f s fit (item s) unpaired)
          ∙ bind-runs (checks env req (on_slot body j)) _ s s (m.bud, f.bud)
              (checks-runs env req (on_slot body j) m f s fit (item s) unpaired)
          ∙ bind-runs (place_pair env req body m.bud f.bud) _ s s1 p placed
          ∙ bind-runs (place_pair env req (on_slot body j) m.bud f.bud) _ s1 s2 p' placed',
      two_males (tally w s.pairs.rows) (tally w s2.pairs.rows)
          (no_male body.male_bud_id body.female_bud_id s.pairs.rows unpaired)
          (one_more w p' s1 s2 (λ x n. refl) (own_male body.male_bud_id) others'
            ∙ ap (λ n. n + 1) (one_more w p s s1 (λ x n. refl) (own_male body.male_bud_id) others)),
    )

-- Two requests of a caller who has a user's row for sessions with the same two buds on two of
-- the caller's free slots, where each could begin by itself: one after the other, the second is
-- refused with a conflict; with both requests' checks before either goes on, both begin their
-- sessions, so that the male bud is in two running sessions, which breaks the invariant of
-- sessions and slots.
pub create_pair-raced :
    (env : Env) (req : Caller) (body : CreateBreedPair) (j : ℕ) (m f : BudWithId) (x y : BreedSlot)
    (s : State)
    → DrawsBelowOne env
    → CanPair env req body j m f x y s
    → ((s' : State) × (in_turn env req body (on_slot body j) s
          ≡ (err (Error.conflict "One of the bud pairs is in breeding"), s')))
      × ((both : BreedPair × BreedPair) × (s' : State) × (interleaved env req body
              (on_slot body j)
              s
            ≡ (ok both, s'))
          × (tally (with_male body.male_bud_id) s'.pairs.rows ≡ 2)
          × ¬ IsGood s')
create_pair-raced env req body j m f x y s below can =
    let (both, s', done, twice) = both_placed env req body j m f x y s below can in
    (
      second_refused env req body j m f x y s below can,
      (both, s', done, twice, not_twice body.male_bud_id s' twice),
    )
