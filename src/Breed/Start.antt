-- ===== src/Breed/Start.antt =====
-- A request for a session that goes through: `createPair` of src/breed/breed.controller.ts.
use backend.Common.{
  ℕ, suc, ◌≤◌, ◌≡◌, refl, ap, sym, ◌∙◌, arith, true, false, some, [], ◌∷◌, ◌++◌, ltb, ◌==◌, eq→==,
  tally, first, change,
}
use mathlib.Core.Path.{subst}
use backend.Common.Counting.{none_found, counted_row, tally-le, first-append_new, first-change}
use backend.Common.Int.{ℤ}
use backend.Schema.{ok, Caller, Bud, BudWithId, BreedPair, BreedSlot}
use backend.Db.{Rows, State}
use backend.Db.Inversion.{bind-runs}
use backend.Env.{Env}
use backend.Utils.Buds.{DrawsBelowOne}
use backend.Land.{is_open_slot, find_open_breed_slot_by_id}
use backend.Breed.Service.{in_breeding, is_level, get_start_success_rate, start_breed_level}
use backend.Breed.Controller.{
  CreateBreedPair, other_key, require_slot, upgraded_slot, new_pair, occupy, place_pair, check_item,
  create_pair,
}
use backend.Breed.Checks.{BudsFit, checks, checks-runs, create_pair-checks}
use backend.Breed.Progress.{HasBegun, levelled, start_breed_level-runs}
use backend.Breed.Stages.{
  SlotsAfter, slot_by_id, open_id, SlotsAfter-then, slot_changed, upgraded_slot-runs,
  get_start_success_rate-runs, occupied, occupy-runs, IsUser,
}

-- No session has the id, and no level is of a session with it.
abbrev pub IsUnused : ℕ → State → Type 0
IsUnused i s =
    (tally (λ p. p.id == i) s.pairs.rows ≡ 0) × (tally (λ l. l.pair_id == i) s.levels.rows ≡ 0)

-- The next session's id is unused.
abbrev pub IsNewId : State → Type 0
IsNewId s = IsUnused s.pairs.next s

-- A session with no levels has no row of one.
pub no_level :
    (i n : ℕ) (s : State)
    → tally (λ l. l.pair_id == i) s.levels.rows ≡ 0
    → ltb 0 (tally (is_level i n) s.levels.rows) ≡ false
no_level i n s h =
    ground
      (arith, h, tally-le (is_level i n) (λ l. l.pair_id == i) s.levels.rows (λ l e. ground arith))

-- The slot is open for the caller, and no other game key's.
abbrev pub IsFree : Caller → ℕ → BreedSlot → State → Type 0
IsFree req slot_id x s =
    (first (is_open_slot req.user slot_id) s.slots.rows ≡ some x)
    × (other_key x req.game_key_id ≡ false)

-- The slot is used.
abbrev pub IsTaken : ℕ → State → Type 0
IsTaken slot_id s =
    (x : BreedSlot) × (first (λ y. y.id == slot_id) s.slots.rows ≡ some x) × (x.is_used ≡ true)

-- The session is there, at its first level, with that level's row and buds, on its slot.
abbrev pub HasStarted : Env → BreedPair → State → State → Type 0
HasStarted env p s s' =
    (first (λ x. x.id == p.id) s'.pairs.rows ≡ some (record p { current_level = 1 }))
    × HasBegun env p.id 1 s s'
    × IsTaken p.slot_id s'

-- What else holds of the tables after the start.
abbrev pub Others : BreedPair → State → State → Type 0
Others p s s' =
    SlotsAfter p.slot_id s.slots s'.slots
    × (s'.users ≡ s.users)
    × (s'.gen1_buds ≡ s.gen1_buds)
    × (s'.levels.next ≡ suc s.levels.next)
    × (s'.pairs
        ≡ levelled p.id 1 (record { rows = s.pairs.rows ++ p ∷ []; next = suc s.pairs.next }))

abbrev set_used : BreedSlot → BreedSlot
set_used y = record y { is_used = true }

abbrev IsTakenIn : ℕ → Rows BreedSlot → Type 0
IsTakenIn i t = (x : BreedSlot) × (first (λ y. y.id == i) t.rows ≡ some x) × (x.is_used ≡ true)

taken_after :
    (i : ℕ) (t : Rows BreedSlot)
    → 1 ≤ tally (λ y. y.id == i) t.rows
    → IsTakenIn i (record t { rows = change (λ y. y.id == i) set_used t.rows })
taken_after i t h =
    let (x, e) = counted_row (λ y. y.id == i) t.rows h in
    (_, first-change (λ y. y.id == i) set_used t.rows x (λ _. refl) e, refl)

require_slot-runs :
    (req : Caller) (x : BreedSlot) (s : State)
    → other_key x req.game_key_id ≡ false
    → require_slot req (some x) s ≡ (ok x, s)
require_slot-runs req x s k = rw k refl

pub place_pair-runs :
    (env : Env) (req : Caller) (body : CreateBreedPair) (male female : Bud) (x : BreedSlot)
    (s : State)
    → DrawsBelowOne env
    → IsUser req s
    → IsFree req body.slot_id x s
    → IsNewId s
    → (rate : ℤ) × (s' : State) × (place_pair env req body male female s
        ≡ (ok (new_pair env req body rate s.pairs.next), s'))
      × HasStarted env (new_pair env req body rate s.pairs.next) s s'
      × Others (new_pair env req body rate s.pairs.next) s s'
unfolding place_pair find_open_breed_slot_by_id
place_pair-runs env req body male female x s below user (free, key) (new, none_yet) =
    let there = slot_by_id req.user body.slot_id s.slots.rows x free in
    let (x', t, upgrade, after) =
      upgraded_slot-runs body x s (open_id req.user body.slot_id s.slots.rows x free) there in
    let s1 = record s { slots = t } in
    let (rate, d, rated) =
      get_start_success_rate-runs env body.male_bud_id body.female_bud_id body.game_item_id x' s1 in
    let s2 = record s1 { drawn = d } in
    let p = new_pair env req body rate s.pairs.next in
    let s3 = occupied p s2 in
    let (s4, start, row, begun, users, slots, pairs, gen1_buds, next) =
      start_breed_level-runs env p male female s3 below (omega arith)
        (first-append_new (λ y. y.id == s.pairs.next) s.pairs.rows p
          (none_found (λ y. y.id == s.pairs.next) s.pairs.rows new)
          (eq→== s.pairs.next s.pairs.next refl))
        (no_level s.pairs.next 1 s none_yet) in
    (
      rate,
      s4,
      bind-runs (require_slot req (first (is_open_slot req.user body.slot_id) s.slots.rows)) _ s s x
            (ap (λ o. require_slot req o s) free ∙ require_slot-runs req x s key)
          ∙ bind-runs (upgraded_slot body x) _ s s1 x' upgrade
          ∙ bind-runs
              (get_start_success_rate env body.male_bud_id body.female_bud_id body.game_item_id x')
              _ s1 s2 rate rated
          ∙ bind-runs (occupy env req body rate) _ s2 s3 p
              (occupy-runs env req body rate s2 user after.0)
          ∙ bind-runs (start_breed_level env p male female) _ s3 s4 _ start,
      (row, begun, subst (IsTakenIn body.slot_id) (sym slots) (taken_after body.slot_id t after.0)),
      (
        subst (SlotsAfter body.slot_id s.slots) (sym slots) (
            SlotsAfter-then body.slot_id s.slots t s3.slots after
              (slot_changed body.slot_id set_used t (λ _. refl) after.0)),
        users,
        gen1_buds,
        next,
        pairs,
      ),
    )

pub create_pair-runs :
    (env : Env) (req : Caller) (body : CreateBreedPair) (m f : BudWithId) (x : BreedSlot)
    (s : State)
    → DrawsBelowOne env
    → IsUser req s
    → BudsFit env req body m f
    → check_item env req body.game_item_id s ≡ (ok true, s)
    → tally (in_breeding body.male_bud_id body.female_bud_id) s.pairs.rows ≡ 0
    → IsFree req body.slot_id x s
    → IsNewId s
    → (rate : ℤ) × (s' : State) × (create_pair env req body s
        ≡ (ok (new_pair env req body rate s.pairs.next), s'))
      × HasStarted env (new_pair env req body rate s.pairs.next) s s'
      × Others (new_pair env req body rate s.pairs.next) s s'
create_pair-runs env req body m f x s below user fit item unpaired free new =
    let (rate, s', placed, started, others) =
      place_pair-runs env req body m.bud f.bud x s below user free new in
    (
      rate,
      s',
      create_pair-checks env req body s
          ∙ bind-runs (checks env req body) _ s s (m.bud, f.bud)
              (checks-runs env req body m f s fit item unpaired)
          ∙ placed,
      started,
      others,
    )

-- With draws of random numbers below one, a caller who has a user's row, two buds that are the
-- caller's, revealed and of the genders of their roles, no running session with either in its
-- role, a game item check that passes, a slot that is the caller's, open, unused and no other
-- game key's, and a next id that is unused: the request for a session succeeds; the session is
-- in its row at the level 1, that level's row has begun with two male and two female buds, and
-- the slot is used.
pub create_pair-starts :
    (env : Env) (req : Caller) (body : CreateBreedPair) (m f : BudWithId) (x : BreedSlot)
    (s : State)
    → DrawsBelowOne env
    → IsUser req s
    → BudsFit env req body m f
    → check_item env req body.game_item_id s ≡ (ok true, s)
    → tally (in_breeding body.male_bud_id body.female_bud_id) s.pairs.rows ≡ 0
    → IsFree req body.slot_id x s
    → IsNewId s
    → (rate : ℤ) × (s' : State) × (create_pair env req body s
        ≡ (ok (new_pair env req body rate s.pairs.next), s'))
      × HasStarted env (new_pair env req body rate s.pairs.next) s s'
create_pair-starts env req body m f x s below user fit item unpaired free new =
    let (rate, s', made, started, others) =
      create_pair-runs env req body m f x s below user fit item unpaired free new in
    (rate, s', made, started)
