-- ===== src/Breed/Creation.antt =====
-- What has been checked where `createPair` of src/breed/breed.controller.ts makes a session.
use backend.Common.{
  ℕ, ◌≡◌, ◌∙◌, ap, sym, Bool, true, false, arith, Option, none, some, List, [], ◌∷◌, map, ltb,
  tally, first, ◌==◌, if◌then◌else◌,
}
use mathlib.Core.Path.{subst}
use backend.Common.Int.{ℤ}
use backend.Schema.{Error, Address, Caller, BreedPair, BreedSlot, Bud, BudWithId, ok, err}
use backend.Db.{
  create_pair_row, create, pair_table, State, ◌>>=◌, ◌>>◌, throw_if, pure, update, slot_table,
}
use backend.Db.Inversion.{bind-ok, refuse-ok, pure-ok, keep-ok}
use backend.Env.{Env, addresses}
use backend.Bud.Pairs.{verify_bud_pairs-ok}
use backend.Bud.{
  verify_bud_pairs, all_revealed, check_bud_pair_genders, id_and_gender, get_metadatas,
}
use backend.Land.{is_open_slot, find_open_breed_slot_by_id}
use backend.Breed.Service.{
  in_breeding, find_pair_in_breeding, check_game_item_balance, get_start_success_rate,
  start_breed_level,
}
use backend.Breed.Controller.{
  CreateBreedPair, other_key, require_slot, upgraded_slot, two_buds, check_item, new_pair, occupy,
  place_pair, create_pair,
}

made_row :
    (f : ℕ → BreedPair) (s t : State) (p : BreedPair)
    → create_pair_row f s ≡ (ok p, t)
    → p ≡ f s.pairs.next
made_row f s t p h = made (tally (λ u. u.address == (f s.pairs.next).user_address) s.users == 0) h
  where
    made :
        (b : Bool)
        → (if b then (err Error.prisma, s) else create pair_table f s) ≡ (ok p, t)
        → p ≡ f s.pairs.next
    made true h = cc
    made false h = (pure-ok (f s.pairs.next) p _ t h).0

occupy-ok :
    (env : Env) (req : Caller) (body : CreateBreedPair) (rate : ℤ) (s s' : State) (p : BreedPair)
    → occupy env req body rate s ≡ (ok p, s')
    → p ≡ new_pair env req body rate s.pairs.next
unfolding occupy
occupy-ok env req body rate s s' p h =
    let (q, t, made, h') = bind-ok (create_pair_row (new_pair env req body rate)) _ s s' p h in
    keep-ok (update slot_table body.slot_id (λ x. record x { is_used = true })) q p t s' h'
    ∙ made_row (new_pair env req body rate) s t q made

two_buds-state :
    (found : List BudWithId) (s t : State) (b : Bud × Bud) → two_buds found s ≡ (ok b, t) → t ≡ s
two_buds-state [] s t b h = ground arith
two_buds-state (x ∷ []) s t b h = ground arith
two_buds-state (x ∷ y ∷ rest) s t b h = (pure-ok _ b s t h).1

check_item-state :
    (env : Env) (req : Caller) (o : Option ℕ) (s t : State) (b : Bool)
    → check_item env req o s ≡ (ok b, t)
    → t ≡ s
unfolding check_game_item_balance
check_item-state env req none s t b h = (pure-ok _ b s t h).1
check_item-state env req (some i) s t b h = ground arith

-- The slot that a session may take: the caller's, open and unused, by its id.
abbrev pub FreeSlot : Caller → ℕ → State → Type 0
FreeSlot req slot_id s =
    (x : BreedSlot) × (first (is_open_slot req.user slot_id) s.slots.rows ≡ some x)

require_slot-ok :
    (req : Caller) (o : Option BreedSlot) (s t : State) (x : BreedSlot)
    → require_slot req o s ≡ (ok x, t)
    → o ≡ some x
require_slot-ok req none s t x h = ground arith
require_slot-ok req (some y) s t x h =
    let (key, h') = refuse-ok (other_key y req.game_key_id) _ (pure y) s (x, t) h in
    ap some (sym (pure-ok y x s t h').0)

place_pair-ok :
    (env : Env) (req : Caller) (body : CreateBreedPair) (male female : Bud) (s s' : State)
    (p : BreedPair)
    → place_pair env req body male female s ≡ (ok p, s')
    → FreeSlot req body.slot_id s × ((rate : ℤ) × (i : ℕ) × (p ≡ new_pair env req body rate i))
unfolding place_pair find_open_breed_slot_by_id
place_pair-ok env req body male female s s' p h =
    let found = first (is_open_slot req.user body.slot_id) s.slots.rows in
    let (slot, t1, e1, h1) = bind-ok (require_slot req found) _ s s' p h in
    let (slot', t2, e2, h2) = bind-ok (upgraded_slot body slot) _ t1 s' p h1 in
    let (rate, t3, e3, h3) =
      bind-ok
        (get_start_success_rate env body.male_bud_id body.female_bud_id body.game_item_id slot') _
        t2 s' p h2 in
    let (pair, t4, e4, h4) = bind-ok (occupy env req body rate) _ t3 s' p h3 in
    let same = keep-ok (start_breed_level env pair male female) pair p t4 s' h4 in
    (
      (slot, require_slot-ok req found s t1 slot e1),
      (rate, _, same ∙ occupy-ok env req body rate t3 t4 pair e4),
    )

-- What is known of a session from the test of the buds' sessions on.
abbrev Placed : Env → Caller → CreateBreedPair → BreedPair → State → Type 0
Placed env req body p s =
    (tally (in_breeding body.male_bud_id body.female_bud_id) s.pairs.rows ≡ 0)
    × FreeSlot req body.slot_id s
    × ((rate : ℤ) × (i : ℕ) × (p ≡ new_pair env req body rate i))

none_running : (n : ℕ) → ltb 0 n ≡ false → n ≡ 0
none_running n h = ground arith

unpaired-Placed :
    (env : Env) (req : Caller) (body : CreateBreedPair) (buds : Bud × Bud) (s s' : State)
    (p : BreedPair)
    → (find_pair_in_breeding body.male_bud_id body.female_bud_id >>= λ n.
          throw_if (ltb 0 n) (Error.conflict "One of the bud pairs is in breeding")
          >> place_pair env req body buds.0 buds.1)
        s
      ≡ (ok p, s')
    → Placed env req body p s
unfolding find_pair_in_breeding
unpaired-Placed env req body buds s s' p h =
    let n = tally (in_breeding body.male_bud_id body.female_bud_id) s.pairs.rows in
    let (none_found, h') =
      refuse-ok (ltb 0 n) (Error.conflict "One of the bud pairs is in breeding")
        (place_pair env req body buds.0 buds.1) s (p, s') h in
    let (free, made) = place_pair-ok env req body buds.0 buds.1 s s' p h' in
    (none_running n none_found, free, made)

-- A session is made only where the caller owns both buds, the metadata found is of revealed buds
-- with the genders of their roles, neither bud is in its role in a running session, and the slot
-- is the caller's, open and unused; the answer is the session asked for, running, at the level
-- 0.
pub create_pair-ok :
    (env : Env) (req : Caller) (body : CreateBreedPair) (s s' : State) (p : BreedPair)
    → create_pair env req body s ≡ (ok p, s')
    → (rest : List Address) × (env.owners_of
          (addresses env.network).bud
          (body.male_bud_id ∷ body.female_bud_id ∷ [])
        ≡ some (req.user ∷ req.user ∷ rest))
      × (all_revealed (get_metadatas env (body.male_bud_id ∷ body.female_bud_id ∷ [])) ≡ true)
      × (check_bud_pair_genders
            (map id_and_gender (get_metadatas env (body.male_bud_id ∷ body.female_bud_id ∷ [])))
            body.male_bud_id
            body.female_bud_id
          ≡ true)
      × (tally (in_breeding body.male_bud_id body.female_bud_id) s.pairs.rows ≡ 0)
      × FreeSlot req body.slot_id s
      × ((rate : ℤ) × (i : ℕ) × (p ≡ new_pair env req body rate i))
unfolding create_pair
create_pair-ok env req body s s' p h =
    let male = body.male_bud_id in
    let female = body.female_bud_id in
    let (found, t1, e1, h1) = bind-ok (verify_bud_pairs env req.user male female true) _ s s' p h in
    let (low, high, (rest, owned), same, revealed, fit, eq1) =
      verify_bud_pairs-ok env req.user male female s t1 found e1 in
    let (buds, t2, e2, h2) = bind-ok (two_buds found) _ t1 s' p h1 in
    let (c, t3, e3, h3) = bind-ok (check_item env req body.game_item_id) _ t2 s' p h2 in
    let unchanged =
      check_item-state env req body.game_item_id t2 t3 c e3
      ∙ two_buds-state found t1 t2 buds e2
      ∙ eq1 in
    let (free, slot, made) =
      subst (Placed env req body p) unchanged (unpaired-Placed env req body buds t3 s' p h3) in
    (
      rest,
      owned,
      subst (λ found. all_revealed found ≡ true) same revealed,
      subst (λ found. check_bud_pair_genders (map id_and_gender found) male female ≡ true) same fit,
      free,
      slot,
      made,
    )
