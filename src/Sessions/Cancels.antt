-- ===== src/Sessions/Cancels.antt =====
-- What a cancelled session leaves (`cancelBreeding` of src/breed/breed.controller.ts).
use backend.Common.{
  ℕ, ◌+◌, ◌≤◌, ◌≡◌, refl, ap, Bool, true, false, ◌&&◌, List, [], ◌∷◌, arith, some, inl, inr, tally,
  change, first, Option-cases, first_passes,
}
use backend.Common.Counting.{first-tally, tally-first, tally-change_clear}
use backend.Common.Int.{ℤ}
use backend.Schema.{ok, Caller, BreedPair, BreedSlot, canceled}
use backend.Db.{State}
use backend.Breed.{own_paired, find_own_pair, cancel_breeding, in_breeding, find_pair_in_breeding}
use backend.Sessions.Good.{IsGood, on_slot, with_male, with_female, is_row, is_used_row}
use backend.Sessions.Rules.{is_pair, running_pair, running_slot, slot_left}
use backend.Sessions.Ends.{own_found}

-- A test that passed on one running session at most passes on none once that one has ended.
cleared :
    (w : BreedPair → Bool) (f : BreedPair → BreedPair) (req : Caller) (pair_id : ℕ)
    (ps : List BreedPair) (p : BreedPair)
    → first (own_paired req.user pair_id) ps ≡ some p
    → tally w ps ≤ 1
    → (w p && is_pair p.id p) ≡ true
    → ((x : BreedPair) → w (f x) ≡ false)
    → tally w (change (is_pair p.id) f ps) ≡ 0
cleared w f req pair_id ps p e once h ends = omega (
  arith,
  once,
  first-tally (own_paired req.user pair_id) (λ x. w x && is_pair p.id x) ps p e h,
  tally-change_clear w (λ x. w x && is_pair p.id x) (is_pair p.id) f ps ends
      (λ x k. ground (arith, k)) (λ x k. ground (arith, k)),
)

tally-in_breeding :
    (male female : ℤ) (ps : List BreedPair)
    → tally (in_breeding male female) ps ≤ tally (with_male male) ps + tally (with_female female) ps
tally-in_breeding male female [] = omega arith
tally-in_breeding male female (p ∷ ps) = ground (arith, tally-in_breeding male female ps)

unused_after :
    (i : ℕ) (rows : List BreedSlot)
    → tally (is_used_row i) (change (is_row i) (λ x. record x { is_used = false }) rows) ≡ 0
unused_after i [] = refl
unused_after i (x ∷ rows) = ground (arith, unused_after i rows)

-- The session's slot is unused and has no session, and its buds are in no session.
abbrev pub IsFreed : BreedPair → State → Type 0
IsFreed p s =
    (tally (on_slot p.slot_id) s.pairs.rows ≡ 0)
    × (tally (is_used_row p.slot_id) s.slots.rows ≡ 0)
    × (find_pair_in_breeding p.male_bud_id p.female_bud_id s ≡ (ok 0, s))

found : {R : Type 0} (w : R → Bool) (rs : List R) → 1 ≤ tally w rs → (r : R) × (first w rs ≡ some r)
found w rs h = elim (Option-cases (first w rs)) [
  | inl missing ↦ elim (tally-first w rs h missing) [ ]
  | inr (r, e) ↦ (r, e)
]

passes_running :
    (req : Caller) (pair_id : ℕ) (p : BreedPair) (ps : List BreedPair)
    → first (own_paired req.user pair_id) ps ≡ some p
    → ((with_male p.male_bud_id p && is_pair p.id p) ≡ true)
      × ((with_female p.female_bud_id p && is_pair p.id p) ≡ true)
passes_running req pair_id p ps e =
    let h = first_passes (own_paired req.user pair_id) ps p e in
    (ground (arith, h), ground (arith, h))

no_session : (m f n : ℕ) → n ≤ m + f → m ≡ 0 → f ≡ 0 → n ≡ 0
no_session m f n h hm hf = omega (arith, h, hm, hf)

-- In a state with the invariant, the owner of a running session can cancel it; then its slot is
-- unused and has no session, and neither of its buds is in its role in a running session.
pub cancel_breeding-frees :
    (req : Caller) (pair_id : ℕ) (p : BreedPair) (s : State)
    → IsGood s
    → first (own_paired req.user pair_id) s.pairs.rows ≡ some p
    → (s' : State) × (cancel_breeding req pair_id s ≡ (ok tt, s')) × IsFreed p s'
unfolding cancel_breeding find_own_pair find_pair_in_breeding
cancel_breeding-frees req pair_id p s g e =
    let ps = s.pairs.rows in
    let r = (own_found req pair_id ps p e).2 in
    let cancel = λ (x : BreedPair). record x { status = canceled } in
    let free = λ (x : BreedSlot). record x { is_used = false } in
    let t = record s {
      pairs = record s.pairs { rows = change (is_pair p.id) cancel ps };
      slots = record s.slots { rows = change (is_row p.slot_id) free s.slots.rows };
    } in
    let (male, female) = passes_running req pair_id p ps e in
    let (p', pe) = found (is_pair p.id) ps (running_pair g p r) in
    let (x, xe) = found (is_row p.slot_id) s.slots.rows (running_slot g p r) in
    (
      t,
      rw e rw pe rw xe refl,
      (
        slot_left g p r cancel (λ x. refl),
        unused_after p.slot_id s.slots.rows,
        ap (λ n. (ok n, t))
            (no_session _ _ _ (tally-in_breeding p.male_bud_id p.female_bud_id t.pairs.rows)
              (cleared (with_male p.male_bud_id) cancel req pair_id ps p e
                (g.male_once p.male_bud_id) male (λ x. refl))
              (cleared (with_female p.female_bud_id) cancel req pair_id ps p e
                (g.female_once p.female_bud_id) female (λ x. refl))),
      ),
    )
