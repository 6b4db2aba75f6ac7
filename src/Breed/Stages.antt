-- ===== src/Breed/Stages.antt =====
-- The stages of `createPair` of src/breed/breed.controller.ts from the slot on, where they go
-- through.
use backend.Common.{
  ℕ, suc, ◌≤◌, ◌≡◌, refl, ap, ◌∙◌, arith, true, false, not, ◌&&◌, Option, some, List, [], ◌∷◌, ◌++◌,
  ◌==◌, if◌then◌else◌, tally, first, change, first_passes, Bool-cases, inl, inr,
}
use backend.Common.Counting.{first-tally, counted_row, first-change_apart, tally-change_same}
use backend.Common.Int.{ℤ}
use backend.Schema.{
  ok, Address, Caller, BreedPair, BreedSlot, is_item, is_indoor, superweed_serum, weed_dr_pass,
  farmer_pass, indoor,
}
use backend.Db.{Rows, State, pure, update, slot_table}
use backend.Db.Inversion.{bind-runs}
use backend.Env.{Env}
use backend.Utils.{random_number}
use backend.Land.{is_open_slot}
use backend.Breed.Service.{base_rate, get_start_success_rate}
use backend.Breed.Controller.{CreateBreedPair, upgraded_slot, new_pair, occupy}

-- The slot's row that a request for a session has found open is the one that its id finds.
pub slot_by_id :
    (user : Address) (slot_id : ℕ) (xs : List BreedSlot) (x : BreedSlot)
    → first (is_open_slot user slot_id) xs ≡ some x
    → 1 ≤ tally (λ y. y.id == slot_id) xs
slot_by_id user slot_id xs x e =
    first-tally (is_open_slot user slot_id) (λ y. y.id == slot_id) xs x e
      (ground (arith, first_passes (is_open_slot user slot_id) xs x e))

pub open_id :
    (user : Address) (slot_id : ℕ) (xs : List BreedSlot) (x : BreedSlot)
    → first (is_open_slot user slot_id) xs ≡ some x
    → x.id ≡ slot_id
open_id user slot_id xs x e = ground (arith, first_passes (is_open_slot user slot_id) xs x e)

-- Another slot that is open is left alone.
abbrev pub OthersOpen : ℕ → Rows BreedSlot → Rows BreedSlot → Type 0
OthersOpen slot_id t t' =
    (a : Address) (i : ℕ)
    → (slot_id == i) ≡ false
    → first (is_open_slot a i) t'.rows ≡ first (is_open_slot a i) t.rows

-- What becomes of the slots.
abbrev pub SlotsAfter : ℕ → Rows BreedSlot → Rows BreedSlot → Type 0
SlotsAfter slot_id t t' = (1 ≤ tally (λ y. y.id == slot_id) t'.rows) × OthersOpen slot_id t t'

elsewhere :
    (a : Address) (i j : ℕ) (x : BreedSlot)
    → (x.id == i) ≡ true
    → (i == j) ≡ false
    → is_open_slot a j x ≡ false
elsewhere a i j x e apart = ground arith

-- One row of the slots is changed, and keeps its id.
pub slot_changed :
    (i : ℕ) (f : BreedSlot → BreedSlot) (t : Rows BreedSlot)
    → ((x : BreedSlot) → (f x).id ≡ x.id)
    → 1 ≤ tally (λ y. y.id == i) t.rows
    → SlotsAfter i t (record t { rows = change (λ y. y.id == i) f t.rows })
slot_changed i f t keeps h = (
  rw
      (tally-change_same (λ y. y.id == i) (λ y. y.id == i) f t.rows
        (λ x. ap (λ n. n == i) (keeps x)))
      h,
  λ a j apart.
      first-change_apart (λ y. y.id == i) (is_open_slot a j) f t.rows
        (λ x e. (
          elsewhere a i j x e apart,
          elsewhere a i j (f x) (ap (λ n. n == i) (keeps x) ∙ e) apart,
        )),
)

pub SlotsAfter-then :
    (i : ℕ) (t t1 t2 : Rows BreedSlot) → SlotsAfter i t t1 → SlotsAfter i t1 t2 → SlotsAfter i t t2
SlotsAfter-then i t t1 t2 (r1, o1) (r2, o2) = (r2, λ a j apart. o2 a j apart ∙ o1 a j apart)

-- A change of a row that is there.
pub update_slot-runs :
    (i : ℕ) (f : BreedSlot → BreedSlot) (s : State)
    → 1 ≤ tally (λ y. y.id == i) s.slots.rows
    → (x : BreedSlot) × (update slot_table i f s ≡ (
      ok x,
      record s { slots = record s.slots { rows = change (λ y. y.id == i) f s.slots.rows } },
    ))
update_slot-runs i f s h =
    let (x, e) = counted_row (λ y. y.id == i) s.slots.rows h in (f x, rw e refl)

abbrev to_indoor : BreedSlot → BreedSlot
to_indoor y = record y { type = indoor }

pub upgraded_slot-runs :
    (body : CreateBreedPair) (x : BreedSlot) (s : State)
    → x.id ≡ body.slot_id
    → 1 ≤ tally (λ y. y.id == body.slot_id) s.slots.rows
    → (x' : BreedSlot) × (t : Rows BreedSlot) × (upgraded_slot body x s
        ≡ (ok x', record s { slots = t }))
      × SlotsAfter body.slot_id s.slots t
upgraded_slot-runs body x s e h =
    elim (Bool-cases
      (body.upgrade_slot && is_item body.game_item_id farmer_pass && not (is_indoor x.type))) [
        | inl t ↦
            let (y, done) = update_slot-runs body.slot_id to_indoor s h in
            (
              y,
              _,
              ap (λ b. (if b then update slot_table x.id to_indoor else pure x) s) t
                  ∙ ap (λ i. update slot_table i to_indoor s) e
                  ∙ done,
              slot_changed body.slot_id to_indoor s.slots (λ _. refl) h,
            )
        | inr t ↦ (
          x,
          s.slots,
          ap (λ b. (if b then update slot_table x.id to_indoor else pure x) s) t,
          (h, λ _ _ _. refl),
        )
      ]

random_number-runs :
    (env : Env) (max min : ℕ) (s : State)
    → (n : ℕ) × (random_number env max min s ≡ (ok n, record s { drawn = suc s.drawn }))
unfolding random_number
random_number-runs env max min s = (_, refl)

base_rate-runs :
    (env : Env) (item : Option ℕ) (s : State)
    → (rate : ℤ) × (d : ℕ) × (base_rate env item s ≡ (ok rate, record s { drawn = d }))
unfolding base_rate
base_rate-runs env item s = elim (Bool-cases (is_item item superweed_serum)) [
  | inl t ↦ rw t (_, _, refl)
  | inr t ↦ elim (Bool-cases (is_item item weed_dr_pass)) [
    | inl u ↦ rw t rw u (_, _, refl)
    | inr u ↦ rw t rw u (_, s.drawn, refl)
  ]
]

pub get_start_success_rate-runs :
    (env : Env) (male female : ℤ) (item : Option ℕ) (x : BreedSlot) (s : State)
    → (rate : ℤ) × (d : ℕ) × (get_start_success_rate env male female item x s
        ≡ (ok rate, record s { drawn = d }))
unfolding get_start_success_rate
get_start_success_rate-runs env male female item x s =
    let (base, d, e) = base_rate-runs env item s in
    (_, d, bind-runs (base_rate env item) _ s (record s { drawn = d }) base e)

-- The caller has a row, to which a session's foreign key refers.
abbrev pub IsUser : Caller → State → Type 0
IsUser req s = 1 ≤ tally (λ u. u.address == req.user) s.users

counted_some : (n : ℕ) → 1 ≤ n → (n == 0) ≡ false
counted_some n h = ground arith

-- The tables with a new session on its slot.
abbrev pub occupied : BreedPair → State → State
occupied p s = record s {
  pairs = record { rows = s.pairs.rows ++ p ∷ []; next = suc s.pairs.next };
  slots = record s.slots {
    rows = change (λ y. y.id == p.slot_id) (λ y. record y { is_used = true }) s.slots.rows;
  };
}

pub occupy-runs :
    (env : Env) (req : Caller) (body : CreateBreedPair) (rate : ℤ) (s : State)
    → IsUser req s
    → 1 ≤ tally (λ y. y.id == body.slot_id) s.slots.rows
    → occupy env req body rate s ≡ (
      ok (new_pair env req body rate s.pairs.next),
      occupied (new_pair env req body rate s.pairs.next) s,
    )
unfolding occupy
occupy-runs env req body rate s user h =
    let (x, e) = counted_row (λ y. y.id == body.slot_id) s.slots.rows h in
    rw (counted_some (tally (λ u. u.address == req.user) s.users) user) rw e refl
