-- ===== src/Land/Charges.antt =====
-- What the owner of a slot pays for it: `openSlot` and `convertIndoor` of
-- src/land/land.controller.ts.
use mathlib.Core.Path.{subst}
use backend.Common.{ℕ, ◌≡◌, refl, sym, ap, ◌∙◌, true, false, arith, Option, none, some, first, ◌==◌}
use backend.Common.Int.{pos, ◌≤ℤ◌, ◌-ℤ◌}
use backend.Schema.{Address, Caller, User, BreedSlot, ok, indoor, is_indoor}
use backend.Db.{State, ◌>>◌, slot_table, update, updated}
use backend.Db.Inversion.{bind-ok, refuse-ok, pure-ok}
use backend.Env.{Env, config}
use backend.User.{consume_breeding_point}
use backend.User.Points.{user_at, Consumed, consume_breeding_point-Consumed}
use backend.Land.Controller.{is_own_slot, open_found, open_slot, convert_found, convert_indoor}

-- The user had the points before, and has exactly as many less after.
abbrev pub Charged : Address → ℕ → State → State → Type 0
Charged a amount s s' =
    (v : User) × (user_at a s ≡ some v)
    × (pos amount ≤ℤ v.breeding_point)
    × (user_at a s' ≡ some (record v { breeding_point = v.breeding_point -ℤ pos amount }))

updated-ok :
    (i : ℕ) (f : BreedSlot → BreedSlot) (o : Option BreedSlot) (t s' : State) (x : BreedSlot)
    → updated slot_table i f o t ≡ (ok x, s')
    → (r : BreedSlot) × (x ≡ f r) × (s'.users ≡ t.users)
updated-ok i f none t s' x h = ground arith
updated-ok i f (some r) t s' x h = (r, (pure-ok (f r) x _ s' h).0, sym (ap (λ p. p.1.users) h))

charge-ok :
    (a : Address) (amount i : ℕ) (f : BreedSlot → BreedSlot) (s s' : State) (x : BreedSlot)
    → (consume_breeding_point a amount >> update slot_table i f) s ≡ (ok x, s')
    → Charged a amount s s' × ((r : BreedSlot) × (x ≡ f r))
charge-ok a amount i f s s' x h =
    let (u, t, e, h1) =
      bind-ok (consume_breeding_point a amount) (λ u. update slot_table i f) s s' x h in
    let (v, had, enough, less, left, after) =
      subst (Consumed a amount s) e (consume_breeding_point-Consumed a amount s) in
    let (r, changed, users) = updated-ok i f (first (λ y. y.id == i) t.slots.rows) t s' x h1 in
    (
      (v, had, enough, ap (λ us. first (λ u. u.address == a) us) users ∙ after ∙ ap some less),
      (r, changed),
    )

opened :
    (env : Env) (req : Caller) (slot_id : ℕ) (o : Option BreedSlot) (s s' : State) (x : BreedSlot)
    → open_found env req slot_id o s ≡ (ok x, s')
    → (slot : BreedSlot) × (o ≡ some slot)
      × (slot.is_open ≡ false)
      × Charged req.user 42 s s'
      × (x.is_open ≡ true)
unfolding open_found config
opened env req slot_id none s s' x h = ground arith
opened env req slot_id (some slot) s s' x h =
    let (closed, h1) = refuse-ok slot.is_open _ _ s (x, s') h in
    let (charged, (r, changed)) =
      charge-ok req.user 42 slot_id (λ y. record y { is_open = true }) s s' x h1 in
    (slot, refl, closed, charged, ap (λ y. y.is_open) changed)

converted :
    (env : Env) (req : Caller) (slot_id : ℕ) (o : Option BreedSlot) (s s' : State) (x : BreedSlot)
    → convert_found env req slot_id o s ≡ (ok x, s')
    → (slot : BreedSlot) × (o ≡ some slot)
      × (is_indoor slot.type ≡ false)
      × Charged req.user 69 s s'
      × (is_indoor x.type ≡ true)
unfolding convert_found config
converted env req slot_id none s s' x h = ground arith
converted env req slot_id (some slot) s s' x h =
    let (outside, h1) = refuse-ok (is_indoor slot.type) _ _ s (x, s') h in
    let (charged, (r, changed)) =
      charge-ok req.user 69 slot_id (λ y. record y { type = indoor }) s s' x h1 in
    (slot, refl, outside, charged, ap (λ y. is_indoor y.type) changed)

-- A slot is opened only where it is the caller's, not deleted and closed, and the caller has 42
-- points, which are taken; the answer is an open slot.
pub open_slot-ok :
    (env : Env) (req : Caller) (slot_id : ℕ) (s s' : State) (x : BreedSlot)
    → open_slot env req slot_id s ≡ (ok x, s')
    → (slot : BreedSlot) × (first (is_own_slot req.user slot_id) s.slots.rows ≡ some slot)
      × (slot.is_open ≡ false)
      × Charged req.user 42 s s'
      × (x.is_open ≡ true)
unfolding open_slot
open_slot-ok env req slot_id s s' x h =
    opened env req slot_id (first (is_own_slot req.user slot_id) s.slots.rows) s s' x h

-- A slot is converted only where it is the caller's, not deleted and not indoor, and the caller
-- has 69 points, which are taken; the answer is an indoor slot.
pub convert_indoor-ok :
    (env : Env) (req : Caller) (slot_id : ℕ) (s s' : State) (x : BreedSlot)
    → convert_indoor env req slot_id s ≡ (ok x, s')
    → (slot : BreedSlot) × (first (is_own_slot req.user slot_id) s.slots.rows ≡ some slot)
      × (is_indoor slot.type ≡ false)
      × Charged req.user 69 s s'
      × (is_indoor x.type ≡ true)
unfolding convert_indoor
convert_indoor-ok env req slot_id s s' x h =
    converted env req slot_id (first (is_own_slot req.user slot_id) s.slots.rows) s s' x h
