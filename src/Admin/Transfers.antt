-- ===== src/Admin/Transfers.antt =====
-- What the transfer of a game key does to slots and sessions
-- (`invalidSlotsForGameKey` of src/admin/admin.controller.ts).
use mathlib.Core.Path.{subst}
use backend.Common.{
  ℕ, ◌≡◌, refl, sym, ap, Bool, true, false, not, ◌&&◌, ◌||◌, arith, Option, none, some, List, [],
  ◌∷◌, tally, change, keep, length, includes, is_some, ◌==◌, if◌then◌else◌,
}
use backend.Schema.{Error, Address, BreedPair, BreedSlot, is_paired, is_completed, ok}
use backend.Db.{State, Exec, pure, ◌>>◌}
use backend.Db.Inversion.{bind-ok, pure-ok}
use backend.Env.{Env, addresses}
use backend.Land.{has}
use backend.Bud.{require_owner, is_game_key_owner}
use backend.Admin.Controller.{
  InvalidateSlots, slot_ids, delete_slots, check_key_owner, invalidate_slots,
}

module _ {R : Type 0} where
  -- A change of all that passes a test, after which the test fails, leaves nothing that passes.
  tally_gone :
      (a w : R → Bool) (f : R → R) (rs : List R)
      → ((x : R) → a (f x) ≡ false)
      → ((x : R) → a x ≡ true → w x ≡ true)
      → tally a (change w f rs) ≡ 0
  tally_gone a w f [] gone within = refl
  tally_gone a w f (x ∷ rs) gone within =
      ground (arith, tally_gone a w f rs gone within, gone x, within x)

-- A session on one of the slots that is running or completed.
abbrev pub stands : List ℕ → BreedPair → Bool
stands ids p = includes p.slot_id ids && (is_paired p.status || is_completed p.status)

-- One of the slots, not deleted.
abbrev pub in_use : List ℕ → BreedSlot → Bool
in_use ids x = includes x.id ids && not (is_some x.deleted_at)

-- The slots of a game key's previous owner.
abbrev pub key_slots : InvalidateSlots → State → List ℕ
key_slots body s = slot_ids (
    keep (λ x. x.user_address == body.prev_owner && has x.game_key_id body.game_key_id)
      s.slots.rows)

first_of_two : (a b : Bool) → (a && b) ≡ true → a ≡ true
first_of_two true b h = refl
first_of_two false b h = ground arith

none_of : (a : Bool) → (a && false) ≡ false
none_of true = refl
none_of false = refl

-- None of the slots is in use, and no session on them stands.
abbrev pub Deleted : List ℕ → State → Type 0
Deleted ids s = (tally (in_use ids) s.slots.rows ≡ 0) × (tally (stands ids) s.pairs.rows ≡ 0)

delete_slots-Deleted :
    (env : Env) (slots : List BreedSlot) (s : State)
    → Deleted (slot_ids slots) (delete_slots env slots s).1
unfolding delete_slots
delete_slots-Deleted env slots s = (
  tally_gone (in_use (slot_ids slots)) (λ x. includes x.id (slot_ids slots)) _ s.slots.rows
      (λ x. none_of (includes x.id (slot_ids slots))) (λ x h. first_of_two _ _ h),
  tally_gone (stands (slot_ids slots)) (λ p. includes p.slot_id (slot_ids slots)) _ s.pairs.rows
      (λ p. none_of (includes p.slot_id (slot_ids slots))) (λ p h. first_of_two _ _ h),
)

skipped :
    (b : Bool) (k : Exec (Option ℕ)) (s s' : State) (n : ℕ)
    → (if b then pure none else k) s ≡ (ok (some n), s')
    → k s ≡ (ok (some n), s')
skipped true k s s' n h = ground arith
skipped false k s s' n h = h

require_owner-state :
    (a : Address) (e e' : Error) (o : Option (List Address)) (s t : State) (b : Bool)
    → require_owner a e e' o s ≡ (ok b, t)
    → t ≡ s
unfolding require_owner
require_owner-state a e e' none s t b h = ground arith
require_owner-state a e e' (some owners) s t b h = ground arith

checked-state :
    (test : Bool) (m : Exec Bool) (s t : State) (b : Bool)
    → ((b : Bool) → m s ≡ (ok b, t) → t ≡ s)
    → (if test then pure true else m) s ≡ (ok b, t)
    → t ≡ s
checked-state true m s t b k h = (pure-ok true b s t h).1
checked-state false m s t b k h = k b h

check_key_owner-state :
    (env : Env) (body : InvalidateSlots) (s t : State) (b : Bool)
    → check_key_owner env body s ≡ (ok b, t)
    → t ≡ s
unfolding check_key_owner is_game_key_owner
check_key_owner-state env body s t b h =
    checked-state (elim body.option [ none ↦ false | some o ↦ o == 201 ])
      (is_game_key_owner env body.game_key_id body.owner) s t b
      (λ b. require_owner-state body.owner _ _ _ s t b) h

-- Where the invalidation of a game key's slots answers with a number, every slot that the
-- previous owner had for the key is deleted after it, and no session on one of them is running
-- or completed any more.
pub invalidate_slots-Deleted :
    (env : Env) (body : InvalidateSlots) (s s' : State) (n : ℕ)
    → invalidate_slots env body s ≡ (ok (some n), s')
    → Deleted (key_slots body s) s'
unfolding invalidate_slots
invalidate_slots-Deleted env body s s' n h =
    let staking = (addresses env.network).staking in
    let h1 = skipped (body.prev_owner == staking) _ s s' n h in
    let h2 = skipped (body.owner == staking) _ s s' n h1 in
    let (b, t, e, h3) = bind-ok (check_key_owner env body) _ s s' (some n) h2 in
    let slots =
      keep (λ x. x.user_address == body.prev_owner && has x.game_key_id body.game_key_id)
        t.slots.rows in
    let h4 =
      skipped (length slots == 0) (delete_slots env slots >> pure (some (length slots))) t s' n
        h3 in
    let (u, t2, e2, h5) =
      bind-ok (delete_slots env slots) (λ u. pure (some (length slots))) t s' (some n) h4 in
    let same = (pure-ok (some (length slots)) (some n) t2 s' h5).1 in
    let deleted =
      subst (Deleted (slot_ids slots)) (ap (λ r. r.1) e2) (delete_slots-Deleted env slots t) in
    subst (λ x. Deleted (key_slots body x) s') (check_key_owner-state env body s t b e)
      (subst (Deleted (slot_ids slots)) (sym same) deleted)
