-- ===== src/Sessions/Invalidations.antt =====
-- Invalidating pairs and slots keeps the invariant.
use backend.Common.{
  ℕ, ◌≤◌, ◌≡◌, refl, Bool, true, ◌&&◌, ◌||◌, List, [], ◌∷◌, inl, inr, arith, ◌==◌, Option, none,
  some, if◌then◌else◌, tally, change, Bool-cases, not, keep, includes, length,
}
use backend.Common.Int.{ℤ, ◌==ℤ◌}
use backend.Common.Counting.{tally-le, tally-keep, tally-change_clear}
use backend.Schema.{Address, Caller, Error, BreedPair, BreedSlot, failed, is_paired}
use backend.Db.{State, Rows, pure, ◌>>=◌, ◌>>◌, pair_table, find_many}
use backend.Db.Triple.{Frame, frame_rules}
use backend.Env.{Env}
use backend.Bud.{require_owner, is_gen0_bud_owner, is_game_key_owner}
use backend.Admin.{
  invalidate_breeding, invalidate_slots, InvalidateSlots, check_key_owner, delete_slots, slot_ids,
}
use backend.Breed.{in_breeding, fail_pairs, ids_of, slots_of, invalidate_pair}
use backend.Sessions.Good.{Good, IsGood, on_slot, is_row, is_used_row}
use backend.Sessions.Changes.{Good-slot, Good-end, Good-free}
use backend.Sessions.Rules.{Keeps, Keeps-bind, Keeps-Frame, keeps_rules}
use backend.Sessions.Frames.{verify_bud_pairs-Frame, find_many-Frame}

-- Each counted pair of a list is among the list's ids.
tally-ids :
    (c : BreedPair → Bool) (ids : List ℕ) (qs : List BreedPair)
    → ((j : ℕ) → includes j (ids_of qs) ≡ true → includes j ids ≡ true)
    → tally c qs ≤ tally (λ x. c x && includes x.id ids) qs
tally-ids c ids [] h = omega arith
tally-ids c ids (q ∷ qs) h = ground (arith, tally-ids c ids qs (λ j e. h j (ground arith)), h q.id)

-- A slot of the list has a pair of the list.
slots-tally :
    (i : ℕ) (qs : List BreedPair)
    → includes i (slots_of qs) ≡ true
    → 1 ≤ tally (λ x. x.slot_id == i) qs
slots-tally i [] h = cc
slots-tally i (q ∷ qs) h = ground (arith, slots-tally i qs)

module _ (w : BreedPair → Bool)
    (runs : (x : BreedPair) → w x ≡ true → is_paired x.status ≡ true) where
  abbrev to_failed : BreedPair → BreedPair
  to_failed p = record p { status = failed }

  fail_left :
      {ps : List BreedPair} {t : Rows BreedSlot} (i : ℕ)
      → Good ps t
      → includes i (slots_of (keep w ps)) ≡ true
      → tally (on_slot i) (change (λ p. includes p.id (ids_of (keep w ps))) to_failed ps) ≡ 0
  fail_left {ps} {t} i g h =
      let ids = ids_of (keep w ps) in
      omega (
        arith,
        slots-tally i (keep w ps) h,
        tally-ids (λ x. x.slot_id == i) ids (keep w ps) (λ j e. e),
        tally-keep (λ x. x.slot_id == i && includes x.id ids) w ps,
        tally-le (λ x. x.slot_id == i && includes x.id ids && w x)
            (λ x. on_slot i x && includes x.id ids) ps (λ x e. ground (arith, runs x)),
        tally-change_clear (on_slot i) (λ x. on_slot i x && includes x.id ids)
            (λ x. includes x.id ids) to_failed ps (λ x. refl) (λ x e. ground arith)
            (λ x e. ground arith),
        g.occupied i,
        g.one_row i,
        tally-le (is_used_row i) (is_row i) t.rows (λ x e. ground arith),
      )

  fail_pairs-Outcome : (s : State) → IsGood s → IsGood (fail_pairs (keep w s.pairs.rows) s).1
  unfolding fail_pairs
  fail_pairs-Outcome s g =
      Good-free
        (Good-end g (λ p. includes p.id (ids_of (keep w s.pairs.rows))) to_failed (λ x. refl))
        (λ i. includes i (slots_of (keep w s.pairs.rows))) λ i h. fail_left i g h

  fail_found : Keeps (
      find_many pair_table w >>= λ pairs.
      if length pairs == 0 then pure none else (fail_pairs pairs >> pure (some (length pairs))))
  unfolding fail_pairs
  fail_found = record {
    ensures = record {
      at = λ s g. elim (Bool-cases (length (keep w s.pairs.rows) == 0)) [
        | inl empty ↦ rw empty g
        | inr more ↦ rw more (fail_pairs-Outcome s g)
      ];
    };
  }

pub invalidate_pair-Keeps :
    (env : Env) (req : Caller) (male female : ℤ) → Keeps (invalidate_pair env req male female)
unfolding invalidate_pair
invalidate_pair-Keeps env req male female =
    Keeps-bind _ _ (Keeps-Frame _ (verify_bud_pairs-Frame env req.user male female true)) λ _.
      fail_found (λ p. not (p.user_address == req.user) && in_breeding male female p)
        (λ p e. ground arith)

require_owner-Frame :
    (a : Address) (e e' : Error) (o : Option (List Address)) → Frame (require_owner a e e' o)
unfolding require_owner
require_owner-Frame a e e' none = search frame_rules
require_owner-Frame a e e' (some os) = search frame_rules

pub is_gen0_bud_owner-Frame : (env : Env) (b : ℤ) (a : Address) → Frame (is_gen0_bud_owner env b a)
unfolding is_gen0_bud_owner
is_gen0_bud_owner-Frame env b a = require_owner-Frame a _ _ _

is_game_key_owner-Frame : (env : Env) (k : ℕ) (a : Address) → Frame (is_game_key_owner env k a)
unfolding is_game_key_owner
is_game_key_owner-Frame env k a = require_owner-Frame a _ _ _

pub invalidate_breeding-Keeps :
    (env : Env) (prev_owner owner : Address) (b : ℤ)
    → Keeps (invalidate_breeding env prev_owner owner b)
unfolding invalidate_breeding
invalidate_breeding-Keeps env prev_owner owner b =
    Keeps-bind _ _ (Keeps-Frame _ (is_gen0_bud_owner-Frame env b owner)) λ _.
      fail_found
        (λ p.
          p.user_address == prev_owner
          && is_paired p.status
          && (p.female_bud_id ==ℤ b || p.male_bud_id ==ℤ b))
        (λ p e. ground arith)

delete_slots-Keeps : (env : Env) (xs : List BreedSlot) → Keeps (delete_slots env xs)
unfolding delete_slots
delete_slots-Keeps env xs = record {
  ensures = record {
    at = λ s g.
        Good-end
          (Good-slot g (λ x. includes x.id (slot_ids xs))
            (λ x. record x { deleted_at = some env.now }) (λ x. refl) (λ x. refl))
          (λ p. includes p.slot_id (slot_ids xs)) (λ p. record p { status = failed }) (λ p. refl);
  };
}

pub check_key_owner-Frame : (env : Env) (body : InvalidateSlots) → Frame (check_key_owner env body)
unfolding check_key_owner
check_key_owner-Frame env body = search (frame_rules, is_game_key_owner-Frame)

pub invalidate_slots-Keeps :
    (env : Env) (body : InvalidateSlots) → Keeps (invalidate_slots env body)
unfolding invalidate_slots
invalidate_slots-Keeps env body =
    search (keeps_rules, check_key_owner-Frame, delete_slots-Keeps, find_many-Frame) depth 12
