-- ===== src/Sessions/Others.antt =====
-- What the requests that are about no session of the caller do to the sessions: the invalidations of
-- src/breed/breed.controller.ts and src/admin/admin.controller.ts, the slots of
-- src/land/land.controller.ts and the login of src/user/user.controller.ts.
use backend.Common.{
  ℕ, refl, Bool, true, false, List, ◌==◌, ◌&&◌, not, Option, none, some, if◌then◌else◌, length, ltb,
  includes,
}
use backend.Common.Int.{ℤ}
use backend.Schema.{Error, Address, Caller, BreedPair, BreedSlot}
use backend.Db.{Exec, pure, ◌>>◌, pair_table, slot_table, update_many}
use backend.Db.Triple.{Frame-pure, Frame-raise, Frame-throw_if, Frame-bind}
use backend.Env.{Env}
use backend.Land.{
  open_found, open_slot, convert_found, convert_indoor, create_free_land_slots,
  create_new_land_slots, slots_data, new_slot, purchase_land, is_free_land, is_land, is_own_slot,
}
use backend.Admin.{invalidate_breeding, invalidate_slots, InvalidateSlots, delete_slots, slot_ids}
use backend.Auth.{LoginBody, or_throw, let_in, log_in_as, login}
use backend.Breed.{in_breeding, fail_pairs, ids_of, slots_of, invalidate_pair}
use backend.Sessions.Frames.{
  verify_bud_pairs-Frame, find_many-Frame, find_first-Frame, count-Frame, find_user-Frame,
  consume_breeding_point-Frame,
}
use backend.Sessions.Invalidations.{check_key_owner-Frame, is_gen0_bud_owner-Frame}
use backend.Sessions.Lands.{points_of-Frame}
use backend.Sessions.Logins.{staked-Frame, is_valid_message-Frame, upsert_user-Frame}
use backend.Sessions.Still.{
  Still, Still-Frame, Still-if, Still-bind, slot_update-Still, slots_created-Still,
}
use backend.Sessions.Lasting.{
  Lasts, Lasts-Still, Lasts-Frame, Lasts-bind, Lasts-if, pairs_fail, lasting_rules,
}

slots_freed-Still :
    (w : BreedSlot → Bool) (f : BreedSlot → BreedSlot) → Still (update_many slot_table w f)
slots_freed-Still w f = record { pairs = λ s. refl }

fail_pairs-Lasts : (ps : List BreedPair) → Lasts (fail_pairs ps)
unfolding fail_pairs
fail_pairs-Lasts ps =
    Lasts-bind _ _ (record { since = λ t0. pairs_fail t0 (λ p. includes p.id (ids_of ps)) })
      λ _.
        Lasts-Still _
          (slots_freed-Still (λ x. includes x.id (slots_of ps)) (λ x. record x { is_used = false }))

found_fail-Lasts :
    (ps : List BreedPair)
    → Lasts (if length ps == 0 then pure none else (fail_pairs ps >> pure (some (length ps))))
found_fail-Lasts ps =
    Lasts-if (length ps == 0) _ _ (Lasts-Frame _ (Frame-pure none))
      (Lasts-bind _ _ (fail_pairs-Lasts ps) λ _. Lasts-Frame _ (Frame-pure _))

pub invalidate_pair-Lasts :
    (env : Env) (req : Caller) (male female : ℤ) → Lasts (invalidate_pair env req male female)
unfolding invalidate_pair
invalidate_pair-Lasts env req male female =
    Lasts-bind _ _ (Lasts-Frame _ (verify_bud_pairs-Frame env req.user male female true)) λ _.
      Lasts-bind _ _
        (Lasts-Frame _ (
          find_many-Frame pair_table
            (λ p. not (p.user_address == req.user) && in_breeding male female p)))
        λ ps. found_fail-Lasts ps

pub invalidate_breeding-Lasts :
    (env : Env) (prev_owner owner : Address) (b : ℤ)
    → Lasts (invalidate_breeding env prev_owner owner b)
unfolding invalidate_breeding
invalidate_breeding-Lasts env prev_owner owner b =
    Lasts-bind _ _ (Lasts-Frame _ (is_gen0_bud_owner-Frame env b owner))
      λ _. Lasts-bind _ _ (Lasts-Frame _ (find_many-Frame pair_table _)) λ ps. found_fail-Lasts ps

delete_slots-Lasts : (env : Env) (xs : List BreedSlot) → Lasts (delete_slots env xs)
unfolding delete_slots
delete_slots-Lasts env xs =
    Lasts-bind _ _
      (Lasts-Still _ (
        slots_freed-Still (λ x. includes x.id (slot_ids xs))
          (λ x. record x { deleted_at = some env.now })))
      λ _. record { since = λ t0. pairs_fail t0 (λ p. includes p.slot_id (slot_ids xs)) }

pub invalidate_slots-Lasts :
    (env : Env) (body : InvalidateSlots) → Lasts (invalidate_slots env body)
unfolding invalidate_slots
invalidate_slots-Lasts env body =
    search (lasting_rules, check_key_owner-Frame, delete_slots-Lasts, find_many-Frame) depth 12

open_found-Lasts :
    (env : Env) (req : Caller) (i : ℕ) (o : Option BreedSlot) → Lasts (open_found env req i o)
unfolding open_found
open_found-Lasts env req i none = Lasts-Frame _ (Frame-raise _)
open_found-Lasts env req i (some x) = Lasts-bind _ _ (Lasts-Frame _ (Frame-throw_if _ _)) λ _.
    Lasts-bind _ _ (Lasts-Frame _ (consume_breeding_point-Frame req.user _))
      λ _. Lasts-Still _ (slot_update-Still i _)

pub open_slot-Lasts : (env : Env) (req : Caller) (i : ℕ) → Lasts (open_slot env req i)
unfolding open_slot
open_slot-Lasts env req i =
    Lasts-bind _ _ (Lasts-Frame _ (find_first-Frame slot_table (is_own_slot req.user i)))
      λ o. open_found-Lasts env req i o

convert_found-Lasts :
    (env : Env) (req : Caller) (i : ℕ) (o : Option BreedSlot) → Lasts (convert_found env req i o)
unfolding convert_found
convert_found-Lasts env req i none = Lasts-Frame _ (Frame-raise _)
convert_found-Lasts env req i (some x) = Lasts-bind _ _ (Lasts-Frame _ (Frame-throw_if _ _)) λ _.
    Lasts-bind _ _ (Lasts-Frame _ (consume_breeding_point-Frame req.user _))
      λ _. Lasts-Still _ (slot_update-Still i _)

pub convert_indoor-Lasts : (env : Env) (req : Caller) (i : ℕ) → Lasts (convert_indoor env req i)
unfolding convert_indoor
convert_indoor-Lasts env req i =
    Lasts-bind _ _ (Lasts-Frame _ (find_first-Frame slot_table (is_own_slot req.user i)))
      λ o. convert_found-Lasts env req i o

free_slots-Still : (user : Address) (k : ℕ) → Still (create_free_land_slots user k)
unfolding create_free_land_slots
free_slots-Still user k =
    Still-bind _ _ (Still-Frame _ (count-Frame slot_table (is_free_land user k))) λ n.
      Still-if (ltb 0 n) _ _ (Still-Frame _ (Frame-pure tt))
        (slots_created-Still (slots_data 5 (new_slot user (some k) none) true))

new_slots-Still : (user : Address) (k : ℕ) → Still (create_new_land_slots user k)
unfolding create_new_land_slots
new_slots-Still user k =
    Still-bind _ _ (Still-Frame _ (count-Frame slot_table (is_land user k))) λ n.
      Still-if (ltb 0 n) _ _ (Still-Frame _ (Frame-pure tt))
        (slots_created-Still (slots_data 5 (new_slot user none (some k)) true))

pub purchase_land-Lasts : (env : Env) (req : Caller) → Lasts (purchase_land env req)
unfolding purchase_land
purchase_land-Lasts env req =
    Lasts-bind _ _ (Lasts-Frame _ (consume_breeding_point-Frame req.user _)) λ _.
      Lasts-bind _ _ (Lasts-Still _ (new_slots-Still req.user env.now)) λ _.
        Lasts-bind _ _ (Lasts-Frame _ (find_many-Frame slot_table (is_land req.user env.now))) λ xs.
          Lasts-bind _ _ (Lasts-Frame _ (find_user-Frame req.user))
            λ o. Lasts-Frame _ (points_of-Frame xs o)

or_throw-Still : {A : Type 0} (m : Exec A) (e : Error) → Still m → Still (or_throw m e)
or_throw-Still m e h = record { pairs = λ s. h.pairs s }

let_in-Still : (env : Env) (body : LoginBody) → Still (let_in env body)
unfolding let_in
let_in-Still env body =
    Still-bind _ _ (or_throw-Still _ _ (free_slots-Still body.address body.game_key_id))
      λ _. Still-Frame _ (Frame-bind _ _ (upsert_user-Frame _ _ _) λ u. Frame-pure _)

log_in_as-Still : (env : Env) (body : LoginBody) (o : Option Address) → Still (log_in_as env body o)
unfolding log_in_as
log_in_as-Still env body none = Still-Frame _ (Frame-raise _)
log_in_as-Still env body (some derived) =
    Still-if (env.lower_case derived == env.lower_case body.address) _ _ (let_in-Still env body)
      (Still-Frame _ (Frame-raise _))

pub login-Lasts : (env : Env) (body : LoginBody) → Lasts (login env body)
unfolding login
login-Lasts env body =
    search (lasting_rules, Lasts-Still, is_valid_message-Frame, staked-Frame, log_in_as-Still) depth
      20
