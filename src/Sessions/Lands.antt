-- ===== src/Sessions/Lands.antt =====
-- Opening, converting and buying slots keeps the invariant.
use backend.Common.{ℕ, ◌≡◌, refl, true, List, arith, Option, none, some, ltb}
use backend.Schema.{Address, Caller, User, BreedSlot, indoor}
use backend.Db.{slot_table, update, create_many}
use backend.Db.Triple.{Frame, Frame-pure, Frame-throw_if, Frame-raise, frame_rules}
use backend.Env.{Env}
use backend.Land.{
  open_found, open_slot, convert_found, convert_indoor, create_free_land_slots,
  create_new_land_slots, slots_data, new_slot, points_of, purchase_land, is_free_land, is_land,
  is_own_slot,
}
use backend.Sessions.Good.{Good, is_row}
use backend.Sessions.Changes.{Good-slot, Good-rows, Named}
use backend.Sessions.Rules.{Keeps, Keeps-bind, Keeps-Frame, Keeps-if, Ensures-slot_any}
use backend.Sessions.Frames.{
  find_many-Frame, find_first-Frame, count-Frame, find_user-Frame, consume_breeding_point-Frame,
}

slot_update-Keeps :
    (i : ℕ) (f : BreedSlot → BreedSlot)
    → ((x : BreedSlot) → (f x).id ≡ x.id)
    → ((x : BreedSlot) → (f x).is_used ≡ x.is_used)
    → Keeps (update slot_table i f)
slot_update-Keeps i f hi hu = record {
  ensures = Ensures-slot_any Good i f (λ ps t g. Good-slot g (is_row i) f hi hu);
}

open_found-Keeps :
    (env : Env) (req : Caller) (i : ℕ) (o : Option BreedSlot) → Keeps (open_found env req i o)
unfolding open_found
open_found-Keeps env req i none = Keeps-Frame _ (Frame-raise _)
open_found-Keeps env req i (some x) = Keeps-bind _ _ (Keeps-Frame _ (Frame-throw_if _ _)) λ _.
    Keeps-bind _ _ (Keeps-Frame _ (consume_breeding_point-Frame req.user _))
      λ _. slot_update-Keeps i (λ y. record y { is_open = true }) (λ y. refl) (λ y. refl)

pub open_slot-Keeps : (env : Env) (req : Caller) (i : ℕ) → Keeps (open_slot env req i)
unfolding open_slot
open_slot-Keeps env req i =
    Keeps-bind _ _ (Keeps-Frame _ (find_first-Frame slot_table (is_own_slot req.user i)))
      λ o. open_found-Keeps env req i o

convert_found-Keeps :
    (env : Env) (req : Caller) (i : ℕ) (o : Option BreedSlot) → Keeps (convert_found env req i o)
unfolding convert_found
convert_found-Keeps env req i none = Keeps-Frame _ (Frame-raise _)
convert_found-Keeps env req i (some x) = Keeps-bind _ _ (Keeps-Frame _ (Frame-throw_if _ _)) λ _.
    Keeps-bind _ _ (Keeps-Frame _ (consume_breeding_point-Frame req.user _))
      λ _. slot_update-Keeps i (λ y. record y { type = indoor }) (λ y. refl) (λ y. refl)

pub convert_indoor-Keeps : (env : Env) (req : Caller) (i : ℕ) → Keeps (convert_indoor env req i)
unfolding convert_indoor
convert_indoor-Keeps env req i =
    Keeps-bind _ _ (Keeps-Frame _ (find_first-Frame slot_table (is_own_slot req.user i)))
      λ o. convert_found-Keeps env req i o

slots-Keeps : (fs : List (ℕ → BreedSlot)) → Named fs → Keeps (create_many slot_table fs)
slots-Keeps fs h = record { ensures = record { at = λ s g. Good-rows fs g h } }

pub create_free_land_slots-Keeps : (user : Address) (k : ℕ) → Keeps (create_free_land_slots user k)
unfolding create_free_land_slots
create_free_land_slots-Keeps user k =
    Keeps-bind _ _ (Keeps-Frame _ (count-Frame slot_table (is_free_land user k))) λ n.
      Keeps-if (ltb 0 n) _ _ (Keeps-Frame _ (Frame-pure tt))
        (slots-Keeps (slots_data 5 (new_slot user (some k) none) true) (ground arith))

create_new_land_slots-Keeps : (user : Address) (k : ℕ) → Keeps (create_new_land_slots user k)
unfolding create_new_land_slots
create_new_land_slots-Keeps user k =
    Keeps-bind _ _ (Keeps-Frame _ (count-Frame slot_table (is_land user k))) λ n.
      Keeps-if (ltb 0 n) _ _ (Keeps-Frame _ (Frame-pure tt))
        (slots-Keeps (slots_data 5 (new_slot user none (some k)) true) (ground arith))

pub points_of-Frame : (xs : List BreedSlot) (o : Option User) → Frame (points_of xs o)
unfolding points_of
points_of-Frame xs none = search frame_rules
points_of-Frame xs (some u) = search frame_rules

pub purchase_land-Keeps : (env : Env) (req : Caller) → Keeps (purchase_land env req)
unfolding purchase_land
purchase_land-Keeps env req =
    Keeps-bind _ _ (Keeps-Frame _ (consume_breeding_point-Frame req.user _)) λ _.
      Keeps-bind _ _ (create_new_land_slots-Keeps req.user env.now) λ _.
        Keeps-bind _ _ (Keeps-Frame _ (find_many-Frame slot_table (is_land req.user env.now))) λ xs.
          Keeps-bind _ _ (Keeps-Frame _ (find_user-Frame req.user))
            λ o. Keeps-Frame _ (points_of-Frame xs o)
