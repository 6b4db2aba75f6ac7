-- ===== src/Sessions/Births.antt =====
-- What `createPair` of src/breed/breed.controller.ts does to the sessions.
use backend.Common.{ℕ, ◌≡◌, refl, true, List, Option, none, some, ap}
use backend.Common.Int.{ℤ}
use backend.Schema.{Caller, Bud, BreedPair, BreedSlot, is_paired, paired}
use backend.Db.{◌>>=◌, ◌>>◌, update, slot_table, pure}
use backend.Db.Triple.{Ensures, Ensures-bind, Frame-pure, Frame-throw_if, Frame-raise}
use backend.Env.{Env}
use backend.Land.{find_open_breed_slot_by_id}
use backend.Breed.{
  CreateBreedPair, new_pair, occupy, place_pair, create_pair, upgraded_slot, require_slot,
  start_breed_level,
}
use backend.Sessions.Frames.{
  verify_bud_pairs-Frame, get_start_success_rate-Frame, find_pair_in_breeding-Frame,
}
use backend.Sessions.Begins.{two_buds-Frame, check_item-Frame}
use backend.Sessions.Still.{Still, Still-Frame, Still-if, slot_update-Still}
use backend.Sessions.Lasting.{
  given, stronger, Of, Since, Now, RunsAt, Ensures-Still, Lasts, Lasts-Still, Lasts-Frame,
  Lasts-bind, pair_create,
}
use backend.Sessions.Endings.{start_breed_level-Since}

find_slot-Still : (user i : ℕ) → Still (find_open_breed_slot_by_id user i)
unfolding find_open_breed_slot_by_id
find_slot-Still user i = record { pairs = λ s. refl }

require_slot-Lasts : (req : Caller) (o : Option BreedSlot) → Lasts (require_slot req o)
require_slot-Lasts req none = Lasts-Frame _ (Frame-raise _)
require_slot-Lasts req (some x) =
    Lasts-bind _ _ (Lasts-Frame _ (Frame-throw_if _ _)) λ _. Lasts-Frame _ (Frame-pure x)

upgraded_slot-Still : (body : CreateBreedPair) (x : BreedSlot) → Still (upgraded_slot body x)
upgraded_slot-Still body x =
    Still-if _ _ _ (slot_update-Still x.id _) (Still-Frame _ (Frame-pure x))

module _ (body : CreateBreedPair) (env : Env) (req : Caller) where
  occupy-Since :
      (t0 : List BreedPair) (rate : ℤ)
      → Ensures
          (Of (Since t0))
          (Of (Since t0))
          (occupy env req body rate)
          (λ p. Of (Now t0 (RunsAt t0 0 p)))
  unfolding occupy
  occupy-Since t0 rate =
      Ensures-bind _ (λ p. Of (Now t0 (RunsAt t0 0 p))) _ _
        (pair_create t0 (new_pair env req body rate) (λ i. refl) (λ i. refl) (λ i. refl))
        λ p.
          Ensures-bind _ (λ q. Of (Now t0 (RunsAt t0 0 q)))
            (update slot_table body.slot_id λ x. record x { is_used = true }) (λ _. pure p)
            (Ensures-Still t0 (RunsAt t0 0 p) _
              (slot_update-Still body.slot_id (λ x. record x { is_used = true })))
            λ _. record { at = λ s c. c }

  begun-Since :
      (t0 : List BreedPair) (rate : ℤ) (male female : Bud)
      → Ensures
          (Of (Since t0))
          (Of (Since t0))
          (do pair ← occupy env req body rate; start_breed_level env pair male female; pure pair)
          (λ _. Of (Since t0))
  begun-Since t0 rate male female = Ensures-bind _ _ _ _ (occupy-Since t0 rate) λ p.
      given (p.status ≡ paired) _ (λ s c. c.1.1)
        λ h.
          Ensures-bind _ _ _ _
            (stronger _ (λ s c. (c.0, c.1.0))
              (start_breed_level-Since t0 env p male female (ap is_paired h)))
            λ _. (Lasts-Frame _ (Frame-pure p)).since t0

  place_pair-Lasts : (male female : Bud) → Lasts (place_pair env req body male female)
  unfolding place_pair
  place_pair-Lasts male female =
      Lasts-bind _ _ (Lasts-Still _ (find_slot-Still req.user body.slot_id)) λ found.
        Lasts-bind _ _ (require_slot-Lasts req found) λ slot.
          Lasts-bind _ _ (Lasts-Still _ (upgraded_slot-Still body slot)) λ slot'.
            Lasts-bind _ _
              (Lasts-Frame _ (
                get_start_success_rate-Frame env body.male_bud_id body.female_bud_id
                  body.game_item_id slot'))
              λ rate. record { since = λ t0. begun-Since t0 rate male female }

  pub create_pair-Lasts : Lasts (create_pair env req body)
  unfolding create_pair
  create_pair-Lasts =
      Lasts-bind _ _
        (Lasts-Frame _
          (verify_bud_pairs-Frame env req.user body.male_bud_id body.female_bud_id true))
        λ ms. Lasts-bind _ _ (Lasts-Frame _ (two_buds-Frame body env req ms)) λ buds.
          Lasts-bind _ _ (Lasts-Frame _ (check_item-Frame body env req body.game_item_id)) λ _.
            Lasts-bind _ _
              (Lasts-Frame _ (find_pair_in_breeding-Frame body.male_bud_id body.female_bud_id))
              λ n.
                Lasts-bind _ _ (Lasts-Frame _ (Frame-throw_if _ _))
                  λ _. place_pair-Lasts buds.0 buds.1
