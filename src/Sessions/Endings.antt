-- ===== src/Sessions/Endings.antt =====
-- What the four requests on one session do to the sessions: `createPair`, `levelBreedingUp`,
-- `cancelBreeding` and `finalizeBreeding` of src/breed/breed.controller.ts.
use backend.Common.{
  ℕ, ◌+◌, ◌≤◌, ◌≡◌, refl, sym, true, false, List, arith, Option, none, some, if◌then◌else◌, is_some,
  ltb, ◌==◌, ◌&&◌, not,
}
use mathlib.Core.Path.{subst}
use backend.Schema.{Caller, Bud, BreedPair, BreedSlot, is_paired, completed, canceled, failed}
use backend.Db.{pure, slot_table, find_any, update}
use backend.Db.Triple.{Ensures, Ensures-bind, Frame-pure, Frame-throw_if}
use backend.Env.{Env, config}
use backend.Bud.{issue_gen1_bud_mint}
use backend.Breed.{
  cancel_breeding, settle, reward, open_found_slot, finalize_pair, finalize_breeding,
  start_breed_level, level_up_pair, level_breeding_up,
}
use backend.Sessions.Frames.{
  evaluate_breed_level-Frame, finalize_rate-Frame, issue_gen1_bud_mint-Frame,
  create_level_buds-Frame, verify_game_item_possession-Frame, verify_bud_pairs-Frame,
  consume_breeding_point-Frame,
}
use backend.Sessions.Moves.{Moves, running_may}
use backend.Sessions.Numbering.{Only}
use backend.Sessions.Still.{Still, Still-Frame, Still-if, Still-bind, slot_update-Still}
use backend.Sessions.Lasting.{
  given, stronger, Of, Since, Now, Found, Ensures-Still, Ensures-throw_if, Lasts, Lasts-Still,
  Lasts-Frame, Lasts-bind, pair_update, own_pair-Found,
}

-- A running session may go to the next level, and end.
next_level :
    (p : BreedPair)
    → is_paired p.status ≡ true
    → Moves p (record p { current_level = p.current_level + 1 })
next_level p h = record {
  same = refl;
  status = running_may p.status p.status h;
  grows = omega arith;
  rests = λ e. cc;
  earned = λ e k. cc;
}

cancels : (p : BreedPair) → is_paired p.status ≡ true → Moves p (record p { status = canceled })
cancels p h = record {
  same = refl;
  status = running_may p.status canceled h;
  grows = omega arith;
  rests = λ e. cc;
  earned = λ e k. cc;
}

abbrev settled : Option Bud → BreedPair → BreedPair
settled result p = record p { status = if is_some result then completed else failed }

settles :
    (result : Option Bud) (p : BreedPair)
    → is_paired p.status ≡ true
    → 5 ≤ p.current_level
    → Moves p (settled result p)
settles result p h l = record {
  same = refl;
  status = running_may p.status _ h;
  grows = omega arith;
  rests = λ e. cc;
  earned = λ e k. l;
}

opens : (o : Option BreedSlot) → Still (open_found_slot o)
opens none = record { pairs = λ s. refl }
opens (some x) = Still-bind _ _ (slot_update-Still x.id _) λ y. record { pairs = λ s. refl }

reward-Still :
    (env : Env) (req : Caller) (p : BreedPair) (o : Option Bud) → Still (reward env req p o)
unfolding reward
reward-Still env req p none = record { pairs = λ s. refl }
reward-Still env req p (some b) =
    Still-bind
      (find_any slot_table
        (λ x. x.user_address == req.user && not x.is_open && not (is_some x.deleted_at))
        env.row_choice)
      _ (record { pairs = λ s. refl })
      λ found. Still-bind (open_found_slot found) _ (opens found) λ slot.
        Still-bind (issue_gen1_bud_mint env req.user b (some p.id))
          (λ bud. pure (some (record { bud = bud; slot = slot })))
          (Still-Frame _ (issue_gen1_bud_mint-Frame env req.user b (some p.id)))
          λ bud. record { pairs = λ s. refl }

pub frees : (i : ℕ) (f : BreedSlot → BreedSlot) → Lasts (update slot_table i f)
frees i f = Lasts-Still _ (slot_update-Still i f)

module _ (t0 : List BreedPair) where
  cancel_breeding-Since :
      (req : Caller) (i : ℕ)
      → Ensures (Of (Since t0)) (Of (Since t0)) (cancel_breeding req i) (λ _. Of (Since t0))
  unfolding cancel_breeding
  cancel_breeding-Since req i = Ensures-bind _ _ _ _ (own_pair-Found t0 req i) λ p.
      given (is_paired p.status ≡ true) _ (λ s c. c.1.2)
        λ h.
          Ensures-bind _ _ _ _
            (stronger _ (λ s c. (c.0, subst (λ j. Only j p s.pairs.rows) (sym c.1.1) c.1.0))
              (pair_update t0 p.id p (λ x. record x { status = canceled }) (λ x. refl)
                (cancels p h)))
            λ _. (Lasts-bind _ _ (frees p.slot_id _) λ _. Lasts-Frame _ (Frame-pure tt)).since t0

  pub start_breed_level-Since :
      (env : Env) (p : BreedPair) (male female : Bud)
      → is_paired p.status ≡ true
      → Ensures
          (Of (Since t0))
          (Of (Now t0 (Only p.id p)))
          (start_breed_level env p male female)
          (λ _. Of (Since t0))
  unfolding start_breed_level
  start_breed_level-Since env p male female h =
      Ensures-bind _ _ _ _
        (Ensures-Still t0 (Only p.id p) _ (
          Still-if _ _ _
            (Still-Frame _ (create_level_buds-Frame env p.id (p.current_level + 1) male female))
            (Still-Frame _ (Frame-pure tt))))
        λ _.
          pair_update t0 p.id p (λ q. record q { current_level = p.current_level + 1 }) (λ x. refl)
            (next_level p h)

  level_up_pair-Since :
      (env : Env) (req : Caller) (p : BreedPair) (male female : ℕ)
      → is_paired p.status ≡ true
      → Ensures
          (Of (Since t0))
          (Of (Now t0 (Only p.id p)))
          (level_up_pair env req p male female)
          (λ _. Of (Since t0))
  unfolding level_up_pair
  level_up_pair-Since env req p male female h =
      let only = Only p.id p in
      Ensures-bind _ _ _ _ (Ensures-Still t0 only _ (Still-Frame _ (Frame-throw_if _ _))) λ _.
        Ensures-bind _ _ _ _
          (Ensures-Still t0 only _ (Still-Frame _ (verify_game_item_possession-Frame env p)))
          λ _.
            Ensures-bind _ _ _ _
              (Ensures-Still t0 only _ (
                Still-Frame _
                  (verify_bud_pairs-Frame env p.user_address p.male_bud_id p.female_bud_id false)))
              λ _.
                Ensures-bind _ _ _ _
                  (Ensures-Still t0 only _
                    (Still-Frame _ (consume_breeding_point-Frame req.user _)))
                  λ _.
                    Ensures-bind _ _ _ _
                      (Ensures-Still t0 only _
                        (Still-Frame _ (evaluate_breed_level-Frame env p male female)))
                      λ e.
                        Ensures-bind _ _ _ _
                          (start_breed_level-Since env p e.male_bud e.female_bud h)
                          λ _. (Lasts-Frame _ (Frame-pure _)).since t0

  settle-Since :
      (env : Env) (req : Caller) (i : ℕ) (p : BreedPair) (result : Option Bud)
      → is_paired p.status ≡ true
      → 5 ≤ p.current_level
      → Ensures
          (Of (Since t0))
          (Of (Now t0 (Only i p)))
          (settle env req i p result)
          (λ _. Of (Since t0))
  unfolding settle
  settle-Since env req i p result h l =
      Ensures-bind _ _ _ _
        (Ensures-Still t0 (Only i p) _
          (slot_update-Still p.slot_id (λ x. record x { is_used = false })))
        λ _.
          Ensures-bind _ _ _ _
            (pair_update t0 i p (settled result) (λ x. refl) (settles result p h l))
            λ _. (Lasts-Still _ (reward-Still env req p result)).since t0

  finalize_pair-Since :
      (env : Env) (req : Caller) (i : ℕ) (p : BreedPair) (male female : ℕ)
      → is_paired p.status ≡ true
      → Ensures
          (Of (Since t0))
          (Of (Now t0 (Only i p)))
          (finalize_pair env req i p male female)
          (λ _. Of (Since t0))
  unfolding finalize_pair config
  finalize_pair-Since env req i p male female h =
      let reached = λ (ps : List BreedPair). Only i p ps × (ltb p.current_level 5 ≡ false) in
      Ensures-bind _ _ _ _ (Ensures-throw_if t0 (Only i p) (ltb p.current_level 5) _) λ _.
        Ensures-bind _ _ _ _
          (Ensures-Still t0 reached _
            (Still-Frame _ (evaluate_breed_level-Frame env p male female)))
          λ _.
            Ensures-bind _ _ _ _
              (Ensures-Still t0 reached _ (Still-Frame _ (finalize_rate-Frame env p)))
              λ result.
                given (ltb p.current_level 5 ≡ false) _ (λ s c. c.1.1)
                  λ l.
                    stronger _ (λ s c. (c.0, c.1.0))
                      (settle-Since env req i p result h (ground arith))

  found-Only : (i : ℕ) (p : BreedPair) (ps : List BreedPair) → Found t0 i p ps → Only p.id p ps
  found-Only i p ps (only, e, run) = subst (λ j. Only j p ps) (sym e) only

pub cancel_breeding-Lasts : (req : Caller) (i : ℕ) → Lasts (cancel_breeding req i)
cancel_breeding-Lasts req i = record { since = λ t0. cancel_breeding-Since t0 req i }

pub level_breeding_up-Lasts :
    (env : Env) (req : Caller) (i male female : ℕ) → Lasts (level_breeding_up env req i male female)
unfolding level_breeding_up
level_breeding_up-Lasts env req i male female = record {
  since = λ t0. Ensures-bind _ _ _ _ (own_pair-Found t0 req i) λ p.
      given (is_paired p.status ≡ true) _ (λ s c. c.1.2)
        λ h.
          stronger _ (λ s c. (c.0, found-Only t0 i p s.pairs.rows c.1))
            (level_up_pair-Since t0 env req p male female h);
}

pub finalize_breeding-Lasts :
    (env : Env) (req : Caller) (i male female : ℕ) → Lasts (finalize_breeding env req i male female)
unfolding finalize_breeding
finalize_breeding-Lasts env req i male female = record {
  since = λ t0. Ensures-bind _ _ _ _ (own_pair-Found t0 req i) λ p.
      given (is_paired p.status ≡ true) _ (λ s c. c.1.2)
        λ h. stronger _ (λ s c. (c.0, c.1.0)) (finalize_pair-Since t0 env req i p male female h);
}
