-- ===== src/Sessions/Begins.antt =====
-- `createPair` keeps the invariant.
use backend.Common.{
  ℕ, zero, suc, ◌≤◌, ◌≡◌, refl, true, ◌&&◌, List, [], ◌∷◌, ◌++◌, inl, inr, arith, ◌==◌, Option,
  none, some, tally, first, Option-cases, first_passes, not, ltb,
}
use backend.Common.Int.{ℤ}
use backend.Common.Counting.{tally-change_same, first-tally, tally-le, tally_disjoint}
use backend.Schema.{Caller, Error, Bud, BudWithId, BreedPair, BreedSlot, indoor}
use backend.Db.{Rows, pure, throw_if, ◌>>=◌, ◌>>◌, create_pair_row}
use backend.Db.Triple.{
  Ensures, Ensures-bind, Frame, On, Ensures-Frame, Frame-pure, Frame-throw_if, frame_rules,
}
use backend.Env.{Env}
use backend.Land.{is_open_slot, find_open_breed_slot_by_id}
use backend.Breed.{
  CreateBreedPair, in_breeding, find_pair_in_breeding, require_slot, upgraded_slot, new_pair,
  occupy, place_pair, create_pair, two_buds, check_item,
}
use backend.Sessions.Good.{Good, IsGood, with_male, with_female, is_row, is_used_row}
use backend.Sessions.Changes.{changed, Good-slot, Good-begin}
use backend.Sessions.Rules.{
  Tables, Ensures-row, Ensures-if, Ensures-error, Ensures-slot, Ensures-slot_any, Keeps, Keeps-bind,
  Keeps-Frame,
}
use backend.Sessions.Frames.{
  verify_bud_pairs-Frame, get_start_success_rate-Frame, check_game_item_balance-Frame,
}
use backend.Sessions.Ends.{start_breed_level-IsGood}

module _ (body : CreateBreedPair) where
  -- No session has one of the two buds.
  abbrev NoBuds : Tables
  NoBuds ps t = Good ps t × (tally (in_breeding body.male_bud_id body.female_bud_id) ps ≡ 0)

  abbrev RowUnused : Rows BreedSlot → Type 0
  RowUnused t =
      (1 ≤ tally (is_row body.slot_id) t.rows) × (tally (is_used_row body.slot_id) t.rows ≡ 0)

  -- The session of the request may begin.
  abbrev Ready : Tables
  Ready ps t = NoBuds ps t × RowUnused t

  abbrev Found : Option BreedSlot → Tables
  Found none ps t = NoBuds ps t
  Found (some x) ps t = Ready ps t

  open_row :
      (user : ℕ) (t : Rows BreedSlot) (x : BreedSlot)
      → ((i : ℕ) → tally (is_row i) t.rows ≤ 1)
      → first (is_open_slot user body.slot_id) t.rows ≡ some x
      → RowUnused t
  open_row user t x one e =
      let h = first_passes (is_open_slot user body.slot_id) t.rows x e in
      let unused =
        first-tally (is_open_slot user body.slot_id) (λ y. y.id == body.slot_id && not y.is_used)
          t.rows x e (ground arith) in
      let both =
        tally_disjoint (λ y. y.id == body.slot_id && not y.is_used) (is_used_row body.slot_id)
          (is_row body.slot_id) t.rows (λ y k. ground arith) (λ y k. ground arith)
          (λ y k. ground arith) in
      (omega (arith, unused, both), omega (arith, unused, both, one body.slot_id))

  find_slot-Found :
      (user : ℕ)
      → Ensures IsGood
          (On NoBuds)
          (find_open_breed_slot_by_id user body.slot_id)
          (λ o. On (Found o))
  unfolding find_open_breed_slot_by_id
  find_slot-Found user = record {
    at = λ s h. elim (Option-cases (first (is_open_slot user body.slot_id) s.slots.rows)) [
      | inl missing ↦ rw missing h
      | inr (x, e) ↦ rw e (h, open_row user s.slots x h.0.one_row e)
    ];
  }

  require_slot-Ready :
      (req : Caller) (o : Option BreedSlot)
      → Ensures IsGood (On (Found o)) (require_slot req o) (λ _. On Ready)
  require_slot-Ready req none = record { at = λ s h. h.0 }
  require_slot-Ready req (some x) =
      Ensures-bind _ _ _ _
        (Ensures-Frame Ready (throw_if _ _) IsGood (Frame-throw_if _ _) (λ s h. h.0.0))
        λ _. Ensures-Frame Ready (pure x) IsGood (Frame-pure x) (λ s h. h.0.0)

  abbrev to_indoor : BreedSlot → BreedSlot
  to_indoor y = record y { type = indoor }

  upgraded_slot-Ready :
      (x : BreedSlot) → Ensures IsGood (On Ready) (upgraded_slot body x) (λ _. On Ready)
  upgraded_slot-Ready x =
      Ensures-if _ _ _
        (Ensures-error _
          (Ensures-slot_any Ready x.id to_indoor (λ ps t h. (
            (Good-slot h.0.0 (is_row x.id) to_indoor (λ y. refl) (λ y. refl), h.0.1),
            (
              rw
                  (tally-change_same (is_row body.slot_id) (is_row x.id) to_indoor t.rows
                    (λ y. refl))
                  h.1.0,
              rw
                  (tally-change_same (is_used_row body.slot_id) (is_row x.id) to_indoor t.rows
                    (λ y. refl))
                  h.1.1,
            ),
          )))
          (λ s h. h.0.0))
        (Ensures-Frame Ready (pure x) IsGood (Frame-pure x) (λ s h. h.0.0))

  module _ (env : Env) (req : Caller) (rate : ℤ) where
    abbrev Occupied : Tables
    Occupied ps t =
        (1 ≤ tally (is_row body.slot_id) t.rows)
        × Good ps (changed (is_row body.slot_id) (λ x. record x { is_used = true }) t)

    begin :
        (ps : List BreedPair) (t : Rows BreedSlot) (i : ℕ)
        → Ready ps t
        → Occupied (ps ++ new_pair env req body rate i ∷ []) t
    begin ps t i h = (
      h.1.0,
      Good-begin h.0.0 (new_pair env req body rate i) h.1.0 h.1.1
          (omega (
            arith,
            h.0.1,
            tally-le (with_male body.male_bud_id) (in_breeding body.male_bud_id body.female_bud_id)
                ps (λ p e. ground arith),
          ))
          (omega (
            arith,
            h.0.1,
            tally-le (with_female body.female_bud_id)
                (in_breeding body.male_bud_id body.female_bud_id) ps (λ p e. ground arith),
          )),
    )

    occupy-IsGood : Ensures IsGood (On Ready) (occupy env req body rate) (λ _. IsGood)
    unfolding occupy
    occupy-IsGood =
        Ensures-bind (λ _. On Occupied) _ (create_pair_row (new_pair env req body rate)) _
          (Ensures-row (new_pair env req body rate)
            (record { at = λ s h. begin s.pairs.rows s.slots s.pairs.next h }) (λ s h. h.0.0))
          λ p.
            Ensures-bind _ _ _ _
              (Ensures-slot IsGood Good body.slot_id (λ x. record x { is_used = true }))
              λ _. Ensures-Frame Good (pure p) IsGood (Frame-pure p) (λ s h. h)

  module _ (env : Env) (req : Caller) where
    place_pair-IsGood :
        (male female : Bud)
        → Ensures IsGood (On NoBuds) (place_pair env req body male female) (λ _. IsGood)
    unfolding place_pair
    place_pair-IsGood male female = Ensures-bind _ _ _ _ (find_slot-Found req.user) λ found.
        Ensures-bind _ _ _ _ (require_slot-Ready req found) λ slot.
          Ensures-bind _ _ _ _ (upgraded_slot-Ready slot) λ slot'.
            Ensures-bind _ _ _ _
              (Ensures-Frame Ready _ IsGood
                (get_start_success_rate-Frame env body.male_bud_id body.female_bud_id
                  body.game_item_id slot')
                (λ s h. h.0.0))
              λ rate. Ensures-bind _ _ _ _ (occupy-IsGood env req rate) λ pair.
                Ensures-bind _ _ _ _ (start_breed_level-IsGood env req pair male female)
                  λ _. Ensures-Frame Good (pure pair) IsGood (Frame-pure pair) (λ s h. h)

    none_counted :
        (n : ℕ)
        → Ensures IsGood
            (On
              λ ps t. Good ps t × (tally (in_breeding body.male_bud_id body.female_bud_id) ps ≡ n))
            (throw_if (ltb 0 n) (Error.conflict "One of the bud pairs is in breeding"))
            (λ _. On NoBuds)
    none_counted zero = record { at = λ s h. h }
    none_counted (suc n) =
        let e : ltb 0 (suc n) ≡ true = ground arith in record { at = λ s h. rw e h.0 }

    pub two_buds-Frame : (ms : List BudWithId) → Frame (two_buds ms)
    two_buds-Frame [] = search frame_rules
    two_buds-Frame (a ∷ []) = search frame_rules
    two_buds-Frame (a ∷ b ∷ ms) = search frame_rules

    pub check_item-Frame : (i : Option ℕ) → Frame (check_item env req i)
    check_item-Frame none = search frame_rules
    check_item-Frame (some i) = search (frame_rules, check_game_item_balance-Frame)

    check_buds-IsGood :
        (male female : Bud)
        → Ensures IsGood IsGood
            (do
              n ← find_pair_in_breeding body.male_bud_id body.female_bud_id
              throw_if (ltb 0 n) (Error.conflict "One of the bud pairs is in breeding")
              place_pair env req body male female)
            (λ _. IsGood)
    unfolding find_pair_in_breeding
    check_buds-IsGood male female =
        Ensures-bind
          (λ n.
            On λ ps t. Good ps t × (tally (in_breeding body.male_bud_id body.female_bud_id) ps ≡ n))
          _ (find_pair_in_breeding body.male_bud_id body.female_bud_id) _
          (record { at = λ s g. (g, refl) })
          λ n. Ensures-bind _ _ _ _ (none_counted n) λ _. place_pair-IsGood male female

    pub create_pair-Keeps : Keeps (create_pair env req body)
    unfolding create_pair
    create_pair-Keeps =
        Keeps-bind _ _
          (Keeps-Frame _
            (verify_bud_pairs-Frame env req.user body.male_bud_id body.female_bud_id true))
          λ ms. Keeps-bind _ _ (Keeps-Frame _ (two_buds-Frame ms)) λ buds.
            Keeps-bind _ _ (Keeps-Frame _ (check_item-Frame body.game_item_id))
              λ _. record { ensures = check_buds-IsGood buds.0 buds.1 }
