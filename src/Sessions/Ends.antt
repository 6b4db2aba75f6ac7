-- ===== src/Sessions/Ends.antt =====
-- Cancelling, finalizing and levelling up keep the invariant.
use backend.Common.{
  ℕ, ◌+◌, ◌≤◌, ◌≡◌, refl, true, false, ◌&&◌, List, inl, inr, arith, ◌==◌, Option, none, some,
  if◌then◌else◌, tally, change, first, Option-cases, first_passes, is_some, not,
}
use backend.Common.Counting.{first-tally}
use backend.Schema.{Caller, Bud, BreedPair, BreedSlot, canceled, completed, failed, is_paired}
use backend.Db.{pure, throw_if, slot_table, find_any}
use backend.Db.Triple.{
  Ensures, Ensures-bind, frame_rules, On, Ensures-Frame, Frame-pure, Frame-throw_if, Frame-if,
}
use backend.Bud.{issue_gen1_bud_mint}
use backend.Env.{Env}
use backend.Breed.{
  own_paired, find_own_pair, cancel_breeding, settle, reward, open_found_slot, finalize_pair,
  finalize_breeding, start_breed_level, level_up_pair, level_breeding_up, evaluate_breed_level,
  finalize_rate,
}
use backend.Sessions.Good.{Good, IsGood, on_slot, is_row}
use backend.Sessions.Changes.{changed, Good-slot, Good-keep}
use backend.Sessions.Rules.{
  Keeps, Keeps-bind, Keeps-Frame, Tables, Runs, is_pair, running_pair, running_slot, Good-release,
  Ensures-from, Ensures-pair, Ensures-slot, Ensures-slot_any, Ensures-pair_any,
}
use backend.Sessions.Frames.{
  evaluate_breed_level-Frame, finalize_rate-Frame, issue_gen1_bud_mint-Frame,
  create_level_buds-Frame, verify_game_item_possession-Frame, verify_bud_pairs-Frame,
  consume_breeding_point-Frame,
}

-- What `findFirst` of the caller's session returns.
abbrev pub Own : Caller → ℕ → BreedPair → Tables
Own req pair_id p ps t = Good ps t × (p.id ≡ pair_id) × (p.user_address ≡ req.user) × Runs p ps

module _ (req : Caller) (pair_id : ℕ) where
  pub own_found :
      (ps : List BreedPair) (p : BreedPair)
      → first (own_paired req.user pair_id) ps ≡ some p
      → (p.id ≡ pair_id) × (p.user_address ≡ req.user) × Runs p ps
  own_found ps p e =
      let h = first_passes (own_paired req.user pair_id) ps p e in
      (
        ground arith,
        ground arith,
        first-tally (own_paired req.user pair_id) (λ x. on_slot p.slot_id x && is_pair p.id x) ps p
            e (ground arith),
      )

  pub find_own_pair-Own :
      Ensures IsGood IsGood (find_own_pair req pair_id) (λ p. On (Own req pair_id p))
  unfolding find_own_pair
  find_own_pair-Own = record {
    at = λ s g. elim (Option-cases (first (own_paired req.user pair_id) s.pairs.rows)) [
      | inl missing ↦ rw missing g
      | inr (p, e) ↦ let h = own_found s.pairs.rows p e in rw e (g, h.0, h.1, h.2)
    ];
  }

  -- Cancelling a session keeps the invariant, whatever the answer.
  pub cancel_breeding-Keeps : Keeps (cancel_breeding req pair_id)
  unfolding cancel_breeding
  cancel_breeding-Keeps = record {
    ensures = Ensures-bind _ _ _ _ find_own_pair-Own λ p.
        Ensures-bind _ _ _ _
          (Ensures-from _
            (Ensures-pair IsGood
              (λ ps t.
                (1 ≤ tally (is_row p.slot_id) t.rows)
                × Good ps (changed (is_row p.slot_id) (λ x. record x { is_used = false }) t))
              p.id (λ x. record x { status = canceled }))
            (λ s h. (
              running_pair h.0 p h.3,
              (running_slot h.0 p h.3, Good-release h.0 p h.3 _ (λ x. refl)),
            )))
          λ _.
            Ensures-bind _ _ _ _
              (Ensures-slot IsGood Good p.slot_id (λ x. record x { is_used = false }))
              λ _. Ensures-Frame Good (pure tt) IsGood (Frame-pure tt) (λ s h. h);
  }

abbrev settled : Option Bud → BreedPair → BreedPair
settled result p = record p { status = if is_some result then completed else failed }

settled_ends : (result : Option Bud) (p : BreedPair) → is_paired (settled result p).status ≡ false
settled_ends none p = refl
settled_ends (some b) p = refl

module _ (env : Env) (req : Caller) where
  open_found_slot-IsGood :
      (o : Option BreedSlot) → Ensures IsGood IsGood (open_found_slot o) (λ _. IsGood)
  open_found_slot-IsGood none = Ensures-Frame Good (pure none) IsGood (Frame-pure none) (λ s h. h)
  open_found_slot-IsGood (some x) =
      Ensures-bind _ _ _ _
        (Ensures-slot_any Good x.id (λ y. record y { is_open = true })
          (λ ps t g. Good-slot g _ _ (λ y. refl) (λ y. refl)))
        λ y. Ensures-Frame Good (pure (some y)) IsGood (Frame-pure (some y)) (λ s h. h)

  reward-IsGood :
      (p : BreedPair) (o : Option Bud) → Ensures IsGood IsGood (reward env req p o) (λ _. IsGood)
  unfolding reward
  reward-IsGood p none = Ensures-Frame Good (pure none) IsGood (Frame-pure none) (λ s h. h)
  reward-IsGood p (some b) =
      Ensures-bind _ _ _ _
        (Ensures-Frame Good
          (find_any slot_table
            (λ x. x.user_address == req.user && not x.is_open && not (is_some x.deleted_at))
            env.row_choice)
          IsGood (record { pairs = λ s. refl; slots = λ s. refl }) (λ s h. h))
        λ found. Ensures-bind _ _ _ _ (open_found_slot-IsGood found) λ slot.
          Ensures-bind _ _ _ _
            (Ensures-Frame Good (issue_gen1_bud_mint env req.user b (some p.id)) IsGood
              (issue_gen1_bud_mint-Frame env req.user b (some p.id)) (λ s h. h))
            λ bud.
              Ensures-Frame Good (pure (some (record { bud = bud; slot = slot }))) IsGood
                (Frame-pure _) (λ s h. h)

  settle-IsGood :
      (pair_id : ℕ) (p : BreedPair) (result : Option Bud)
      → Ensures IsGood (On (Own req pair_id p)) (settle env req pair_id p result) (λ _. IsGood)
  unfolding settle
  settle-IsGood pair_id p result =
      Ensures-bind _ _ _ _
        (Ensures-from _
          (Ensures-slot IsGood
            (λ ps t.
              (1 ≤ tally (is_pair pair_id) ps)
              × Good (change (is_pair pair_id) (settled result) ps) t)
            p.slot_id (λ x. record x { is_used = false }))
          (λ s h. rw (← h.1) (
            running_slot h.0 p h.3,
            (running_pair h.0 p h.3, Good-release h.0 p h.3 (settled result) (settled_ends result)),
          )))
        λ _.
          Ensures-bind _ _ _ _ (Ensures-pair IsGood Good pair_id (settled result))
            λ _. reward-IsGood p result

  finalize_pair-IsGood :
      (pair_id : ℕ) (p : BreedPair) (male female : ℕ)
      → Ensures IsGood
          (On (Own req pair_id p))
          (finalize_pair env req pair_id p male female)
          (λ _. IsGood)
  unfolding finalize_pair
  finalize_pair-IsGood pair_id p male female =
      let own = Own req pair_id p in
      Ensures-bind _ _ _ _
        (Ensures-Frame own (throw_if _ _) IsGood (Frame-throw_if _ _) (λ s h. h.0))
        λ _.
          Ensures-bind _ _ _ _
            (Ensures-Frame own (evaluate_breed_level env p male female) IsGood
              (evaluate_breed_level-Frame env p male female) (λ s h. h.0))
            λ _.
              Ensures-bind _ _ _ _
                (Ensures-Frame own (finalize_rate env p) IsGood (finalize_rate-Frame env p)
                  (λ s h. h.0))
                λ result. settle-IsGood pair_id p result

  -- Finalizing a session keeps the invariant, whatever the answer.
  pub finalize_breeding-Keeps :
      (pair_id male female : ℕ) → Keeps (finalize_breeding env req pair_id male female)
  unfolding finalize_breeding
  finalize_breeding-Keeps pair_id male female = record {
    ensures =
        Ensures-bind _ _ _ _ (find_own_pair-Own req pair_id)
          λ p. finalize_pair-IsGood pair_id p male female;
  }

  pub start_breed_level-IsGood :
      (p : BreedPair) (male female : Bud)
      → Ensures IsGood IsGood (start_breed_level env p male female) (λ _. IsGood)
  unfolding start_breed_level
  start_breed_level-IsGood p male female =
      Ensures-bind _ _ _ _
        (Ensures-Frame Good _ IsGood
          (Frame-if _ _ _ (create_level_buds-Frame env p.id _ male female) (Frame-pure tt))
          (λ s h. h))
        λ _.
          Ensures-pair_any Good p.id (λ q. record q { current_level = p.current_level + 1 })
            (λ ps t g.
              Good-keep g (is_pair p.id) (λ q. record q { current_level = p.current_level + 1 })
                (λ x i. refl) (λ x b. refl) (λ x b. refl))

  start_breed_level-Keeps :
      (p : BreedPair) (male female : Bud) → Keeps (start_breed_level env p male female)
  start_breed_level-Keeps p male female = record {
    ensures = start_breed_level-IsGood p male female;
  }

  level_up_pair-Keeps :
      (p : BreedPair) (male female : ℕ) → Keeps (level_up_pair env req p male female)
  unfolding level_up_pair
  level_up_pair-Keeps p male female =
      search
        (
          Keeps-bind, Keeps-Frame, frame_rules, verify_game_item_possession-Frame,
          verify_bud_pairs-Frame, consume_breeding_point-Frame, evaluate_breed_level-Frame,
          start_breed_level-Keeps,
        )
        depth 12

  -- Levelling up keeps the invariant, whatever the answer.
  pub level_breeding_up-Keeps :
      (pair_id male female : ℕ) → Keeps (level_breeding_up env req pair_id male female)
  unfolding level_breeding_up
  level_breeding_up-Keeps pair_id male female = record {
    ensures =
        Ensures-bind _ _ _ _ (find_own_pair-Own req pair_id)
          λ p. Ensures-from _ (level_up_pair-Keeps p male female).ensures (λ s h. h.0);
  }
