-- ===== src/Sessions/Changes.antt =====
-- Which changes of the tables keep the invariant.
use backend.Common.{
  ℕ, suc, ◌+◌, ◌≤◌, ◌<◌, ◌≡◌, refl, Bool, true, false, List, [], ◌∷◌, ◌++◌, inl, inr, arith, ◌==◌,
  ltb, length, All, tally, change, Bool-cases, tally-append, ==→eq,
}
use backend.Common.Int.{ℤ, ◌==ℤ◌, int_laws}
use backend.Common.Counting.{
  tally-change_same, tally-change_clear, tally-change_apart, tally-change_set,
}
use backend.Schema.{BreedPair, BreedSlot, is_paired}
use backend.Db.{Rows, slot_table, numbered}
use backend.Sessions.Good.{Good, on_slot, with_male, with_female, is_row, is_used_row}

-- The slots after an update.
abbrev pub changed : (BreedSlot → Bool) → (BreedSlot → BreedSlot) → Rows BreedSlot → Rows BreedSlot
changed w f t = record { rows = change w f t.rows; next = t.next }

module _ {ps : List BreedPair} {t : Rows BreedSlot} (g : Good ps t) where
  tally-end :
      (a w : BreedPair → Bool) (f : BreedPair → BreedPair)
      → ((x : BreedPair) → a (f x) ≡ false)
      → tally a (change w f ps) ≤ tally a ps
  tally-end a w f h =
      omega (arith, tally-change_clear a (λ x. false) w f ps h (λ x e. cc) (λ x e. cc))

  -- A session may end.
  pub Good-end :
      (w : BreedPair → Bool) (f : BreedPair → BreedPair)
      → ((x : BreedPair) → is_paired (f x).status ≡ false)
      → Good (change w f ps) t
  Good-end w f h = record {
    one_row = g.one_row;
    occupied = λ i. omega (arith, tally-end (on_slot i) w f (λ x. rw (h x)), g.occupied i);
    male_once = λ b. omega (arith, tally-end (with_male b) w f (λ x. rw (h x)), g.male_once b);
    female_once =
        λ b. omega (arith, tally-end (with_female b) w f (λ x. rw (h x)), g.female_once b);
    fresh = g.fresh;
  }

  -- A session may change in what the invariant does not read.
  pub Good-keep :
      (w : BreedPair → Bool) (f : BreedPair → BreedPair)
      → ((x : BreedPair) (i : ℕ) → on_slot i (f x) ≡ on_slot i x)
      → ((x : BreedPair) (b : ℤ) → with_male b (f x) ≡ with_male b x)
      → ((x : BreedPair) (b : ℤ) → with_female b (f x) ≡ with_female b x)
      → Good (change w f ps) t
  Good-keep w f hs hm hf = record {
    one_row = g.one_row;
    occupied = λ i. rw (tally-change_same (on_slot i) w f ps (λ x. hs x i)) (g.occupied i);
    male_once = λ b. rw (tally-change_same (with_male b) w f ps (λ x. hm x b)) (g.male_once b);
    female_once =
        λ b. rw (tally-change_same (with_female b) w f ps (λ x. hf x b)) (g.female_once b);
    fresh = g.fresh;
  }

  -- A slot may change in what the invariant does not read.
  pub Good-slot :
      (w : BreedSlot → Bool) (f : BreedSlot → BreedSlot)
      → ((x : BreedSlot) → (f x).id ≡ x.id)
      → ((x : BreedSlot) → (f x).is_used ≡ x.is_used)
      → Good ps (changed w f t)
  Good-slot w f hi hu = record {
    one_row = λ i. rw (tally-change_same (is_row i) w f t.rows (λ x. rw (hi x))) (g.one_row i);
    occupied = λ i.
        rw (tally-change_same (is_used_row i) w f t.rows (λ x. rw (hi x, hu x))) (g.occupied i);
    male_once = g.male_once;
    female_once = g.female_once;
    fresh = λ i h. rw (tally-change_same (is_row i) w f t.rows (λ x. rw (hi x))) (g.fresh i h);
  }

  abbrev free : BreedSlot → BreedSlot
  free x = record x { is_used = false }

  still_used :
      (v : ℕ → Bool) (i : ℕ)
      → v i ≡ false
      → tally (is_used_row i) (change (λ x. v x.id) free t.rows) ≡ tally (is_used_row i) t.rows
  still_used v i h =
      tally-change_apart (is_used_row i) (λ x. v x.id) free t.rows λ x e. ground arith

  -- Slots on which no session runs may be freed.
  pub Good-free :
      (v : ℕ → Bool)
      → ((i : ℕ) → v i ≡ true → tally (on_slot i) ps ≡ 0)
      → Good ps (changed (λ x. v x.id) (λ x. record x { is_used = false }) t)
  Good-free v h = record {
    one_row =
        λ i. rw (tally-change_same (is_row i) (λ x. v x.id) free t.rows (λ x. refl)) (g.one_row i);
    occupied = λ i. elim (Bool-cases (v i)) [
      | inl freed ↦ rw (h i freed) (omega arith)
      | inr other ↦ rw (still_used v i other) (g.occupied i)
    ];
    male_once = g.male_once;
    female_once = g.female_once;
    fresh = λ i l.
        rw (tally-change_same (is_row i) (λ x. v x.id) free t.rows (λ x. refl)) (g.fresh i l);
  }

  -- A session may begin on a row that is not used, with buds that are in no session.
  module _ (p : BreedPair) (row : 1 ≤ tally (is_row p.slot_id) t.rows)
      (unused : tally (is_used_row p.slot_id) t.rows ≡ 0)
      (no_male : tally (with_male p.male_bud_id) ps ≡ 0)
      (no_female : tally (with_female p.female_bud_id) ps ≡ 0) where
    abbrev use_row : BreedSlot → BreedSlot
    use_row x = record x { is_used = true }

    one : (q : BreedPair) → tally (on_slot q.slot_id) (q ∷ []) ≤ 1
    one q = ground arith

    none_else : (i : ℕ) → (p.slot_id == i) ≡ false → tally (on_slot i) (p ∷ []) ≡ 0
    none_else i h = ground arith

    used_now :
        (i : ℕ)
        → tally (on_slot i) (ps ++ p ∷ [])
          ≤ tally (is_used_row i) (change (is_row p.slot_id) use_row t.rows)
    used_now i = elim (Bool-cases (p.slot_id == i)) [
      | inl same ↦
          let e : p.slot_id ≡ i = ==→eq p.slot_id i same in
          rw (← e) (
            omega (
              arith,
              tally-append (on_slot p.slot_id) ps (p ∷ []),
              g.occupied p.slot_id,
              one p,
              tally-change_set (is_used_row p.slot_id) (is_row p.slot_id) (is_row p.slot_id) use_row
                  t.rows (λ x h. h) (λ x h. ground arith),
            ))
      | inr other ↦ omega (
        arith,
        tally-append (on_slot i) ps (p ∷ []),
        g.occupied i,
        none_else i other,
        tally-change_apart (is_used_row i) (is_row p.slot_id) use_row t.rows (λ x h. ground arith),
      )
    ]

    male_still : (b : ℤ) → tally (with_male b) (ps ++ p ∷ []) ≤ 1
    male_still b = elim (Bool-cases (p.male_bud_id ==ℤ b)) [
      | inl same ↦
          let e : p.male_bud_id ≡ b = omega (int_laws, ==→eq _ _ same) in
          rw (tally-append (with_male b) ps (p ∷ []), ← e, no_male) (ground arith)
      | inr other ↦ rw (tally-append (with_male b) ps (p ∷ [])) (ground (arith, g.male_once b))
    ]

    female_still : (b : ℤ) → tally (with_female b) (ps ++ p ∷ []) ≤ 1
    female_still b = elim (Bool-cases (p.female_bud_id ==ℤ b)) [
      | inl same ↦
          let e : p.female_bud_id ≡ b = omega (int_laws, ==→eq _ _ same) in
          rw (tally-append (with_female b) ps (p ∷ []), ← e, no_female) (ground arith)
      | inr other ↦ rw (tally-append (with_female b) ps (p ∷ [])) (ground (arith, g.female_once b))
    ]

    pub Good-begin : Good (ps ++ p ∷ []) (changed (is_row p.slot_id) use_row t)
    Good-begin = record {
      one_row = λ i.
          rw (tally-change_same (is_row i) (is_row p.slot_id) use_row t.rows (λ x. refl))
            (g.one_row i);
      occupied = used_now;
      male_once = λ b. male_still b;
      female_once = λ b. female_still b;
      fresh = λ i l.
          rw (tally-change_same (is_row i) (is_row p.slot_id) use_row t.rows (λ x. refl))
            (g.fresh i l);
    }

-- The rows of one `createMany` have numbers of their own.
abbrev pub Named : List (ℕ → BreedSlot) → Type 0
Named = All (λ f. (i : ℕ) → (f i).id ≡ i)

numbered_below :
    (fs : List (ℕ → BreedSlot)) (n i : ℕ)
    → Named fs
    → i < n
    → tally (is_row i) (numbered slot_table n fs) ≡ 0
numbered_below [] n i h l = refl
numbered_below (f ∷ fs) n i h l = ground (arith, numbered_below fs (suc n) i h.1, h.0 n)

numbered_above :
    (fs : List (ℕ → BreedSlot)) (n i : ℕ)
    → Named fs
    → n + length fs ≤ i
    → tally (is_row i) (numbered slot_table n fs) ≡ 0
numbered_above [] n i h l = refl
numbered_above (f ∷ fs) n i h l = ground (arith, numbered_above fs (suc n) i h.1, h.0 n)

numbered_once :
    (fs : List (ℕ → BreedSlot)) (n i : ℕ)
    → Named fs
    → tally (is_row i) (numbered slot_table n fs) ≤ 1
numbered_once [] n i h = omega arith
numbered_once (f ∷ fs) n i h =
    ground (arith, numbered_once fs (suc n) i h.1, numbered_below fs (suc n) i h.1, h.0 n)

-- New rows may be added.
pub Good-rows :
    {ps : List BreedPair} {t : Rows BreedSlot} (fs : List (ℕ → BreedSlot))
    → Good ps t
    → Named fs
    → Good ps (record { rows = t.rows ++ numbered slot_table t.next fs; next = t.next + length fs })
Good-rows {ps} {t} fs g h = record {
  one_row = λ i. elim (Bool-cases (ltb i t.next)) [
    | inl old ↦ rw tally-append (ground (arith, g.one_row i, numbered_below fs t.next i h))
    | inr new ↦ rw tally-append (ground (arith, g.fresh i, numbered_once fs t.next i h))
  ];
  occupied = λ i.
      omega
        (arith, g.occupied i, tally-append (is_used_row i) t.rows (numbered slot_table t.next fs));
  male_once = g.male_once;
  female_once = g.female_once;
  fresh = λ i l. omega (
    arith,
    g.fresh i,
    tally-append (is_row i) t.rows (numbered slot_table t.next fs),
    numbered_above fs t.next i h,
  );
}
