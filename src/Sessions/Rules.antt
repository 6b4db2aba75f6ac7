-- ===== src/Sessions/Rules.antt =====
-- Rules for the actions that do change pairs or slots.
use backend.Common.{
  ℕ, ◌≤◌, ◌≡◌, Bool, true, false, ◌&&◌, List, inl, inr, arith, ◌==◌, if◌then◌else◌, tally, change,
  first, Option-cases, ==→eq,
}
use backend.Common.Counting.{tally-first, tally-le, tally-change_clear}
use backend.Schema.{Error, Result, ok, err, BreedPair, BreedSlot, is_paired}
use backend.Db.{State, Rows, Exec, ◌>>=◌, pair_table, slot_table, update, create, create_pair_row}
use backend.Db.Triple.{frame_rules, Claim, Outcome, Ensures, Ensures-bind, Frame, On, Ensures-Frame}
use backend.Sessions.Good.{Good, IsGood, on_slot, is_row, is_used_row}
use backend.Sessions.Changes.{changed, Good-end, Good-free}

-- A claim on the two tables.
abbrev pub Tables : Type 1
Tables = List BreedPair → Rows BreedSlot → Type 0

abbrev pub is_pair : ℕ → BreedPair → Bool
is_pair i p = p.id == i

module _ {A : Type 0} {E P P' : Claim} {Q : A → Claim} where
  pub Ensures-from : (m : Exec A) → Ensures E P' m Q → ((s : State) → P s → P' s) → Ensures E P m Q
  Ensures-from m h w = record { at = λ s p. h.at s (w s p) }

module _ {A : Type 0} (E E' : Claim) (Q : A → Claim) where
  weaken-Outcome :
      (r : Result A × State) → Outcome E' Q r → ((s : State) → E' s → E s) → Outcome E Q r
  weaken-Outcome (ok a, s) h w = h
  weaken-Outcome (err e, s) h w = w s h

module _ {A : Type 0} {E E' P : Claim} {Q : A → Claim} where
  pub Ensures-error : (m : Exec A) → Ensures E' P m Q → ((s : State) → E' s → E s) → Ensures E P m Q
  Ensures-error m h w = record { at = λ s p. weaken-Outcome E E' Q (m s) (h.at s p) w }

module _ {A : Type 0} {E P : Claim} {Q : A → Claim} where
  pub Ensures-if :
      (b : Bool) (m n : Exec A)
      → Ensures E P m Q
      → Ensures E P n Q
      → Ensures E P (if b then m else n) Q
  Ensures-if true m n hm hn = hm
  Ensures-if false m n hm hn = hn

module _ {E P : Claim} {Q : BreedPair → Claim} (f : ℕ → BreedPair) where
  -- A session's row is made, or refused for want of the user's.
  pub Ensures-row :
      Ensures E P (create pair_table f) Q
      → ((s : State) → P s → E s)
      → Ensures E P (create_pair_row f) Q
  Ensures-row h w = record {
    at = λ s p. made s p (tally (λ u. u.address == (f s.pairs.next).user_address) s.users == 0);
  }
    where
      made :
          (s : State)
          → P s
          → (b : Bool) → Outcome E Q (if b then (err Error.prisma, s) else create pair_table f s)
      made s p true = w s p
      made s p false = h.at s p

module _ (E : Claim) (P : Tables) where
  -- An update of a pair that is there.
  pub Ensures-pair :
      (i : ℕ) (f : BreedPair → BreedPair)
      → Ensures E
          (On λ ps t. (1 ≤ tally (is_pair i) ps) × P (change (is_pair i) f ps) t)
          (update pair_table i f)
          (λ _. On P)
  Ensures-pair i f = record {
    at = λ s h. elim (Option-cases (first (is_pair i) s.pairs.rows)) [
      | inl missing ↦ absurd (tally-first (is_pair i) s.pairs.rows h.0 missing)
      | inr (p, e) ↦ rw e h.1
    ];
  }

  -- An update of a slot that is there.
  pub Ensures-slot :
      (i : ℕ) (f : BreedSlot → BreedSlot)
      → Ensures E
          (On λ ps t. (1 ≤ tally (is_row i) t.rows) × P ps (changed (is_row i) f t))
          (update slot_table i f)
          (λ _. On P)
  Ensures-slot i f = record {
    at = λ s h. elim (Option-cases (first (is_row i) s.slots.rows)) [
      | inl missing ↦ absurd (tally-first (is_row i) s.slots.rows h.0 missing)
      | inr (x, e) ↦ rw e h.1
    ];
  }

module _ (P : Tables) where
  -- An update of a slot that need not be there: an error leaves the tables as they are.
  pub Ensures-slot_any :
      (i : ℕ) (f : BreedSlot → BreedSlot)
      → ((ps : List BreedPair) (t : Rows BreedSlot) → P ps t → P ps (changed (is_row i) f t))
      → Ensures (On P) (On P) (update slot_table i f) (λ _. On P)
  Ensures-slot_any i f h = record {
    at = λ s p. elim (Option-cases (first (is_row i) s.slots.rows)) [
      | inl missing ↦ rw missing p
      | inr (x, e) ↦ rw e (h s.pairs.rows s.slots p)
    ];
  }

  pub Ensures-pair_any :
      (i : ℕ) (f : BreedPair → BreedPair)
      → ((ps : List BreedPair) (t : Rows BreedSlot) → P ps t → P (change (is_pair i) f ps) t)
      → Ensures (On P) (On P) (update pair_table i f) (λ _. On P)
  Ensures-pair_any i f h = record {
    at = λ s p. elim (Option-cases (first (is_pair i) s.pairs.rows)) [
      | inl missing ↦ rw missing p
      | inr (x, e) ↦ rw e (h s.pairs.rows s.slots p)
    ];
  }

-- The pair stands in the table as a running session.
abbrev pub Runs : BreedPair → List BreedPair → Type 0
Runs p ps = 1 ≤ tally (λ x. on_slot p.slot_id x && is_pair p.id x) ps

module _ {ps : List BreedPair} {t : Rows BreedSlot} (g : Good ps t) (p : BreedPair)
    (r : Runs p ps) where
  pub running_pair : 1 ≤ tally (is_pair p.id) ps
  running_pair = omega (
    arith,
    r,
    tally-le (λ x. on_slot p.slot_id x && is_pair p.id x) (is_pair p.id) ps (λ x h. ground arith),
  )

  pub running_slot : 1 ≤ tally (is_row p.slot_id) t.rows
  running_slot = omega (
    arith,
    r,
    tally-le (λ x. on_slot p.slot_id x && is_pair p.id x) (on_slot p.slot_id) ps
        (λ x h. ground arith),
    g.occupied p.slot_id,
    tally-le (is_used_row p.slot_id) (is_row p.slot_id) t.rows (λ x h. ground arith),
  )

  module _ (f : BreedPair → BreedPair)
      (ends : (x : BreedPair) → is_paired (f x).status ≡ false) where
    pub slot_left : tally (on_slot p.slot_id) (change (is_pair p.id) f ps) ≡ 0
    slot_left = omega (
      arith,
      r,
      tally-change_clear (on_slot p.slot_id) (λ x. on_slot p.slot_id x && is_pair p.id x)
          (is_pair p.id) f ps (λ x. rw (ends x)) (λ x h. ground arith) (λ x h. ground arith),
      g.occupied p.slot_id,
      g.one_row p.slot_id,
      tally-le (is_used_row p.slot_id) (is_row p.slot_id) t.rows (λ x h. ground arith),
    )

    -- A running session may end, and free its slot.
    pub Good-release :
        Good
          (change (is_pair p.id) f ps)
          (changed (is_row p.slot_id) (λ x. record x { is_used = false }) t)
    Good-release =
        Good-free (Good-end g (is_pair p.id) f ends) (λ i. i == p.slot_id)
          λ i h. rw (==→eq i p.slot_id h) slot_left

-- The action keeps the invariant, whatever the answer.
pub record Keeps {A : Type 0} (m : Exec A) : Type 0 where
  pub ensures : Ensures IsGood IsGood m (λ _. IsGood)

module _ {A : Type 0} where
  pub Keeps-Frame : (m : Exec A) → Frame m → Keeps m
  Keeps-Frame m h = record { ensures = Ensures-Frame Good m IsGood h (λ s g. g) }

  pub Keeps-if : (b : Bool) (m n : Exec A) → Keeps m → Keeps n → Keeps (if b then m else n)
  Keeps-if true m n hm hn = hm
  Keeps-if false m n hm hn = hn

pub Keeps-bind :
    {A B : Type 0} (m : Exec A) (k : A → Exec B)
    → Keeps m
    → ((a : A) → Keeps (k a))
    → Keeps (m >>= k)
Keeps-bind m k hm hk = record { ensures = Ensures-bind _ _ m k hm.ensures (λ a. (hk a).ensures) }

pub ruleset keeps_rules = (Keeps-bind, Keeps-if, Keeps-Frame, frame_rules)

-- A request is over with its answer or its error: the state is what stays.
keeps-Outcome : {A : Type 0} (r : Result A × State) → Outcome IsGood (λ _. IsGood) r → IsGood r.1
keeps-Outcome (ok a, s) h = h
keeps-Outcome (err e, s) h = h

pub Keeps-state : {A : Type 0} (m : Exec A) → Keeps m → (s : State) → IsGood s → IsGood (m s).1
Keeps-state m h s g = keeps-Outcome (m s) (h.ensures.at s g)
