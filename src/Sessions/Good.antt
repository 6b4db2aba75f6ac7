-- ===== src/Sessions/Good.antt =====
-- The invariant of pairs and slots, by counts.
use backend.Common.{ℕ, ◌≤◌, ◌≡◌, Bool, ◌&&◌, List, ◌==◌, tally}
use backend.Common.Int.{ℤ, ◌==ℤ◌}
use backend.Schema.{BreedPair, BreedSlot, is_paired}
use backend.Db.{Rows, State}

-- How many sessions run on a slot, with a male bud, with a female bud.
abbrev pub on_slot : ℕ → BreedPair → Bool
on_slot i p = is_paired p.status && p.slot_id == i

abbrev pub with_male : ℤ → BreedPair → Bool
with_male b p = is_paired p.status && p.male_bud_id ==ℤ b

abbrev pub with_female : ℤ → BreedPair → Bool
with_female b p = is_paired p.status && p.female_bud_id ==ℤ b

abbrev pub is_row : ℕ → BreedSlot → Bool
is_row i x = x.id == i

abbrev pub is_used_row : ℕ → BreedSlot → Bool
is_used_row i x = x.id == i && x.is_used

-- Sessions run on used slots alone and at most one on each, a slot's id is given to one row, and a
-- Gen0 bud is in at most one session in its role.
pub record Good (ps : List BreedPair) (t : Rows BreedSlot) : Type 0 where
  pub one_row : (i : ℕ) → tally (is_row i) t.rows ≤ 1
  pub occupied : (i : ℕ) → tally (on_slot i) ps ≤ tally (is_used_row i) t.rows
  pub male_once : (b : ℤ) → tally (with_male b) ps ≤ 1
  pub female_once : (b : ℤ) → tally (with_female b) ps ≤ 1
  pub fresh : (i : ℕ) → t.next ≤ i → tally (is_row i) t.rows ≡ 0

abbrev pub IsGood : State → Type 0
IsGood s = Good s.pairs.rows s.slots
