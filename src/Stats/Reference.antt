-- ===== src/Stats/Reference.antt =====
-- What the snapshot of src/stats/stats.service.ts leaves: every user's counts, by the user's own
-- sessions, slots and burns.
use backend.Common.{
  ℕ, ◌+◌, ◌*◌, ◌≤◌, ◌≡◌, refl, sym, ap, ◌∙◌, Option, none, some, Bool, ◌||◌, List, [], ◌∷◌, arith,
  ltb, ◌==◌, if◌then◌else◌, keep, tally, length, length-keep,
}
use backend.Common.Counting.{tally-keep}
use backend.Schema.{Address, BreedPair, BreedSlot, EventServiceLog, StatsCounts}
use backend.Db.{State}
use backend.Stats.Snapshot.{
  count_of, sum_of, is_failed_at_target, is_canceled, is_burn, tenths_of_hours, rounded,
  completed_pair, indoor_slot, any_row, pair_owner, slot_owner, log_owner, snapshot_breeding,
}
use backend.Stats.Upserts.{counts_at, rows_of}
use backend.Stats.Statements.{grouped}
use backend.Stats.Presence.{one_if, rows_after}

-- A user's own rows.
abbrev pub sessions_of : Address → State → List BreedPair
sessions_of a s = keep (λ p. p.user_address == a) s.pairs.rows

abbrev pub slots_of : Address → State → List BreedSlot
slots_of a s = keep (λ x. x.user_address == a) s.slots.rows

abbrev pub logs_of : Address → State → List EventServiceLog
logs_of a s = keep (λ l. l.address == a) s.logs

abbrev pub total : {R : Type 0} → (R → ℕ) → List R → ℕ
total amount [] = 0
total amount (r ∷ rs) = amount r + total amount rs

-- `null` where there is nothing to count.
abbrev pub counted : ℕ → ℕ → Option ℕ
counted rows value = if ltb 0 rows then some value else none

-- The counts of a user.
abbrev pub counts_of : Address → State → StatsCounts
counts_of a s =
    let successes = tally completed_pair (sessions_of a s) in
    let failures = tally is_failed_at_target (sessions_of a s) in
    let cancels = tally is_canceled (sessions_of a s) in
    let sessions = length (sessions_of a s) in
    let upgrades = tally indoor_slot (slots_of a s) in
    let burns = tally is_burn (logs_of a s) in
    record {
      total_success = counted successes successes;
      total_failure = counted failures failures;
      total_cancels = counted cancels cancels;
      total_hours = counted sessions (rounded (total tenths_of_hours (sessions_of a s)));
      bp_for_breeding = counted sessions (total (λ p. p.current_level * 15) (sessions_of a s));
      bp_for_land_upgrade = counted upgrades (upgrades * 69);
      burned_buds = counted burns (burns * 2);
    }

module _ {R : Type 0} where
  count_of-keep :
      (owner : R → Address) (fits : R → Bool) (rows : List R) (a : Address)
      → count_of owner fits rows a ≡ tally fits (keep (λ r. owner r == a) rows)
  count_of-keep owner fits rows a = sym (tally-keep fits (λ r. owner r == a) rows)

  count_of-length :
      (owner : R → Address) (rows : List R) (a : Address)
      → count_of owner any_row rows a ≡ length (keep (λ r. owner r == a) rows)
  count_of-length owner rows a = sym (length-keep (λ r. owner r == a) rows)

  sum_of-keep :
      (owner : R → Address) (amount : R → ℕ) (rows : List R) (a : Address)
      → sum_of owner amount rows a ≡ total amount (keep (λ r. owner r == a) rows)
  sum_of-keep owner amount [] a = refl
  sum_of-keep owner amount (r ∷ rows) a = ground (arith, sum_of-keep owner amount rows a)

zero_plus : (n : ℕ) → 0 + n ≡ n
zero_plus n = omega arith

tally_bound : {R : Type 0} (w : R → Bool) (rows : List R) → tally w rows ≤ length rows
tally_bound w [] = omega arith
tally_bound w (r ∷ rows) = ground (arith, tally_bound w rows)

-- The sessions of each kind are among the sessions.
any_of :
    (a b c n u k : ℕ)
    → a ≤ n
    → b ≤ n
    → c ≤ n
    → (ltb 0 a || ltb 0 b || ltb 0 c || ltb 0 n || ltb 0 n || ltb 0 u || ltb 0 k)
      ≡ (ltb 0 n || ltb 0 u || ltb 0 k)
any_of a b c n u k ha hb hc = ground arith

-- Whether there is anything to count of a user.
abbrev pub is_active : Address → State → Bool
is_active a s =
    ltb 0 (length (sessions_of a s))
    || ltb 0 (tally indoor_slot (slots_of a s))
    || ltb 0 (tally is_burn (logs_of a s))

-- After the hourly snapshot every address has at most one row, and has one exactly if it has a
-- session, an indoor slot or a logged burn; the row's counts are those of the address's own
-- sessions, slots and burns, with null where there is nothing to count.
pub snapshot_breeding-counts_of :
    (a : Address) (s : State)
    → let t = (snapshot_breeding s).1.stats in
      (counts_at a t ≡ counts_of a s) × (rows_of a t ≡ one_if (is_active a s))
snapshot_breeding-counts_of a s = (
  grouped a s
      ∙ rw (count_of-keep pair_owner completed_pair s.pairs.rows a) rw
          (count_of-keep pair_owner is_failed_at_target s.pairs.rows a) rw
          (count_of-keep pair_owner is_canceled s.pairs.rows a) rw
          (count_of-length pair_owner s.pairs.rows a) rw
          (sum_of-keep pair_owner tenths_of_hours s.pairs.rows a) rw
          (sum_of-keep pair_owner (λ p. p.current_level * 15) s.pairs.rows a) rw
          (count_of-keep slot_owner indoor_slot s.slots.rows a) rw
          (count_of-keep log_owner is_burn s.logs a) rw
          (zero_plus (total (λ p. p.current_level * 15) (sessions_of a s))) refl,
  rows_after a s
      ∙ ap one_if (
          rw (count_of-keep pair_owner completed_pair s.pairs.rows a) rw
            (count_of-keep pair_owner is_failed_at_target s.pairs.rows a) rw
            (count_of-keep pair_owner is_canceled s.pairs.rows a) rw
            (count_of-length pair_owner s.pairs.rows a) rw
            (count_of-keep slot_owner indoor_slot s.slots.rows a) rw
            (count_of-keep log_owner is_burn s.logs a)
            (any_of _ _ _ _ _ _ (tally_bound completed_pair (sessions_of a s))
              (tally_bound is_failed_at_target (sessions_of a s))
              (tally_bound is_canceled (sessions_of a s)))),
)
