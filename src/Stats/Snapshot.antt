-- ===== src/Stats/Snapshot.antt =====
-- The snapshot of src/stats/stats.service.ts. Each statement is one SQL command: it groups the
-- rows of a table by the user's address, and inserts or updates that user's row of `Stats`. SQL
-- fixes no order of the groups; here they come in the order of their first rows.
use backend.Common.{
  ℕ, suc, ◌+◌, ◌*◌, ◌/◌, Option, none, some, Bool, true, false, ◌&&◌, List, [], ◌∷◌, ◌++◌, map, ltb,
  ◌==◌, if◌then◌else◌, keep, tally, change, distinct,
}
use backend.Schema.{
  Result, Address, BreedPair, BreedSlot, EventServiceLog, Stats, StatsCounts, burn_gen0,
  is_completed, is_indoor, is_item, superweed_serum, farmer_pass, canceled, failed,
}
use backend.Db.{Rows, State, Exec, ◌>>◌}

-- A row that is inserted with nothing but its address.
abbrev pub no_counts : StatsCounts
no_counts = record {
  total_success = none;
  total_failure = none;
  total_cancels = none;
  total_hours = none;
  bp_for_breeding = none;
  bp_for_land_upgrade = none;
  burned_buds = none;
}

abbrev pub is_stats_of : Address → Stats → Bool
is_stats_of a r = r.address == a

-- `INSERT INTO "Stats" … ON CONFLICT ("address") DO UPDATE SET …` for one address. The number of
-- the row is taken from the sequence in both cases.
unfoldable pub insert_or_update : (StatsCounts → StatsCounts) → Address → Rows Stats → Rows Stats
insert_or_update set a t = record {
  rows =
      if ltb 0 (tally (is_stats_of a) t.rows)
      then change (is_stats_of a) (λ r. record r { counts = set r.counts }) t.rows
      else t.rows ++ record { id = t.next; address = a; counts = set no_counts } ∷ [];
  next = suc t.next;
}

unfoldable pub upsert_all :
    (Address → StatsCounts → StatsCounts) → List Address → Rows Stats → Rows Stats
unfolding insert_or_update
upsert_all set [] t = t
upsert_all set (a ∷ rest) t = upsert_all set rest (insert_or_update (set a) a t)

-- One statement: the rows that fit, grouped by the address.
unfoldable pub upsert_groups :
    {R : Type 0}
    → (R → Address)
    → (R → Bool)
    → (Address → StatsCounts → StatsCounts)
    → List R
    → Rows Stats
    → Rows Stats
unfolding upsert_all
upsert_groups owner fits set rows t = upsert_all set (distinct (map owner (keep fits rows))) t

-- `count(*)` of one group.
abbrev pub count_of : {R : Type 0} → (R → Address) → (R → Bool) → List R → Address → ℕ
count_of owner fits rows a = tally (λ r. fits r && owner r == a) rows

-- `SUM(…)` of one group.
abbrev pub sum_of : {R : Type 0} → (R → Address) → (R → ℕ) → List R → Address → ℕ
sum_of owner amount [] a = 0
sum_of owner amount (r ∷ rs) a = (if owner r == a then amount r else 0) + sum_of owner amount rs a

abbrev pub is_failed_at_target : BreedPair → Bool
is_failed_at_target p = elim p.status [ failed ↦ true | _ ↦ false ] && p.current_level == 5

abbrev pub is_canceled : BreedPair → Bool
is_canceled p = elim p.status [ canceled ↦ true | _ ↦ false ]

abbrev pub is_burn : EventServiceLog → Bool
is_burn l = elim l.type [ burn_gen0 ↦ true | _ ↦ false ]

-- The two `CASE`s of `snapshotTotalBreedingHours`, in tenths of an hour; the instant is
-- 2022-06-06 00:00:00.
unfoldable pub tenths_of_hours : BreedPair → ℕ
tenths_of_hours p =
    p.current_level
    * (if ltb p.created_at 1654473600000 then 48 else 24)
    * (if is_item p.game_item_id farmer_pass
        then 5
        else if is_item p.game_item_id superweed_serum
        then 8
        else 10)

-- What a number with one decimal becomes in an integer column.
abbrev pub rounded : ℕ → ℕ
rounded tenths = (tenths + 5) / 10

abbrev pub or_zero : Option ℕ → ℕ
or_zero none = 0
or_zero (some n) = n

abbrev pub pair_owner : BreedPair → Address
pair_owner p = p.user_address

abbrev pub slot_owner : BreedSlot → Address
slot_owner x = x.user_address

abbrev pub log_owner : EventServiceLog → Address
log_owner l = l.address

abbrev pub any_row : {R : Type 0} → R → Bool
any_row r = true

abbrev pub completed_pair : BreedPair → Bool
completed_pair p = is_completed p.status

abbrev pub indoor_slot : BreedSlot → Bool
indoor_slot x = is_indoor x.type

-- A statement on the statistics.
abbrev pub on_stats : (State → Rows Stats → Rows Stats) → Exec (Unit {0})
on_stats f s = (Result.ok tt, record s { stats = f s s.stats })

-- `snapshotSuccessfulBreedings`.
unfoldable pub snapshot_successful_breedings : Exec (Unit {0})
unfolding upsert_groups
snapshot_successful_breedings = on_stats λ s.
    upsert_groups pair_owner completed_pair
      (λ a c. record c { total_success = some (count_of pair_owner completed_pair s.pairs.rows a) })
      s.pairs.rows

-- `snapshotFailedBreedings`.
unfoldable pub snapshot_failed_breedings : Exec (Unit {0})
unfolding upsert_groups
snapshot_failed_breedings = on_stats λ s.
    upsert_groups pair_owner is_failed_at_target
      (λ a c. record c {
        total_failure = some (count_of pair_owner is_failed_at_target s.pairs.rows a);
      })
      s.pairs.rows

-- `snapshotCanceledBreedings`.
unfoldable pub snapshot_canceled_breedings : Exec (Unit {0})
unfolding upsert_groups
snapshot_canceled_breedings = on_stats λ s.
    upsert_groups pair_owner is_canceled
      (λ a c. record c { total_cancels = some (count_of pair_owner is_canceled s.pairs.rows a) })
      s.pairs.rows

-- `snapshotTotalBreedingHours`.
unfoldable pub snapshot_total_breeding_hours : Exec (Unit {0})
unfolding upsert_groups tenths_of_hours
snapshot_total_breeding_hours = on_stats λ s.
    upsert_groups pair_owner any_row
      (λ a c. record c {
        total_hours = some (rounded (sum_of pair_owner tenths_of_hours s.pairs.rows a));
      })
      s.pairs.rows

-- `snapshotSpentBPsForBreeding`: it adds to what the row has.
unfoldable pub snapshot_spent_bps_for_breeding : Exec (Unit {0})
unfolding upsert_groups
snapshot_spent_bps_for_breeding = on_stats λ s.
    upsert_groups pair_owner any_row
      (λ a c. record c {
        bp_for_breeding = some (
            or_zero c.bp_for_breeding
            + sum_of pair_owner (λ p. p.current_level * 15) s.pairs.rows a);
      })
      s.pairs.rows

-- `snapshotSpentBpsForLandUpgrade`.
unfoldable pub snapshot_spent_bps_for_land_upgrade : Exec (Unit {0})
unfolding upsert_groups
snapshot_spent_bps_for_land_upgrade = on_stats λ s.
    upsert_groups slot_owner indoor_slot
      (λ a c. record c {
        bp_for_land_upgrade = some (count_of slot_owner indoor_slot s.slots.rows a * 69);
      })
      s.slots.rows

-- `snapshotBurnedG0Buds`.
unfoldable pub snapshot_burned_g0_buds : Exec (Unit {0})
unfolding upsert_groups
snapshot_burned_g0_buds = on_stats λ s.
    upsert_groups log_owner is_burn
      (λ a c. record c { burned_buds = some (count_of log_owner is_burn s.logs a * 2) }) s.logs

-- `TRUNCATE TABLE public."Stats" RESTART IDENTITY`.
abbrev pub truncate_stats : Exec (Unit {0})
truncate_stats = on_stats λ s t. record { rows = []; next = 1 }

-- `snapshotBreeding`.
unfoldable pub snapshot_breeding : Exec (Unit {0})
unfolding snapshot_successful_breedings snapshot_failed_breedings snapshot_canceled_breedings
    snapshot_total_breeding_hours snapshot_spent_bps_for_breeding
    snapshot_spent_bps_for_land_upgrade snapshot_burned_g0_buds
snapshot_breeding =
    truncate_stats >> snapshot_successful_breedings >> snapshot_failed_breedings
    >> snapshot_canceled_breedings >> snapshot_total_breeding_hours
    >> snapshot_spent_bps_for_breeding >> snapshot_spent_bps_for_land_upgrade
    >> snapshot_burned_g0_buds
