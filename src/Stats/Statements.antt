-- ===== src/Stats/Statements.antt =====
-- The statements of the snapshot, one by one, and in their order.
use backend.Common.{ℕ, ◌+◌, ◌*◌, ◌≡◌, ap, ◌∙◌, none, some, Bool, [], ltb, if◌then◌else◌}
use backend.Schema.{Address, StatsCounts}
use backend.Db.{State}
use backend.Stats.Snapshot.{
  count_of, sum_of, is_failed_at_target, is_canceled, is_burn, tenths_of_hours, rounded,
  completed_pair, indoor_slot, any_row, pair_owner, slot_owner, log_owner, or_zero,
  snapshot_breeding, snapshot_successful_breedings, snapshot_failed_breedings,
  snapshot_canceled_breedings, snapshot_total_breeding_hours, snapshot_spent_bps_for_breeding,
  snapshot_spent_bps_for_land_upgrade, snapshot_burned_g0_buds,
}
use backend.Stats.Upserts.{counts_at, counts_at-upsert_groups}
use backend.Stats.Columns.{seven}

-- What the statements count of a user, group by group.
abbrev pub successes : Address → State → ℕ
successes a s = count_of pair_owner completed_pair s.pairs.rows a

abbrev pub failures : Address → State → ℕ
failures a s = count_of pair_owner is_failed_at_target s.pairs.rows a

abbrev pub cancels : Address → State → ℕ
cancels a s = count_of pair_owner is_canceled s.pairs.rows a

abbrev pub sessions : Address → State → ℕ
sessions a s = count_of pair_owner any_row s.pairs.rows a

abbrev pub hours : Address → State → ℕ
hours a s = rounded (sum_of pair_owner tenths_of_hours s.pairs.rows a)

abbrev pub points : Address → State → ℕ
points a s = sum_of pair_owner (λ p. p.current_level * 15) s.pairs.rows a

abbrev pub upgrades : Address → State → ℕ
upgrades a s = count_of slot_owner indoor_slot s.slots.rows a

abbrev pub burns : Address → State → ℕ
burns a s = count_of log_owner is_burn s.logs a

-- What they set.
abbrev set_successes : ℕ → StatsCounts → StatsCounts
set_successes n c = record c { total_success = some n }

abbrev set_failures : ℕ → StatsCounts → StatsCounts
set_failures n c = record c { total_failure = some n }

abbrev set_cancels : ℕ → StatsCounts → StatsCounts
set_cancels n c = record c { total_cancels = some n }

abbrev set_hours : ℕ → StatsCounts → StatsCounts
set_hours n c = record c { total_hours = some n }

abbrev add_points : ℕ → StatsCounts → StatsCounts
add_points n c = record c { bp_for_breeding = some (or_zero c.bp_for_breeding + n) }

abbrev set_upgrades : ℕ → StatsCounts → StatsCounts
set_upgrades n c = record c { bp_for_land_upgrade = some n }

abbrev set_burns : ℕ → StatsCounts → StatsCounts
set_burns n c = record c { burned_buds = some n }

-- What one statement does to a user's counts.
abbrev step : Bool → (StatsCounts → StatsCounts) → StatsCounts → StatsCounts
step b f c = if b then f c else c

module _ (a : Address) (s : State) where
  counts_at-snapshot_successful_breedings :
      counts_at a (snapshot_successful_breedings s).1.stats
      ≡ step (ltb 0 (successes a s)) (set_successes (successes a s)) (counts_at a s.stats)
  unfolding snapshot_successful_breedings
  counts_at-snapshot_successful_breedings =
      counts_at-upsert_groups pair_owner completed_pair _ s.pairs.rows a s.stats

  counts_at-snapshot_failed_breedings :
      counts_at a (snapshot_failed_breedings s).1.stats
      ≡ step (ltb 0 (failures a s)) (set_failures (failures a s)) (counts_at a s.stats)
  unfolding snapshot_failed_breedings
  counts_at-snapshot_failed_breedings =
      counts_at-upsert_groups pair_owner is_failed_at_target _ s.pairs.rows a s.stats

  counts_at-snapshot_canceled_breedings :
      counts_at a (snapshot_canceled_breedings s).1.stats
      ≡ step (ltb 0 (cancels a s)) (set_cancels (cancels a s)) (counts_at a s.stats)
  unfolding snapshot_canceled_breedings
  counts_at-snapshot_canceled_breedings =
      counts_at-upsert_groups pair_owner is_canceled _ s.pairs.rows a s.stats

  counts_at-snapshot_total_breeding_hours :
      counts_at a (snapshot_total_breeding_hours s).1.stats
      ≡ step (ltb 0 (sessions a s)) (set_hours (hours a s)) (counts_at a s.stats)
  unfolding snapshot_total_breeding_hours
  counts_at-snapshot_total_breeding_hours =
      counts_at-upsert_groups pair_owner any_row _ s.pairs.rows a s.stats

  counts_at-snapshot_spent_bps_for_breeding :
      counts_at a (snapshot_spent_bps_for_breeding s).1.stats
      ≡ step (ltb 0 (sessions a s)) (add_points (points a s)) (counts_at a s.stats)
  unfolding snapshot_spent_bps_for_breeding
  counts_at-snapshot_spent_bps_for_breeding =
      counts_at-upsert_groups pair_owner any_row _ s.pairs.rows a s.stats

  counts_at-snapshot_spent_bps_for_land_upgrade :
      counts_at a (snapshot_spent_bps_for_land_upgrade s).1.stats
      ≡ step (ltb 0 (upgrades a s)) (set_upgrades (upgrades a s * 69)) (counts_at a s.stats)
  unfolding snapshot_spent_bps_for_land_upgrade
  counts_at-snapshot_spent_bps_for_land_upgrade =
      counts_at-upsert_groups slot_owner indoor_slot _ s.slots.rows a s.stats

  counts_at-snapshot_burned_g0_buds :
      counts_at a (snapshot_burned_g0_buds s).1.stats
      ≡ step (ltb 0 (burns a s)) (set_burns (burns a s * 2)) (counts_at a s.stats)
  unfolding snapshot_burned_g0_buds
  counts_at-snapshot_burned_g0_buds = counts_at-upsert_groups log_owner is_burn _ s.logs a s.stats

module _ (a : Address) (s : State) where
  -- The counts after the seven statements, by grouped sums.
  pub grouped : counts_at a (snapshot_breeding s).1.stats ≡ record {
    total_success = if ltb 0 (successes a s) then some (successes a s) else none;
    total_failure = if ltb 0 (failures a s) then some (failures a s) else none;
    total_cancels = if ltb 0 (cancels a s) then some (cancels a s) else none;
    total_hours = if ltb 0 (sessions a s) then some (hours a s) else none;
    bp_for_breeding = if ltb 0 (sessions a s) then some (0 + points a s) else none;
    bp_for_land_upgrade = if ltb 0 (upgrades a s) then some (upgrades a s * 69) else none;
    burned_buds = if ltb 0 (burns a s) then some (burns a s * 2) else none;
  }
  unfolding snapshot_breeding snapshot_successful_breedings snapshot_failed_breedings
      snapshot_canceled_breedings snapshot_total_breeding_hours snapshot_spent_bps_for_breeding
      snapshot_spent_bps_for_land_upgrade snapshot_burned_g0_buds
  grouped =
      let s0 : State = record s { stats = record { rows = []; next = 1 } } in
      let s1 : State = (snapshot_successful_breedings s0).1 in
      let s2 : State = (snapshot_failed_breedings s1).1 in
      let s3 : State = (snapshot_canceled_breedings s2).1 in
      let s4 : State = (snapshot_total_breeding_hours s3).1 in
      let s5 : State = (snapshot_spent_bps_for_breeding s4).1 in
      let s6 : State = (snapshot_spent_bps_for_land_upgrade s5).1 in
      let s7 : State = (snapshot_burned_g0_buds s6).1 in
      let e1 = counts_at-snapshot_successful_breedings a s0 in
      let e2 =
        counts_at-snapshot_failed_breedings a s1
        ∙ ap (step (ltb 0 (failures a s)) (set_failures (failures a s))) e1 in
      let e3 =
        counts_at-snapshot_canceled_breedings a s2
        ∙ ap (step (ltb 0 (cancels a s)) (set_cancels (cancels a s))) e2 in
      let e4 =
        counts_at-snapshot_total_breeding_hours a s3
        ∙ ap (step (ltb 0 (sessions a s)) (set_hours (hours a s))) e3 in
      let e5 =
        counts_at-snapshot_spent_bps_for_breeding a s4
        ∙ ap (step (ltb 0 (sessions a s)) (add_points (points a s))) e4 in
      let e6 =
        counts_at-snapshot_spent_bps_for_land_upgrade a s5
        ∙ ap (step (ltb 0 (upgrades a s)) (set_upgrades (upgrades a s * 69))) e5 in
      let e7 =
        counts_at-snapshot_burned_g0_buds a s6
        ∙ ap (step (ltb 0 (burns a s)) (set_burns (burns a s * 2))) e6 in
      e7
      ∙ seven (ltb 0 (successes a s)) (ltb 0 (failures a s)) (ltb 0 (cancels a s))
          (ltb 0 (sessions a s)) (ltb 0 (sessions a s)) (ltb 0 (upgrades a s)) (ltb 0 (burns a s))
          (successes a s) (failures a s) (cancels a s) (hours a s) (points a s) (upgrades a s * 69)
          (burns a s * 2)
