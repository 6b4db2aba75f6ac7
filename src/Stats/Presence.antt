-- ===== src/Stats/Presence.antt =====
-- Who has a row after the snapshot, statement by statement.
use backend.Common.{
  ℕ, ◌≡◌, refl, ap, ◌∙◌, Bool, true, false, ◌&&◌, ◌||◌, not, [], ltb, if◌then◌else◌,
}
use backend.Schema.{Address}
use backend.Db.{State}
use backend.Stats.Snapshot.{
  is_failed_at_target, is_canceled, is_burn, completed_pair, indoor_slot, any_row, pair_owner,
  slot_owner, log_owner, snapshot_breeding, snapshot_successful_breedings,
  snapshot_failed_breedings, snapshot_canceled_breedings, snapshot_total_breeding_hours,
  snapshot_spent_bps_for_breeding, snapshot_spent_bps_for_land_upgrade, snapshot_burned_g0_buds,
}
use backend.Stats.Upserts.{rows_of, rows_of-upsert_groups}
use backend.Stats.Statements.{successes, failures, cancels, sessions, upgrades, burns}

-- The number of a user's rows, where it is 0 or 1.
abbrev pub one_if : Bool → ℕ
one_if b = if b then 1 else 0

abbrev rows_step : Bool → ℕ → ℕ
rows_step b n = if b && not (ltb 0 n) then 1 else n

one_more : (b c : Bool) → rows_step b (one_if c) ≡ one_if (c || b)
one_more true true = refl
one_more true false = refl
one_more false true = refl
one_more false false = refl

module _ (a : Address) (s : State) where
  rows_of-snapshot_successful_breedings :
      rows_of a (snapshot_successful_breedings s).1.stats
      ≡ rows_step (ltb 0 (successes a s)) (rows_of a s.stats)
  unfolding snapshot_successful_breedings
  rows_of-snapshot_successful_breedings =
      rows_of-upsert_groups pair_owner completed_pair _ s.pairs.rows a s.stats

  rows_of-snapshot_failed_breedings :
      rows_of a (snapshot_failed_breedings s).1.stats
      ≡ rows_step (ltb 0 (failures a s)) (rows_of a s.stats)
  unfolding snapshot_failed_breedings
  rows_of-snapshot_failed_breedings =
      rows_of-upsert_groups pair_owner is_failed_at_target _ s.pairs.rows a s.stats

  rows_of-snapshot_canceled_breedings :
      rows_of a (snapshot_canceled_breedings s).1.stats
      ≡ rows_step (ltb 0 (cancels a s)) (rows_of a s.stats)
  unfolding snapshot_canceled_breedings
  rows_of-snapshot_canceled_breedings =
      rows_of-upsert_groups pair_owner is_canceled _ s.pairs.rows a s.stats

  rows_of-snapshot_total_breeding_hours :
      rows_of a (snapshot_total_breeding_hours s).1.stats
      ≡ rows_step (ltb 0 (sessions a s)) (rows_of a s.stats)
  unfolding snapshot_total_breeding_hours
  rows_of-snapshot_total_breeding_hours =
      rows_of-upsert_groups pair_owner any_row _ s.pairs.rows a s.stats

  rows_of-snapshot_spent_bps_for_breeding :
      rows_of a (snapshot_spent_bps_for_breeding s).1.stats
      ≡ rows_step (ltb 0 (sessions a s)) (rows_of a s.stats)
  unfolding snapshot_spent_bps_for_breeding
  rows_of-snapshot_spent_bps_for_breeding =
      rows_of-upsert_groups pair_owner any_row _ s.pairs.rows a s.stats

  rows_of-snapshot_spent_bps_for_land_upgrade :
      rows_of a (snapshot_spent_bps_for_land_upgrade s).1.stats
      ≡ rows_step (ltb 0 (upgrades a s)) (rows_of a s.stats)
  unfolding snapshot_spent_bps_for_land_upgrade
  rows_of-snapshot_spent_bps_for_land_upgrade =
      rows_of-upsert_groups slot_owner indoor_slot _ s.slots.rows a s.stats

  rows_of-snapshot_burned_g0_buds :
      rows_of a (snapshot_burned_g0_buds s).1.stats
      ≡ rows_step (ltb 0 (burns a s)) (rows_of a s.stats)
  unfolding snapshot_burned_g0_buds
  rows_of-snapshot_burned_g0_buds = rows_of-upsert_groups log_owner is_burn _ s.logs a s.stats

module _ (a : Address) (s : State) where
  -- A user has a row where one of the seven statements has one, and never two.
  pub rows_after :
      rows_of a (snapshot_breeding s).1.stats
      ≡ one_if (
          ltb 0 (successes a s)
          || ltb 0 (failures a s)
          || ltb 0 (cancels a s)
          || ltb 0 (sessions a s)
          || ltb 0 (sessions a s)
          || ltb 0 (upgrades a s)
          || ltb 0 (burns a s))
  unfolding snapshot_breeding snapshot_successful_breedings snapshot_failed_breedings
      snapshot_canceled_breedings snapshot_total_breeding_hours snapshot_spent_bps_for_breeding
      snapshot_spent_bps_for_land_upgrade snapshot_burned_g0_buds
  rows_after =
      let s0 : State = record s { stats = record { rows = []; next = 1 } } in
      let s1 : State = (snapshot_successful_breedings s0).1 in
      let s2 : State = (snapshot_failed_breedings s1).1 in
      let s3 : State = (snapshot_canceled_breedings s2).1 in
      let s4 : State = (snapshot_total_breeding_hours s3).1 in
      let s5 : State = (snapshot_spent_bps_for_breeding s4).1 in
      let s6 : State = (snapshot_spent_bps_for_land_upgrade s5).1 in
      let s7 : State = (snapshot_burned_g0_buds s6).1 in
      let e1 =
        rows_of-snapshot_successful_breedings a s0 ∙ one_more (ltb 0 (successes a s)) false in
      let e2 =
        rows_of-snapshot_failed_breedings a s1
        ∙ ap (rows_step (ltb 0 (failures a s))) e1
        ∙ one_more (ltb 0 (failures a s)) (ltb 0 (successes a s)) in
      let e3 =
        rows_of-snapshot_canceled_breedings a s2
        ∙ ap (rows_step (ltb 0 (cancels a s))) e2
        ∙ one_more (ltb 0 (cancels a s)) (ltb 0 (successes a s) || ltb 0 (failures a s)) in
      let e4 =
        rows_of-snapshot_total_breeding_hours a s3
        ∙ ap (rows_step (ltb 0 (sessions a s))) e3
        ∙ one_more (ltb 0 (sessions a s))
            (ltb 0 (successes a s) || ltb 0 (failures a s) || ltb 0 (cancels a s)) in
      let e5 =
        rows_of-snapshot_spent_bps_for_breeding a s4
        ∙ ap (rows_step (ltb 0 (sessions a s))) e4
        ∙ one_more (ltb 0 (sessions a s)) (
            ltb 0 (successes a s)
            || ltb 0 (failures a s)
            || ltb 0 (cancels a s)
            || ltb 0 (sessions a s)) in
      let e6 =
        rows_of-snapshot_spent_bps_for_land_upgrade a s5
        ∙ ap (rows_step (ltb 0 (upgrades a s))) e5
        ∙ one_more (ltb 0 (upgrades a s)) (
            ltb 0 (successes a s)
            || ltb 0 (failures a s)
            || ltb 0 (cancels a s)
            || ltb 0 (sessions a s)
            || ltb 0 (sessions a s)) in
      let e7 =
        rows_of-snapshot_burned_g0_buds a s6
        ∙ ap (rows_step (ltb 0 (burns a s))) e6
        ∙ one_more (ltb 0 (burns a s)) (
            ltb 0 (successes a s)
            || ltb 0 (failures a s)
            || ltb 0 (cancels a s)
            || ltb 0 (sessions a s)
            || ltb 0 (sessions a s)
            || ltb 0 (upgrades a s)) in
      e7
