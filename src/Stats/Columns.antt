-- ===== src/Stats/Columns.antt =====
-- The statements of the snapshot, column by column.
use backend.Common.{ℕ, ◌+◌, ◌≡◌, refl, ap, ◌∙◌, some, none, Bool, true, false, if◌then◌else◌}
use backend.Schema.{StatsCounts}
use backend.Stats.Snapshot.{no_counts, or_zero}

-- One column that a statement sets or leaves.
module _ (n : ℕ) (c : StatsCounts) where
  set-total_success :
      (b : Bool)
      → (if b then record c { total_success = some n } else c)
        ≡ record c { total_success = if b then some n else c.total_success }
  set-total_success true = refl
  set-total_success false = refl

  set-total_failure :
      (b : Bool)
      → (if b then record c { total_failure = some n } else c)
        ≡ record c { total_failure = if b then some n else c.total_failure }
  set-total_failure true = refl
  set-total_failure false = refl

  set-total_cancels :
      (b : Bool)
      → (if b then record c { total_cancels = some n } else c)
        ≡ record c { total_cancels = if b then some n else c.total_cancels }
  set-total_cancels true = refl
  set-total_cancels false = refl

  set-total_hours :
      (b : Bool)
      → (if b then record c { total_hours = some n } else c)
        ≡ record c { total_hours = if b then some n else c.total_hours }
  set-total_hours true = refl
  set-total_hours false = refl

  set-bp_for_breeding :
      (b : Bool)
      → (if b then record c { bp_for_breeding = some (or_zero c.bp_for_breeding + n) } else c)
        ≡ record c {
          bp_for_breeding = if b then some (or_zero c.bp_for_breeding + n) else c.bp_for_breeding;
        }
  set-bp_for_breeding true = refl
  set-bp_for_breeding false = refl

  set-bp_for_land_upgrade :
      (b : Bool)
      → (if b then record c { bp_for_land_upgrade = some n } else c)
        ≡ record c { bp_for_land_upgrade = if b then some n else c.bp_for_land_upgrade }
  set-bp_for_land_upgrade true = refl
  set-bp_for_land_upgrade false = refl

  set-burned_buds :
      (b : Bool)
      → (if b then record c { burned_buds = some n } else c)
        ≡ record c { burned_buds = if b then some n else c.burned_buds }
  set-burned_buds true = refl
  set-burned_buds false = refl

-- The seven statements on counts that were all null.
pub seven :
    (b1 b2 b3 b4 b5 b6 b7 : Bool) (n1 n2 n3 n4 n5 n6 n7 : ℕ)
    → let c1 = (if b1 then record no_counts { total_success = some n1 } else no_counts) in
      let c2 = (if b2 then record c1 { total_failure = some n2 } else c1) in
      let c3 = (if b3 then record c2 { total_cancels = some n3 } else c2) in
      let c4 = (if b4 then record c3 { total_hours = some n4 } else c3) in
      let c5 =
        (if b5
          then record c4 { bp_for_breeding = some (or_zero c4.bp_for_breeding + n5) }
          else c4) in
      let c6 = (if b6 then record c5 { bp_for_land_upgrade = some n6 } else c5) in
      (if b7 then record c6 { burned_buds = some n7 } else c6) ≡ record {
        total_success = if b1 then some n1 else none;
        total_failure = if b2 then some n2 else none;
        total_cancels = if b3 then some n3 else none;
        total_hours = if b4 then some n4 else none;
        bp_for_breeding = if b5 then some (0 + n5) else none;
        bp_for_land_upgrade = if b6 then some n6 else none;
        burned_buds = if b7 then some n7 else none;
      }
seven b1 b2 b3 b4 b5 b6 b7 n1 n2 n3 n4 n5 n6 n7 =
    let d1 : StatsCounts = record no_counts { total_success = if b1 then some n1 else none } in
    let d2 : StatsCounts = record d1 { total_failure = if b2 then some n2 else none } in
    let d3 : StatsCounts = record d2 { total_cancels = if b3 then some n3 else none } in
    let d4 : StatsCounts = record d3 { total_hours = if b4 then some n4 else none } in
    let d5 : StatsCounts = record d4 { bp_for_breeding = if b5 then some (0 + n5) else none } in
    let d6 : StatsCounts = record d5 { bp_for_land_upgrade = if b6 then some n6 else none } in
    let e1 = set-total_success n1 no_counts b1 in
    let e2 =
      ap (λ c. if b2 then record c { total_failure = some n2 } else c) e1
      ∙ set-total_failure n2 d1 b2 in
    let e3 =
      ap (λ c. if b3 then record c { total_cancels = some n3 } else c) e2
      ∙ set-total_cancels n3 d2 b3 in
    let e4 =
      ap (λ c. if b4 then record c { total_hours = some n4 } else c) e3
      ∙ set-total_hours n4 d3 b4 in
    let e5 =
      ap
        (λ c.
          if b5 then record c { bp_for_breeding = some (or_zero c.bp_for_breeding + n5) } else c)
        e4
      ∙ set-bp_for_breeding n5 d4 b5 in
    let e6 =
      ap (λ c. if b6 then record c { bp_for_land_upgrade = some n6 } else c) e5
      ∙ set-bp_for_land_upgrade n6 d5 b6 in
    ap (λ c. if b7 then record c { burned_buds = some n7 } else c) e6 ∙ set-burned_buds n7 d6 b7
