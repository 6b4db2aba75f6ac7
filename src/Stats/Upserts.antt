-- ===== src/Stats/Upserts.antt =====
-- What a statement of the snapshot does to one user's counts.
use backend.Common.{
  ℕ, ◌+◌, ◌≤◌, ◌≡◌, refl, ap, ◌∙◌, inl, inr, Option, none, some, Bool, Bool-cases, true, false, not,
  ◌&&◌, List, [], ◌∷◌, ◌++◌, map, arith, ltb, ◌==◌, ==→eq, if◌then◌else◌, keep, tally, tally-append,
  first, change, distinct,
}
use backend.Common.Counting.{tally-change_same}
use backend.Schema.{Address, Stats, StatsCounts}
use backend.Db.{Rows}
use backend.Stats.Snapshot.{
  no_counts, is_stats_of, insert_or_update, upsert_all, upsert_groups, count_of,
}

abbrev pub counts_or_none : Option Stats → StatsCounts
counts_or_none none = no_counts
counts_or_none (some r) = r.counts

-- The counts that the statistics hold for a user; all are null with no row.
abbrev pub counts_at : Address → Rows Stats → StatsCounts
counts_at a t = counts_or_none (first (is_stats_of a) t.rows)

-- The row of another user is found as before.
changed_other :
    (a b : Address) (f : StatsCounts → StatsCounts) (rs : List Stats)
    → (a == b) ≡ false
    → counts_or_none
        (first (is_stats_of b) (change (is_stats_of a) (λ r. record r { counts = f r.counts }) rs))
      ≡ counts_or_none (first (is_stats_of b) rs)
changed_other a b f [] h = refl
changed_other a b f (r ∷ rs) h = ground (arith, changed_other a b f rs h)

changed_same :
    (a : Address) (f : StatsCounts → StatsCounts) (rs : List Stats)
    → 1 ≤ tally (is_stats_of a) rs
    → counts_or_none
        (first (is_stats_of a) (change (is_stats_of a) (λ r. record r { counts = f r.counts }) rs))
      ≡ f (counts_or_none (first (is_stats_of a) rs))
changed_same a f [] h = ground arith
changed_same a f (r ∷ rs) h = ground (arith, changed_same a f rs)

added_other :
    (a b : Address) (c : StatsCounts) (i : ℕ) (rs : List Stats)
    → (a == b) ≡ false
    → counts_or_none (first (is_stats_of b) (rs ++ record { id = i; address = a; counts = c } ∷ []))
      ≡ counts_or_none (first (is_stats_of b) rs)
added_other a b c i [] h = ground arith
added_other a b c i (r ∷ rs) h = ground (arith, added_other a b c i rs h)

added_same :
    (a : Address) (f : StatsCounts → StatsCounts) (i : ℕ) (rs : List Stats)
    → tally (is_stats_of a) rs ≡ 0
    → counts_or_none
        (first (is_stats_of a) (rs ++ record { id = i; address = a; counts = f no_counts } ∷ []))
      ≡ f (counts_or_none (first (is_stats_of a) rs))
added_same a f i [] h = ground arith
added_same a f i (r ∷ rs) h = ground (arith, added_same a f i rs)

own_step :
    (a : Address) (f : StatsCounts → StatsCounts) (t : Rows Stats)
    → counts_at a (insert_or_update f a t) ≡ f (counts_at a t)
unfolding insert_or_update
own_step a f t = elim (Bool-cases (ltb 0 (tally (is_stats_of a) t.rows))) [
  | inl h ↦ rw h (changed_same a f t.rows (ground arith))
  | inr h ↦ rw h (added_same a f t.next t.rows (ground arith))
]

other_step :
    (a b : Address) (f : StatsCounts → StatsCounts) (t : Rows Stats)
    → (a == b) ≡ false
    → counts_at b (insert_or_update f a t) ≡ counts_at b t
unfolding insert_or_update
other_step a b f t e = elim (Bool-cases (ltb 0 (tally (is_stats_of a) t.rows))) [
  | inl h ↦ rw h (changed_other a b f t.rows e)
  | inr h ↦ rw h (added_other a b (f no_counts) t.next t.rows e)
]

-- How often a list names a number.
abbrev pub times : ℕ → List ℕ → ℕ
times b xs = tally (λ y. y == b) xs

unnamed :
    (set : Address → StatsCounts → StatsCounts) (names : List Address) (b : Address)
    (t : Rows Stats)
    → times b names ≡ 0
    → counts_at b (upsert_all set names t) ≡ counts_at b t
unfolding upsert_all
unnamed set [] b t h = refl
unnamed set (a ∷ names) b t h =
    unnamed set names b (insert_or_update (set a) a t) (ground arith)
    ∙ other_step a b (set a) t (ground arith)

-- A user who is named once has the change made once.
named :
    (set : Address → StatsCounts → StatsCounts) (names : List Address) (b : Address)
    (t : Rows Stats)
    → times b names ≡ 1
    → counts_at b (upsert_all set names t) ≡ set b (counts_at b t)
unfolding upsert_all
named set [] b t h = ground arith
named set (a ∷ names) b t h = elim (Bool-cases (a == b)) [
  | inl e ↦
      unnamed set names b (insert_or_update (set a) a t) (ground (arith, e, h))
      ∙ rw (==→eq a b e) (own_step b (set b) t)
  | inr e ↦
      named set names b (insert_or_update (set a) a t) (ground (arith, e, h))
      ∙ ap (set b) (other_step a b (set a) t e)
]

without :
    (b x : ℕ) (ys : List ℕ)
    → times b (keep (λ y. not (y == x)) ys) ≡ (if x == b then 0 else times b ys)
without b x [] = ground arith
without b x (y ∷ ys) = ground (arith, without b x ys)

times-distinct :
    (b : ℕ) (xs : List ℕ) → times b (distinct xs) ≡ (if ltb 0 (times b xs) then 1 else 0)
times-distinct b [] = refl
times-distinct b (x ∷ xs) = ground (arith, times-distinct b xs, without b x (distinct xs))

module _ {R : Type 0} where
  times-groups :
      (owner : R → Address) (fits : R → Bool) (rows : List R) (b : Address)
      → times b (map owner (keep fits rows)) ≡ count_of owner fits rows b
  times-groups owner fits [] b = refl
  times-groups owner fits (r ∷ rows) b = ground (arith, times-groups owner fits rows b)

  group_once :
      (owner : R → Address) (fits : R → Bool) (rows : List R) (b : Address)
      → times b (distinct (map owner (keep fits rows)))
        ≡ (if ltb 0 (count_of owner fits rows b) then 1 else 0)
  group_once owner fits rows b =
      times-distinct b (map owner (keep fits rows)) ∙ rw (times-groups owner fits rows b) refl

  -- A statement changes the counts of exactly the users with a row that fits, once each.
  pub counts_at-upsert_groups :
      (owner : R → Address) (fits : R → Bool) (set : Address → StatsCounts → StatsCounts)
      (rows : List R) (b : Address) (t : Rows Stats)
      → counts_at b (upsert_groups owner fits set rows t)
        ≡ (if ltb 0 (count_of owner fits rows b) then set b (counts_at b t) else counts_at b t)
  unfolding upsert_groups
  counts_at-upsert_groups owner fits set rows b t =
      elim (Bool-cases (ltb 0 (count_of owner fits rows b))) [
        | inl h ↦ rw h (
            named set (distinct (map owner (keep fits rows))) b t
              (group_once owner fits rows b ∙ rw h refl))
        | inr h ↦ rw h (
            unnamed set (distinct (map owner (keep fits rows))) b t
              (group_once owner fits rows b ∙ rw h refl))
      ]

-- How many rows the statistics have for a user.
abbrev pub rows_of : Address → Rows Stats → ℕ
rows_of b t = tally (is_stats_of b) t.rows

rows_changed :
    (a b : Address) (f : StatsCounts → StatsCounts) (rs : List Stats)
    → tally (is_stats_of b) (change (is_stats_of a) (λ r. record r { counts = f r.counts }) rs)
      ≡ tally (is_stats_of b) rs
rows_changed a b f rs = tally-change_same (is_stats_of b) (is_stats_of a) _ rs (λ r. refl)

rows_added :
    (b : Address) (r : Stats) (rs : List Stats)
    → tally (is_stats_of b) (rs ++ r ∷ [])
      ≡ tally (is_stats_of b) rs + (if r.address == b then 1 else 0)
rows_added b r rs = omega (arith, tally-append (is_stats_of b) rs (r ∷ []))

same_rows : (a b : Address) (t : Rows Stats) → (a == b) ≡ true → rows_of a t ≡ rows_of b t
same_rows a b t h = ap (λ c. rows_of c t) (==→eq a b h)

rows_of-insert_or_update :
    (a b : Address) (f : StatsCounts → StatsCounts) (t : Rows Stats)
    → rows_of b (insert_or_update f a t)
      ≡ (if a == b then (if ltb 0 (rows_of b t) then rows_of b t else 1) else rows_of b t)
unfolding insert_or_update
rows_of-insert_or_update a b f t = elim (Bool-cases (ltb 0 (rows_of a t))) [
  | inl h ↦ rw h rw (rows_changed a b f t.rows) (ground (arith, same_rows a b t))
  | inr h ↦
      rw h rw (rows_added b (record { id = t.next; address = a; counts = f no_counts }) t.rows)
        (ground (arith, same_rows a b t))
]

rows_of-upsert_all :
    (set : Address → StatsCounts → StatsCounts) (names : List Address) (b : Address)
    (t : Rows Stats)
    → rows_of b (upsert_all set names t)
      ≡ (if ltb 0 (times b names) && not (ltb 0 (rows_of b t)) then 1 else rows_of b t)
unfolding upsert_all
rows_of-upsert_all set [] b t = ground arith
rows_of-upsert_all set (a ∷ names) b t = ground (
  arith,
  rows_of-upsert_all set names b (insert_or_update (set a) a t),
  rows_of-insert_or_update a b (set a) t,
)

module _ {R : Type 0} where
  -- A statement makes the row of a user with a row that fits, where there is none.
  pub rows_of-upsert_groups :
      (owner : R → Address) (fits : R → Bool) (set : Address → StatsCounts → StatsCounts)
      (rows : List R) (b : Address) (t : Rows Stats)
      → rows_of b (upsert_groups owner fits set rows t) ≡ (
          if ltb 0 (count_of owner fits rows b) && not (ltb 0 (rows_of b t))
          then 1
          else rows_of b t)
  unfolding upsert_groups
  rows_of-upsert_groups owner fits set rows b t = ground (
    arith,
    rows_of-upsert_all set (distinct (map owner (keep fits rows))) b t,
    group_once owner fits rows b,
  )
