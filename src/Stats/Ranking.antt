-- ===== src/Stats/Ranking.antt =====
-- The order of the ranking of src/stats/stats.service.ts: pages, ranks and cursors.
use mathlib.Core.Path.{subst}
use backend.Common.{
  suc, tally, sym, ap, ◌∙◌, leb, ◌+◌, ◌*◌, take-append-drop, if◌then◌else◌, ◌++◌, ℕ, zero, suc, ◌≤◌,
  ◌≡◌, refl, Option, none, some, Bool, true, false, List, [], ◌∷◌, map, arith, ◌==◌, length, take,
  drop, All, inl, inr, Bool-cases,
}
use backend.Common.Counting.{tally-le}
use backend.Common.Int.{pos, ◌-ℤ◌, sub_ℕ, ℤ, ◌≤ℤ◌, leb_ℤ, ltb_ℤ}
use backend.Schema.{StatsCounts, Stats, ok}
use backend.Db.{State}
use backend.Stats.Queries.{
  score, Ranked, rank_among, ranked, insert_by_score, by_score, page_size, query_stats,
}

-- Behind no row comes one of a greater score or of a better rank.
abbrev pub NotAhead : Ranked → Ranked → Type 0
NotAhead x y = (y.score ≤ℤ x.score) × (x.rank ≤ y.rank)

abbrev pub IsInOrder : List Ranked → Type 0
IsInOrder [] = Unit
IsInOrder (x ∷ xs) = All (NotAhead x) xs × IsInOrder xs

-- A rank is that of its score among the rows of the table.
abbrev pub HasRankAmong : List Stats → Ranked → Type 0
HasRankAmong rows r = (r.score ≡ score r.row.counts) × (r.rank ≡ rank_among rows r.score)

rank_among-le : (rows : List Stats) (a b : ℤ) → a ≤ℤ b → rank_among rows b ≤ rank_among rows a
unfolding rank_among score
rank_among-le rows a b h = omega (
  arith,
  tally-le (λ r. ltb_ℤ b (score r.counts)) (λ r. ltb_ℤ a (score r.counts)) rows
      (λ r e. ground (arith, e, h)),
)

NotAhead-of_scores :
    (rows : List Stats) (x y : Ranked)
    → HasRankAmong rows x
    → HasRankAmong rows y
    → y.score ≤ℤ x.score
    → NotAhead x y
NotAhead-of_scores rows x y (_, hx) (_, hy) h =
    (h, rw hx rw hy (rank_among-le rows y.score x.score h))

NotAhead-trans : (x y z : Ranked) → NotAhead x y → NotAhead y z → NotAhead x z
NotAhead-trans x y z (a, b) (c, d) = (omega (arith, a, c), omega (arith, b, d))

All-trans :
    (x y : Ranked) (zs : List Ranked) → NotAhead x y → All (NotAhead y) zs → All (NotAhead x) zs
All-trans x y [] h hs = tt
All-trans x y (z ∷ zs) h (k, hs) = (NotAhead-trans x y z h k, All-trans x y zs h hs)

module _ (P : Ranked → Type 0) where
  All-insert_by_score :
      (r : Ranked) (xs : List Ranked) → P r → All P xs → All P (insert_by_score r xs)
  unfolding insert_by_score
  All-insert_by_score r [] h hs = (h, tt)
  All-insert_by_score r (x ∷ xs) h (k, hs) = elim (Bool-cases (leb_ℤ x.score r.score)) [
    | inl e ↦ rw e (h, (k, hs))
    | inr e ↦ rw e (k, All-insert_by_score r xs h hs)
  ]

  pub All-by_score : (rs : List Ranked) → All P rs → All P (by_score rs)
  unfolding by_score
  All-by_score [] h = tt
  All-by_score (r ∷ rs) (h, hs) = All-insert_by_score r (by_score rs) h (All-by_score rs hs)

leb-≤ : (a b : ℤ) → leb_ℤ a b ≡ true → a ≤ℤ b
leb-≤ a b h = ground (arith, h)

leb-> : (a b : ℤ) → leb_ℤ a b ≡ false → b ≤ℤ a
leb-> a b h = ground (arith, h)

IsInOrder-insert_by_score :
    (rows : List Stats) (r : Ranked) (xs : List Ranked)
    → HasRankAmong rows r
    → All (HasRankAmong rows) xs
    → IsInOrder xs
    → IsInOrder (insert_by_score r xs)
unfolding insert_by_score
IsInOrder-insert_by_score rows r [] h hs o = (tt, tt)
IsInOrder-insert_by_score rows r (x ∷ xs) h (k, hs) (o, os) =
    elim (Bool-cases (leb_ℤ x.score r.score)) [
      | inl e ↦
          let rx = NotAhead-of_scores rows r x h k (leb-≤ x.score r.score e) in
          rw e ((rx, All-trans r x xs rx o), (o, os))
      | inr e ↦ rw e (
        All-insert_by_score (NotAhead x) r xs
            (NotAhead-of_scores rows x r k h (leb-> x.score r.score e)) o,
        IsInOrder-insert_by_score rows r xs h hs os,
      )
    ]

IsInOrder-by_score :
    (rows : List Stats) (rs : List Ranked) → All (HasRankAmong rows) rs → IsInOrder (by_score rs)
unfolding by_score
IsInOrder-by_score rows [] h = tt
IsInOrder-by_score rows (r ∷ rs) (h, hs) =
    IsInOrder-insert_by_score rows r (by_score rs) h (All-by_score (HasRankAmong rows) rs hs)
      (IsInOrder-by_score rows rs hs)

pub ranked-have_ranks :
    (rows some_rows : List Stats)
    → All (HasRankAmong rows) (
        map
          (λ r. record { row = r; score = score r.counts; rank = rank_among rows (score r.counts) })
          some_rows)
ranked-have_ranks rows [] = tt
ranked-have_ranks rows (r ∷ rs) = ((refl, refl), ranked-have_ranks rows rs)

-- The score from the columns, in hundredths; `null` counts for nothing.
abbrev pub amount : Option ℕ → ℕ
amount none = 0
amount (some n) = n

abbrev pub worth : StatsCounts → ℤ
worth c =
    pos (
      1500 * amount c.total_success
      + amount c.total_hours
      + amount c.bp_for_breeding
      + 2 * amount c.bp_for_land_upgrade
      + 110 * amount c.burned_buds)
    -ℤ pos (5 * amount c.total_failure + 125 * amount c.total_cancels)

difference : (a b c d : ℕ) → a ≡ c → b ≡ d → sub_ℕ a b ≡ pos c -ℤ pos d
unfolding ◌-ℤ◌
difference a b c d h k = rw h rw k (ground arith)

score-worth : (c : StatsCounts) → score c ≡ worth c
unfolding score
score-worth c = difference _ _ _ _ (omega arith) (omega arith)

-- The row's score is its columns', and its rank one more than the number of rows worth more.
abbrev pub HasPlace : List Stats → Ranked → Type 0
HasPlace rows r =
    (r.score ≡ worth r.row.counts)
    × (r.rank ≡ suc (tally (λ x. ltb_ℤ (worth r.row.counts) (worth x.counts)) rows))

more_worth :
    (n : ℤ) (m : ℤ) (rows : List Stats)
    → n ≡ m
    → rank_among rows n ≡ suc (tally (λ x. ltb_ℤ m (worth x.counts)) rows)
unfolding rank_among
more_worth n m [] h = refl
more_worth n m (x ∷ rows) h =
    rw h rw (score-worth x.counts) (omega (arith, more_worth n m rows h, ap (rank_among rows) h))

have_places :
    (rows : List Stats) (xs : List Ranked) → All (HasRankAmong rows) xs → All (HasPlace rows) xs
have_places rows [] h = tt
have_places rows (x ∷ xs) ((e, k), h) =
    let s = e ∙ score-worth x.row.counts in
    ((s, k ∙ more_worth x.score (worth x.row.counts) rows s), have_places rows xs h)

tally-insert_by_score :
    (w : Stats → Bool) (r : Ranked) (xs : List Ranked)
    → tally (λ x. w x.row) (insert_by_score r xs) ≡ tally (λ x. w x.row) (r ∷ xs)
unfolding insert_by_score
tally-insert_by_score w r [] = refl
tally-insert_by_score w r (x ∷ xs) = ground (arith, tally-insert_by_score w r xs)

tally-by_score :
    (w : Stats → Bool) (rows some_rows : List Stats)
    → tally
        (λ x. w x.row)
        (by_score (
          map
            (λ r. record {
              row = r;
              score = score r.counts;
              rank = rank_among rows (score r.counts);
            })
            some_rows))
      ≡ tally w some_rows
unfolding by_score
tally-by_score w rows [] = refl
tally-by_score w rows (r ∷ rs) =
    let x : Ranked = record {
      row = r;
      score = score r.counts;
      rank = rank_among rows (score r.counts);
    } in
    tally-insert_by_score w x (by_score (map _ rs))
    ∙ ap (λ n. (if w r then 1 else 0) + n) (tally-by_score w rows rs)

length-tally : {A : Type 0} (xs : List A) → tally (λ x. true) xs ≡ length xs
length-tally [] = refl
length-tally (x ∷ xs) = omega (arith, length-tally xs)

-- How many rows a page may have: 100, or fewer where fewer and not none are asked for.
abbrev pub room : Option ℕ → ℕ
room none = 100
room (some n) = if n == 0 then 100 else if leb n 100 then n else 100

page_size-room : (limit : Option ℕ) → page_size limit ≡ room limit
page_size-room none = ground arith
page_size-room (some n) = ground arith

length-take :
    {A : Type 0} (n : ℕ) (xs : List A)
    → length (take n xs) ≡ (if leb n (length xs) then n else length xs)
length-take zero xs = ground arith
length-take (suc n) [] = ground arith
length-take (suc n) (x ∷ xs) = ground (arith, length-take n xs)

-- The page and the rows left out are together the rows of the table, in the order of the ranking,
-- with their scores and ranks; and the page is full, or has them all.
abbrev pub IsPage : Option ℕ → List Stats → List Ranked → List Ranked → Type 0
IsPage limit rows page rest =
    IsInOrder (page ++ rest)
    × All (HasPlace rows) (page ++ rest)
    × ((w : Stats → Bool) → tally (λ r. w r.row) (page ++ rest) ≡ tally w rows)
    × (length page ≡ (if leb (room limit) (length rows) then room limit else length rows))

-- The ranking without a cursor: the page and the rows that it leaves out are together the rows
-- of the table, each as often; each has the score that its columns make, written out in
-- hundredths, and as its rank one more than the number of rows worth more; in all of them no row
-- stands before one of a greater score or a better rank; and the page has as many rows as there
-- are, up to 100, or up to the limit where one below 100 and not 0 is asked for.
pub query_stats-IsPage :
    (limit : Option ℕ) (s : State)
    → (page : List Ranked) × (rest : List Ranked) × (query_stats limit none s ≡ (ok page, s))
      × IsPage limit s.stats.rows page rest
unfolding query_stats
query_stats-IsPage limit s =
    let rows = s.stats.rows in
    let all = by_score (ranked rows) in
    let h = ranked-have_ranks rows rows in
    let n = page_size limit in
    let whole = sym (take-append-drop n all) in
    let count = λ (w : Stats → Bool). tally-by_score w rows rows in
    let many : length all ≡ length rows =
      sym (length-tally all) ∙ count (λ x. true) ∙ length-tally rows in
    (
      take n all,
      drop n all,
      refl,
      (
        subst IsInOrder whole (IsInOrder-by_score rows (ranked rows) h),
        subst (All (HasPlace rows)) whole
            (have_places rows all (All-by_score (HasRankAmong rows) (ranked rows) h)),
        λ w. ap (tally (λ r. w r.row)) (take-append-drop n all) ∙ count w,
        length-take n all ∙ rw (page_size-room limit, many) refl,
      ),
    )
