-- ===== src/Stats/Cursors.antt =====
-- The pages of the ranking after a cursor (src/stats/stats.service.ts).
use mathlib.Core.Path.{subst}
use backend.Common.{
  ℕ, ◌≡◌, refl, sym, Option, some, true, false, List, [], ◌∷◌, ◌++◌, arith, ◌==◌, truthy, take,
  keep, first, All,
}
use backend.Common.Int.{ℤ, leb_ℤ}
use backend.Schema.{ok}
use backend.Db.{State}
use backend.Stats.Queries.{Ranked, ranked, by_score, page_size, after_cursor, query_stats}
use backend.Stats.Ranking.{HasRankAmong, All-by_score, ranked-have_ranks}

-- Where every row's score is below the one before it, the rows up to a cursor's score start with
-- the cursor.
abbrev pub IsStrict : List Ranked → Type 0
IsStrict [] = Unit
IsStrict (x ∷ xs) = All (λ y. leb_ℤ x.score y.score ≡ false) xs × IsStrict xs

at_most : (a b : ℤ) → leb_ℤ a b ≡ false → leb_ℤ b a ≡ true
at_most a b h = ground (arith, h)

at_most_itself : (a : ℤ) → leb_ℤ a a ≡ true
at_most_itself a = ground arith

keep_whole :
    (n : ℤ) (xs : List Ranked)
    → All (λ y. leb_ℤ n y.score ≡ false) xs
    → keep (λ r. leb_ℤ r.score n) xs ≡ xs
keep_whole n [] h = refl
keep_whole n (x ∷ xs) (h, hs) = rw (at_most n x.score h) rw (keep_whole n xs hs) refl

-- What holds of all holds of one in the middle.
All-middle : (P : Ranked → Type 0) (c : Ranked) (xs ys : List Ranked) → All P (xs ++ c ∷ ys) → P c
All-middle P c [] ys (h, hs) = h
All-middle P c (x ∷ xs) ys (h, hs) = All-middle P c xs ys hs

keep_from :
    (c : Ranked) (before after : List Ranked)
    → IsStrict (before ++ c ∷ after)
    → keep (λ r. leb_ℤ r.score c.score) (before ++ c ∷ after) ≡ c ∷ after
keep_from c [] after (h, hs) = rw (at_most_itself c.score) rw (keep_whole c.score after h) refl
keep_from c (x ∷ before) after (h, hs) =
    rw (All-middle (λ y. leb_ℤ x.score y.score ≡ false) c before after h)
      (keep_from c before after hs)

-- Where every row of the ranking has a smaller score than the one before it, the page after a
-- row, found by its id, has the rows that follow it, up to the page's size.
pub query_stats-next_page :
    (limit : Option ℕ) (s : State) (c : Ranked) (before after : List Ranked)
    → by_score (ranked s.stats.rows) ≡ before ++ c ∷ after
    → IsStrict (before ++ c ∷ after)
    → truthy (some c.row.id) ≡ true
    → first (λ r. r.id == c.row.id) s.stats.rows ≡ some c.row
    → query_stats limit (some c.row.id) s ≡ (ok (take (page_size limit) after), s)
unfolding query_stats after_cursor
query_stats-next_page limit s c before after e strict t f =
    let rows = s.stats.rows in
    let all = All-by_score (HasRankAmong rows) (ranked rows) (ranked-have_ranks rows rows) in
    let (k, _) =
      All-middle (HasRankAmong rows) c before after (subst (All (HasRankAmong rows)) e all) in
    rw t rw e rw f rw (sym k) rw (keep_from c before after strict) refl
