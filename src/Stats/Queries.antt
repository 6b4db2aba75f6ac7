-- ===== src/Stats/Queries.antt =====
-- The queries of src/stats/stats.service.ts, and src/stats/stats.controller.ts.
use backend.Common.{
  ℕ, suc, ◌+◌, ◌*◌, Option, none, some, not, List, [], ◌∷◌, map, ltb, leb, ◌==◌, if◌then◌else◌,
  truthy, length, get_elem?, take, drop, keep, tally, first, distinct,
}
use backend.Common.Int.{ℤ, sub_ℕ, ltb_ℤ, leb_ℤ}
use backend.Schema.{Error, Address, Stats, StatsCounts, Gen1Bud}
use backend.Db.{Exec, pure, raise, gets, throw_if, ◌>>=◌, ◌>>◌}
use backend.Env.{Env, addresses}
use backend.Stats.Snapshot.{or_zero, is_stats_of}

-- `getStatsScoreQuery`, in hundredths.
unfoldable pub score : StatsCounts → ℤ
score c =
    sub_ℕ
      (or_zero c.total_success * 1500
        + or_zero c.total_hours
        + or_zero c.bp_for_breeding
        + or_zero c.bp_for_land_upgrade * 2
        + or_zero c.burned_buds * 110)
      (or_zero c.total_failure * 5 + or_zero c.total_cancels * 125)

-- A row with its score and its `RANK() OVER (ORDER BY "score" DESC)`.
pub record Ranked : Type 0 where
  pub row : Stats
  pub score : ℤ
  pub rank : ℕ

-- One more than the number of rows with a greater score.
unfoldable pub rank_among : List Stats → ℤ → ℕ
unfolding score
rank_among rows n = suc (tally (λ r. ltb_ℤ n (score r.counts)) rows)

abbrev pub ranked : List Stats → List Ranked
unfolding score rank_among
ranked rows =
    map (λ r. record { row = r; score = score r.counts; rank = rank_among rows (score r.counts) })
      rows

-- `ORDER BY "score" DESC`. Rows of one score, which SQL leaves in any order, stay in the table's.
unfoldable pub insert_by_score : Ranked → List Ranked → List Ranked
insert_by_score r [] = r ∷ []
insert_by_score r (x ∷ xs) =
    let rest = insert_by_score r xs in if leb_ℤ x.score r.score then r ∷ x ∷ xs else x ∷ rest

unfoldable pub by_score : List Ranked → List Ranked
unfolding insert_by_score
by_score [] = []
by_score (r ∷ rs) = insert_by_score r (by_score rs)

-- `limit ? (limit > 100 ? 100 : limit) : 100`.
abbrev pub page_size : Option ℕ → ℕ
page_size limit =
    if truthy limit then (if ltb 100 (or_zero limit) then 100 else or_zero limit) else 100

-- `order_cmp`, and the rows up to its score: with no row of that id there are none.
unfoldable pub after_cursor : List Ranked → Option Stats → List Ranked
unfolding score
after_cursor rows none = []
after_cursor rows (some c) = keep (λ r. leb_ℤ r.score (score c.counts)) rows

-- `queryStats`.
unfoldable pub query_stats : Option ℕ → Option ℕ → Exec (List Ranked)
unfolding ranked by_score after_cursor
query_stats limit cursor = gets λ s.
    if truthy cursor
    then take (page_size limit) (
        drop 1 (
          after_cursor (by_score (ranked s.stats.rows))
            (first (λ r. r.id == or_zero cursor) s.stats.rows)))
    else take (page_size limit) (by_score (ranked s.stats.rows))

-- `getUserStats`: zero is no limit and no cursor.
unfoldable pub get_user_stats : Option ℕ → Option ℕ → Exec (List Ranked)
unfolding query_stats
get_user_stats limit cursor =
    query_stats (if truthy limit then limit else none) (if truthy cursor then cursor else none)

-- `queryStatsByAddress`.
unfoldable pub query_stats_by_address : Address → Exec (Option Ranked)
unfolding ranked
query_stats_by_address a = gets λ s. first (λ r. is_stats_of a r.row) (ranked s.stats.rows)

-- `getUserStatsByAddress`; `none` is its answer without success.
unfoldable pub get_user_stats_by_address : Env → Address → Exec (Option Ranked)
unfolding query_stats_by_address
get_user_stats_by_address env a = do
  throw_if (not (env.is_address a))
      (Error.bad_request_exception "address is not a valid Ethereum address")
  query_stats_by_address a

-- A breeder of `mintCounts` with the rank.
pub record Breeder : Type 0 where
  pub minter_address : Address
  pub count : ℕ
  pub rank : ℕ

abbrev pub minted_by : Address → List Gen1Bud → ℕ
minted_by a buds = tally (λ b. b.minter_address == a) buds

-- `rankTable`: the buds grouped by their minters, ranked by how many there are.
unfoldable pub rank_table : List Gen1Bud → List Breeder
rank_table buds =
    let minters = distinct (map (λ b. b.minter_address) buds) in
    map
      (λ a. record {
        minter_address = a;
        count = minted_by a buds;
        rank = suc (tally (λ c. ltb (minted_by a buds) (minted_by c buds)) minters);
      })
      minters

-- `getBreeder`.
unfoldable pub get_breeder : Address → Exec (List Breeder)
unfolding rank_table
get_breeder a = gets λ s. keep (λ b. b.minter_address == a) (rank_table s.gen1_buds.rows)

-- `getTopBreeders`.
unfoldable pub get_top_breeders : Exec (List Breeder)
unfolding rank_table
get_top_breeders = gets λ s. keep (λ b. leb b.rank 30) (rank_table s.gen1_buds.rows)

-- `searchBreeder`.
unfoldable pub search_breeder : Env → Address → Exec (Option Breeder)
unfolding get_breeder
search_breeder env a = do
  throw_if (not (env.is_address a))
      (Error.bad_request_exception "address is not valid Ethereum address (must be checksumed)")
  result ← get_breeder a
  pure (get_elem? result 0)

unfoldable pub amounts_or_raise : {A : Type 0} → Error → Option A → Exec A
amounts_or_raise e none = raise e
amounts_or_raise e (some amounts) = pure amounts

-- `getGen0BudLockCounts`.
unfoldable pub get_gen0_bud_lock_counts : Env → List Address → Exec (List ℕ)
unfolding amounts_or_raise addresses
get_gen0_bud_lock_counts env users = do
  throw_if (ltb 200 (length users)) (Error.plain "multicall max limit exceeds")
  amounts_or_raise (Error.plain "Get Bud Lock counts... RPC call error")
      (env.burnt_amounts (addresses env.network).bud_burn users)

abbrev pub sum : List ℕ → ℕ
sum [] = 0
sum (n ∷ ns) = n + sum ns

-- `getGameItemMintCounts`.
unfoldable pub get_game_item_mint_counts : Env → List Address → Exec (List ℕ)
unfolding amounts_or_raise addresses
get_game_item_mint_counts env users = do
  throw_if (ltb 200 (length users)) (Error.plain "multicall max limit exceeds")
  batches ←
      amounts_or_raise (Error.plain "Get Game item mint counts... RPC call error")
        (env.item_balances (addresses env.network).game_item users)
  pure (map sum batches)
