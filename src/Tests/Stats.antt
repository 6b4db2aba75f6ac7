-- ===== src/Tests/Stats.antt =====
-- The statistics of src/stats.
use backend.Common.{ℕ, ◌+◌, ◌≡◌, refl, none, some, true, List, [], ◌∷◌, take}
use backend.Common.Int.{pos}
use backend.Schema.{
  ok, Stats, BreedPair, Gen1Bud, EventServiceLog, completed, failed, indoor, burn_gen0, farmer_pass,
  buds,
}
use backend.Db.{State}
use backend.Stats.{
  no_counts, snapshot_breeding, score, rank_among, Ranked, insert_by_score, by_score, page_size,
  query_stats,
}
use backend.Stats.Upserts.{counts_at, rows_of}
use backend.Stats.Presence.{one_if}
use backend.Stats.Reference.{counts_of, is_active, snapshot_breeding-counts_of}
use backend.Stats.Ranking.{IsPage, query_stats-IsPage}
use backend.Stats.Cursors.{query_stats-next_page}
use backend.Env.{goerli}
use backend.Admin.{AdminDto, add_breeding_point, withdraw_breeding_point}
use backend.Stats.{get_history}
use backend.Stats.Deposits.{entry_of, get_history-deposits}
use backend.Tests.Fixtures.{caller, user, env, bud, slot, start}

abbrev session : BreedPair
session = record {
  id = 1;
  male_bud_id = pos 1;
  female_bud_id = pos 2;
  rate = pos 100;
  created_at = 1654473600001;
  user_address = 7;
  current_level = 5;
  status = completed;
  slot_id = 1;
  game_key_id = 3;
  game_item_id = some farmer_pass;
}

abbrev burn : EventServiceLog
burn = record {
  address = 7;
  tx_hash = 1;
  block_number = 1;
  type = burn_gen0;
  data_ = buds (pos 1) (pos 2) none;
  created_at = 0;
}

abbrev minted : ℕ → ℕ → Gen1Bud
minted i a = record {
  id = i;
  bud = bud true;
  created_at = 0;
  minter_address = a;
  signature = "";
  pair_id = none;
}

abbrev stats_row : ℕ → ℕ → Stats
stats_row i successes = record {
  id = i;
  address = 100 + i;
  counts = record no_counts { total_success = some successes };
}

-- A user with a session that succeeded and one that failed, an indoor slot and a burn; three rows
-- of statistics; and four buds of two minters.
abbrev played : State
played = record start {
  pairs = record { rows = session ∷ record session { id = 2; status = failed } ∷ []; next = 3 };
  slots = record { rows = record slot { type = indoor } ∷ []; next = 2 };
  logs = burn ∷ [];
  stats = record { rows = stats_row 1 2 ∷ stats_row 2 3 ∷ stats_row 3 1 ∷ []; next = 4 };
  gen1_buds = record { rows = minted 1 7 ∷ minted 2 8 ∷ minted 3 8 ∷ minted 4 8 ∷ []; next = 5 };
}

snapshot_breeding-counts_of_example :
    let t = (snapshot_breeding played).1.stats in
    (counts_at 7 t ≡ counts_of 7 played) × (rows_of 7 t ≡ one_if (is_active 7 played))
snapshot_breeding-counts_of_example = snapshot_breeding-counts_of 7 played

query_stats-IsPage_example :
    (page : List Ranked) × (rest : List Ranked) × (query_stats (some 2) none played
      ≡ (ok page, played))
    × IsPage (some 2) played.stats.rows page rest
query_stats-IsPage_example = query_stats-IsPage (some 2) played

abbrev second : Ranked
second = record { row = stats_row 1 2; score = pos 3000; rank = 2 }

abbrev third : Ranked
third = record { row = stats_row 3 1; score = pos 1500; rank = 3 }

query_stats-next_page_example :
    query_stats (some 1) (some 1) played ≡ (ok (take (page_size (some 1)) (third ∷ [])), played)
unfolding score rank_among insert_by_score by_score
query_stats-next_page_example =
    query_stats-next_page (some 1) played second
      (record { row = stats_row 2 3; score = pos 4500; rank = 1 } ∷ []) (third ∷ []) refl
      ((refl, (refl, tt)), ((refl, tt), (tt, tt))) refl refl

abbrev dto : AdminDto
dto = record { address = 7; tx_hash = 99; block = 5; network = goerli }

-- A deposit and a withdrawal of 12 points, after a burn.
abbrev burnt : State
burnt = record start { logs = burn ∷ [] }

get_history-deposits_example :
    (get_history caller burnt ≡ (ok [], burnt))
    × (get_history caller (add_breeding_point env dto 1200 burnt).1
        ≡ (ok (entry_of env dto 1200 ∷ []), (add_breeding_point env dto 1200 burnt).1))
    × (get_history caller (withdraw_breeding_point env dto 1200 burnt).1
        ≡ (ok [], (withdraw_breeding_point env dto 1200 burnt).1))
get_history-deposits_example = get_history-deposits env caller dto 1200 burnt user refl refl refl
