-- ===== src/Tests/Tables.antt =====
-- Random numbers and table look-ups.
use backend.Common.{ℕ, suc, ◌<◌, ◌≡◌, arith, some, List, length, get_elem?}
use backend.Common.Int.{pos}
use backend.Schema.{ok}
use backend.Utils.{scale, win_random_chance}
use backend.Utils.Random.{decided, winners, odds, win_random_chance-odds}
use backend.HashTable.{
  Traits, lookup, rates_of, get_matching_gen1_rate, look_up_gen1_bud, hash_table_gen1,
}
use backend.HashTable.Picks.{look_up_gen1_bud-total}
use backend.Tests.Fixtures.{env, start}

look_up_gen1_bud-total_example :
    (group : List Traits) × (i : ℕ) × (t : Traits) × (lookup
        (get_matching_gen1_rate (pos 600) (rates_of hash_table_gen1))
        hash_table_gen1
      ≡ some group)
    × (suc i < length group)
    × (get_elem? group i ≡ some t)
    × (look_up_gen1_bud env (pos 600) start ≡ (ok t, record start { drawn = 1 }))
look_up_gen1_bud-total_example = look_up_gen1_bud-total env (pos 600) start (omega arith)

-- Sixty percent, with the number 0 drawn.
win_random_chance-odds_example :
    ((win_random_chance env (pos 600) start).0 ≡ ok (decided 60 (scale 100 0 0)))
    × (winners 60 100 ≡ odds 60)
win_random_chance-odds_example = win_random_chance-odds env 60 start
