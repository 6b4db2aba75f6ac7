-- ===== src/HashTable/Data.antt =====
-- data/hashTable.json, data/hashTableBegin.json, data/hashTableGen1.json and
-- data/hashTableReward.json. A rate is a number of tenths.
use backend.Common.{ℕ, List, [], ◌∷◌}
use backend.Common.Int.{ℤ, pos, negsuc}
use backend.Schema.{GiftAmount, usd100, usd200, usd420, usd1000}

-- The rows of a table by THC, each a list of rates by bud size.
abbrev pub RateTable : Type 0
RateTable = List (ℕ × List (ℕ × ℤ))

-- An entry of the Gen1 table: `thc` and `size`.
abbrev pub Traits : Type 0
Traits = ℕ × ℕ

pub record Reward : Type 0 where
  pub token_id : ℕ
  pub amount : ℕ
  pub price : GiftAmount

unfoldable pub hash_table : RateTable
hash_table =
    (
      1,
      (1, negsuc 9)
          ∷ (2, negsuc 9)
          ∷ (3, negsuc 9)
          ∷ (4, negsuc 9)
          ∷ (5, negsuc 9)
          ∷ (6, pos 20)
          ∷ (7, pos 20)
          ∷ (8, pos 20)
          ∷ (9, pos 20)
          ∷ (10, pos 20)
          ∷ [],
    )
    ∷ (
      2,
      (1, negsuc 7)
          ∷ (2, negsuc 7)
          ∷ (3, negsuc 7)
          ∷ (4, negsuc 7)
          ∷ (5, negsuc 7)
          ∷ (6, pos 22)
          ∷ (7, pos 22)
          ∷ (8, pos 22)
          ∷ (9, pos 22)
          ∷ (10, pos 22)
          ∷ [],
    )
    ∷ (
      3,
      (1, pos 15)
          ∷ (2, pos 15)
          ∷ (3, pos 15)
          ∷ (4, pos 0)
          ∷ (5, pos 0)
          ∷ (6, pos 0)
          ∷ (7, negsuc 19)
          ∷ (8, negsuc 19)
          ∷ (9, negsuc 19)
          ∷ (10, negsuc 19)
          ∷ [],
    )
    ∷ (
      4,
      (1, pos 25)
          ∷ (2, pos 25)
          ∷ (3, pos 25)
          ∷ (4, pos 25)
          ∷ (5, pos 25)
          ∷ (6, pos 30)
          ∷ (7, pos 30)
          ∷ (8, pos 30)
          ∷ (9, pos 30)
          ∷ (10, pos 30)
          ∷ [],
    )
    ∷ (
      5,
      (1, negsuc 29)
          ∷ (2, negsuc 29)
          ∷ (3, negsuc 29)
          ∷ (4, negsuc 29)
          ∷ (5, negsuc 29)
          ∷ (6, negsuc 29)
          ∷ (7, negsuc 29)
          ∷ (8, negsuc 29)
          ∷ (9, negsuc 29)
          ∷ (10, negsuc 29)
          ∷ [],
    )
    ∷ (
      6,
      (1, pos 17)
          ∷ (2, pos 17)
          ∷ (3, pos 17)
          ∷ (4, pos 17)
          ∷ (5, pos 17)
          ∷ (6, pos 0)
          ∷ (7, pos 0)
          ∷ (8, pos 0)
          ∷ (9, pos 0)
          ∷ (10, pos 0)
          ∷ [],
    )
    ∷ (
      7,
      (1, pos 15)
          ∷ (2, pos 15)
          ∷ (3, pos 15)
          ∷ (4, pos 15)
          ∷ (5, pos 15)
          ∷ (6, negsuc 9)
          ∷ (7, negsuc 9)
          ∷ (8, negsuc 9)
          ∷ (9, pos 20)
          ∷ (10, pos 20)
          ∷ [],
    )
    ∷ (
      9,
      (1, negsuc 17)
          ∷ (2, negsuc 17)
          ∷ (3, negsuc 17)
          ∷ (4, negsuc 17)
          ∷ (5, negsuc 17)
          ∷ (6, negsuc 17)
          ∷ (7, negsuc 17)
          ∷ (8, negsuc 17)
          ∷ (9, negsuc 17)
          ∷ (10, negsuc 17)
          ∷ [],
    )
    ∷ (
      10,
      (1, negsuc 14)
          ∷ (2, negsuc 14)
          ∷ (3, negsuc 14)
          ∷ (4, negsuc 14)
          ∷ (5, pos 0)
          ∷ (6, pos 0)
          ∷ (7, pos 0)
          ∷ (8, pos 0)
          ∷ (9, pos 0)
          ∷ (10, pos 0)
          ∷ [],
    )
    ∷ (
      11,
      (1, pos 15)
          ∷ (2, pos 15)
          ∷ (3, pos 15)
          ∷ (4, pos 0)
          ∷ (5, pos 0)
          ∷ (6, pos 0)
          ∷ (7, negsuc 20)
          ∷ (8, negsuc 20)
          ∷ (9, negsuc 20)
          ∷ (10, negsuc 20)
          ∷ [],
    )
    ∷ (
      12,
      (1, pos 15)
          ∷ (2, pos 15)
          ∷ (3, pos 15)
          ∷ (4, pos 0)
          ∷ (5, pos 0)
          ∷ (6, pos 0)
          ∷ (7, negsuc 19)
          ∷ (8, negsuc 19)
          ∷ (9, negsuc 19)
          ∷ (10, negsuc 19)
          ∷ [],
    )
    ∷ (
      13,
      (1, negsuc 8)
          ∷ (2, negsuc 8)
          ∷ (3, negsuc 8)
          ∷ (4, negsuc 8)
          ∷ (5, negsuc 8)
          ∷ (6, pos 20)
          ∷ (7, pos 20)
          ∷ (8, pos 20)
          ∷ (9, pos 20)
          ∷ (10, pos 20)
          ∷ [],
    )
    ∷ (
      14,
      (1, negsuc 7)
          ∷ (2, negsuc 7)
          ∷ (3, negsuc 7)
          ∷ (4, negsuc 7)
          ∷ (5, negsuc 7)
          ∷ (6, pos 20)
          ∷ (7, pos 20)
          ∷ (8, pos 20)
          ∷ (9, pos 20)
          ∷ (10, pos 20)
          ∷ [],
    )
    ∷ (
      15,
      (1, pos 25)
          ∷ (2, pos 25)
          ∷ (3, pos 25)
          ∷ (4, pos 25)
          ∷ (5, pos 25)
          ∷ (6, pos 30)
          ∷ (7, pos 30)
          ∷ (8, pos 30)
          ∷ (9, pos 30)
          ∷ (10, pos 30)
          ∷ [],
    )
    ∷ (
      16,
      (1, negsuc 11)
          ∷ (2, negsuc 11)
          ∷ (3, negsuc 11)
          ∷ (4, negsuc 11)
          ∷ (5, negsuc 11)
          ∷ (6, pos 20)
          ∷ (7, pos 20)
          ∷ (8, pos 20)
          ∷ (9, pos 20)
          ∷ (10, pos 20)
          ∷ [],
    )
    ∷ (
      17,
      (1, pos 25)
          ∷ (2, pos 25)
          ∷ (3, pos 25)
          ∷ (4, pos 25)
          ∷ (5, pos 25)
          ∷ (6, pos 30)
          ∷ (7, pos 30)
          ∷ (8, pos 30)
          ∷ (9, pos 30)
          ∷ (10, pos 30)
          ∷ [],
    )
    ∷ (
      18,
      (1, negsuc 16)
          ∷ (2, negsuc 16)
          ∷ (3, negsuc 16)
          ∷ (4, pos 7)
          ∷ (5, pos 7)
          ∷ (6, pos 0)
          ∷ (7, pos 20)
          ∷ (8, pos 20)
          ∷ (9, pos 0)
          ∷ (10, pos 0)
          ∷ [],
    )
    ∷ (
      19,
      (1, pos 25)
          ∷ (2, pos 25)
          ∷ (3, pos 25)
          ∷ (4, pos 25)
          ∷ (5, pos 25)
          ∷ (6, pos 30)
          ∷ (7, pos 30)
          ∷ (8, pos 30)
          ∷ (9, pos 30)
          ∷ (10, pos 30)
          ∷ [],
    )
    ∷ (
      20,
      (1, negsuc 29)
          ∷ (2, negsuc 29)
          ∷ (3, negsuc 29)
          ∷ (4, negsuc 29)
          ∷ (5, negsuc 29)
          ∷ (6, negsuc 9)
          ∷ (7, negsuc 29)
          ∷ (8, negsuc 9)
          ∷ (9, negsuc 9)
          ∷ (10, negsuc 9)
          ∷ [],
    )
    ∷ (
      21,
      (1, pos 25)
          ∷ (2, pos 25)
          ∷ (3, pos 25)
          ∷ (4, pos 25)
          ∷ (5, pos 25)
          ∷ (6, pos 30)
          ∷ (7, pos 30)
          ∷ (8, pos 30)
          ∷ (9, pos 30)
          ∷ (10, pos 30)
          ∷ [],
    )
    ∷ (
      22,
      (1, pos 25)
          ∷ (2, pos 15)
          ∷ (3, pos 15)
          ∷ (4, pos 5)
          ∷ (5, pos 5)
          ∷ (6, pos 30)
          ∷ (7, pos 30)
          ∷ (8, pos 30)
          ∷ (9, pos 35)
          ∷ (10, pos 35)
          ∷ [],
    )
    ∷ []

unfoldable pub hash_table_begin : RateTable
hash_table_begin =
    (1, (1, pos 20) ∷ (2, pos 20) ∷ (3, pos 20) ∷ [])
    ∷ (2, (1, pos 25) ∷ (2, pos 25) ∷ (3, pos 25) ∷ [])
    ∷ (3, (1, pos 30) ∷ (2, pos 30) ∷ (3, pos 30) ∷ [])
    ∷ (6, (1, pos 40) ∷ (2, pos 40) ∷ (3, pos 40) ∷ (4, pos 40) ∷ (5, pos 40) ∷ [])
    ∷ (7, (1, pos 40) ∷ (2, pos 40) ∷ (3, pos 40) ∷ (4, pos 40) ∷ (5, pos 40) ∷ [])
    ∷ (11, (6, pos 30) ∷ (7, pos 30) ∷ (8, pos 30) ∷ (9, pos 30) ∷ (10, pos 30) ∷ [])
    ∷ (12, (6, pos 35) ∷ (7, pos 35) ∷ (8, pos 35) ∷ (9, pos 35) ∷ (10, pos 35) ∷ [])
    ∷ (13, (6, pos 30) ∷ (7, pos 30) ∷ (8, pos 30) ∷ (9, pos 30) ∷ (10, pos 30) ∷ [])
    ∷ (14, (6, pos 30) ∷ (7, pos 30) ∷ (8, pos 30) ∷ (9, pos 30) ∷ (10, pos 30) ∷ [])
    ∷ (15, (6, pos 30) ∷ (7, pos 30) ∷ (8, pos 30) ∷ (9, pos 30) ∷ (10, pos 30) ∷ [])
    ∷ (
      16,
      (1, pos 50)
          ∷ (2, pos 50)
          ∷ (3, pos 50)
          ∷ (4, pos 50)
          ∷ (5, pos 50)
          ∷ (6, pos 50)
          ∷ (7, pos 50)
          ∷ (8, pos 50)
          ∷ (9, pos 50)
          ∷ (10, pos 50)
          ∷ [],
    )
    ∷ (
      17,
      (1, pos 50)
          ∷ (2, pos 50)
          ∷ (3, pos 50)
          ∷ (4, pos 50)
          ∷ (5, pos 50)
          ∷ (6, pos 50)
          ∷ (7, pos 50)
          ∷ (8, pos 50)
          ∷ (9, pos 50)
          ∷ (10, pos 50)
          ∷ [],
    )
    ∷ (
      18,
      (1, pos 50)
          ∷ (2, pos 50)
          ∷ (3, pos 50)
          ∷ (4, pos 50)
          ∷ (5, pos 50)
          ∷ (6, pos 50)
          ∷ (7, pos 50)
          ∷ (8, pos 50)
          ∷ (9, pos 50)
          ∷ (10, pos 50)
          ∷ [],
    )
    ∷ (
      19,
      (1, pos 50)
          ∷ (2, pos 50)
          ∷ (3, pos 50)
          ∷ (4, pos 50)
          ∷ (5, pos 50)
          ∷ (6, pos 50)
          ∷ (7, pos 50)
          ∷ (8, pos 50)
          ∷ (9, pos 50)
          ∷ (10, pos 50)
          ∷ [],
    )
    ∷ (
      20,
      (1, pos 50)
          ∷ (2, pos 50)
          ∷ (3, pos 50)
          ∷ (4, pos 50)
          ∷ (5, pos 50)
          ∷ (6, pos 50)
          ∷ (7, pos 50)
          ∷ (8, pos 50)
          ∷ (9, pos 50)
          ∷ (10, pos 50)
          ∷ [],
    )
    ∷ (
      21,
      (1, pos 50)
          ∷ (2, pos 50)
          ∷ (3, pos 50)
          ∷ (4, pos 50)
          ∷ (5, pos 50)
          ∷ (6, pos 50)
          ∷ (7, pos 50)
          ∷ (8, pos 50)
          ∷ (9, pos 50)
          ∷ (10, pos 50)
          ∷ [],
    )
    ∷ (
      22,
      (1, pos 50)
          ∷ (2, pos 50)
          ∷ (3, pos 50)
          ∷ (4, pos 50)
          ∷ (5, pos 50)
          ∷ (6, pos 50)
          ∷ (7, pos 50)
          ∷ (8, pos 50)
          ∷ (9, pos 50)
          ∷ (10, pos 50)
          ∷ [],
    )
    ∷ []

unfoldable pub hash_table_gen1 : List (ℕ × List Traits)
hash_table_gen1 =
    (
      15,
      (35, 1)
          ∷ (35, 2)
          ∷ (35, 3)
          ∷ (35, 4)
          ∷ (35, 5)
          ∷ (35, 6)
          ∷ (35, 7)
          ∷ (35, 8)
          ∷ (35, 9)
          ∷ (35, 10)
          ∷ [],
    )
    ∷ (
      35,
      (23, 1)
          ∷ (23, 2)
          ∷ (23, 3)
          ∷ (23, 4)
          ∷ (23, 5)
          ∷ (23, 6)
          ∷ (23, 7)
          ∷ (23, 8)
          ∷ (23, 9)
          ∷ (23, 10)
          ∷ (24, 1)
          ∷ (24, 2)
          ∷ (24, 3)
          ∷ (24, 4)
          ∷ (24, 5)
          ∷ (24, 6)
          ∷ (24, 7)
          ∷ (24, 8)
          ∷ (24, 9)
          ∷ (24, 10)
          ∷ (25, 1)
          ∷ (25, 2)
          ∷ (25, 3)
          ∷ (25, 4)
          ∷ (25, 5)
          ∷ (25, 6)
          ∷ (25, 7)
          ∷ (25, 8)
          ∷ (25, 9)
          ∷ (25, 10)
          ∷ (26, 1)
          ∷ (26, 2)
          ∷ (26, 3)
          ∷ (26, 4)
          ∷ (26, 5)
          ∷ (26, 6)
          ∷ (26, 7)
          ∷ (26, 8)
          ∷ (26, 9)
          ∷ (26, 10)
          ∷ (27, 1)
          ∷ (27, 2)
          ∷ (27, 3)
          ∷ (27, 4)
          ∷ (27, 5)
          ∷ (27, 6)
          ∷ (27, 7)
          ∷ (27, 8)
          ∷ (27, 9)
          ∷ (27, 10)
          ∷ (28, 1)
          ∷ (28, 2)
          ∷ (28, 3)
          ∷ (28, 4)
          ∷ (28, 5)
          ∷ (28, 6)
          ∷ (28, 7)
          ∷ (28, 8)
          ∷ (28, 9)
          ∷ (28, 10)
          ∷ (29, 1)
          ∷ (29, 2)
          ∷ (29, 3)
          ∷ (29, 4)
          ∷ (29, 5)
          ∷ (29, 6)
          ∷ (29, 7)
          ∷ (29, 8)
          ∷ (29, 9)
          ∷ (29, 10)
          ∷ (30, 1)
          ∷ (30, 2)
          ∷ (30, 3)
          ∷ (30, 4)
          ∷ (30, 5)
          ∷ (30, 6)
          ∷ (30, 7)
          ∷ (30, 8)
          ∷ (30, 9)
          ∷ (30, 10)
          ∷ (31, 1)
          ∷ (31, 2)
          ∷ (31, 3)
          ∷ (31, 4)
          ∷ (31, 5)
          ∷ (31, 6)
          ∷ (31, 7)
          ∷ (31, 8)
          ∷ (31, 9)
          ∷ (31, 10)
          ∷ (32, 1)
          ∷ (32, 2)
          ∷ (32, 3)
          ∷ (32, 4)
          ∷ (32, 5)
          ∷ (32, 6)
          ∷ (32, 7)
          ∷ (32, 8)
          ∷ (32, 9)
          ∷ (32, 10)
          ∷ (33, 1)
          ∷ (33, 2)
          ∷ (33, 3)
          ∷ (33, 4)
          ∷ (33, 5)
          ∷ (33, 6)
          ∷ (33, 7)
          ∷ (33, 8)
          ∷ (33, 9)
          ∷ (33, 10)
          ∷ (34, 1)
          ∷ (34, 2)
          ∷ (34, 3)
          ∷ (34, 4)
          ∷ (34, 5)
          ∷ (34, 6)
          ∷ (34, 7)
          ∷ (34, 8)
          ∷ (34, 9)
          ∷ (34, 10)
          ∷ [],
    )
    ∷ (
      50,
      (16, 1)
          ∷ (16, 2)
          ∷ (16, 3)
          ∷ (16, 4)
          ∷ (16, 5)
          ∷ (16, 6)
          ∷ (16, 7)
          ∷ (16, 8)
          ∷ (16, 9)
          ∷ (16, 10)
          ∷ (17, 1)
          ∷ (17, 2)
          ∷ (17, 3)
          ∷ (17, 4)
          ∷ (17, 5)
          ∷ (17, 6)
          ∷ (17, 7)
          ∷ (17, 8)
          ∷ (17, 9)
          ∷ (17, 10)
          ∷ (18, 1)
          ∷ (18, 2)
          ∷ (18, 3)
          ∷ (18, 4)
          ∷ (18, 5)
          ∷ (18, 6)
          ∷ (18, 7)
          ∷ (18, 8)
          ∷ (18, 9)
          ∷ (18, 10)
          ∷ (19, 1)
          ∷ (19, 2)
          ∷ (19, 3)
          ∷ (19, 4)
          ∷ (19, 5)
          ∷ (19, 6)
          ∷ (19, 7)
          ∷ (19, 8)
          ∷ (19, 9)
          ∷ (19, 10)
          ∷ (20, 1)
          ∷ (20, 2)
          ∷ (20, 3)
          ∷ (20, 4)
          ∷ (20, 5)
          ∷ (20, 6)
          ∷ (20, 7)
          ∷ (20, 8)
          ∷ (20, 9)
          ∷ (20, 10)
          ∷ (21, 1)
          ∷ (21, 2)
          ∷ (21, 3)
          ∷ (21, 4)
          ∷ (21, 5)
          ∷ (21, 6)
          ∷ (21, 7)
          ∷ (21, 8)
          ∷ (21, 9)
          ∷ (21, 10)
          ∷ (22, 1)
          ∷ (22, 2)
          ∷ (22, 3)
          ∷ (22, 4)
          ∷ (22, 5)
          ∷ (22, 6)
          ∷ (22, 7)
          ∷ (22, 8)
          ∷ (22, 9)
          ∷ (22, 10)
          ∷ [],
    )
    ∷ []

abbrev pub hash_table_reward : List (ℕ × Reward)
hash_table_reward =
    (2, record { token_id = 4; amount = 10; price = usd1000 })
    ∷ (3, record { token_id = 3; amount = 22; price = usd420 })
    ∷ (6, record { token_id = 2; amount = 65; price = usd200 })
    ∷ (9, record { token_id = 1; amount = 200; price = usd100 })
    ∷ []
