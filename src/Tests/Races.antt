-- ===== src/Tests/Races.antt =====
-- Requests that run at the same time.
use backend.Common.{ℕ, ◌+◌, ◌≤◌, ◌≡◌, refl, arith, true, false, none, some, List, [], ◌∷◌, tally}
use backend.Common.Int.{pos}
use backend.Schema.{ok, err, Error, BreedPair, BreedSlot}
use backend.Db.{State}
use backend.Env.{goerli}
use backend.User.Points.{user_at}
use backend.Bud.{get_metadatas, check_bud_pair_genders, chunks, chunks_from}
use backend.Breed.{CreateBreedPair}
use backend.Admin.{AdminDto}
use backend.Admin.Deposits.{logged}
use backend.Races.{deposit, withdrawal, Task, validates, reported, consumes, run}
use backend.Races.Once.{credits, run-credits_once}
use backend.Races.Solvency.{AllSolvent, run-AllSolvent}
use backend.Races.Lost.{with_points, BothDone, deposits-lost}
use backend.Races.Twice.{withdrawal-twice}
use backend.Races.Pairs.{in_turn, interleaved, on_slot, create_pair-raced}
use backend.Sessions.{IsGood, with_male}
use backend.Tests.Fixtures.{env, caller, user, slot, metadata, start}

abbrev dto : AdminDto
dto = record { address = 7; tx_hash = 99; block = 5; network = goerli }

abbrev other : AdminDto
other = record dto { tx_hash = 100 }

-- Two reports of one deposit, and a consumption.
abbrev requests : List Task
requests = validates deposit dto 1200 ∷ validates deposit dto 1200 ∷ consumes 7 15 ∷ []

abbrev schedule : List ℕ
schedule = 0 ∷ 1 ∷ 2 ∷ 1 ∷ 0 ∷ 0 ∷ 2 ∷ 1 ∷ 0 ∷ 1 ∷ []

run-credits_once_example :
    tally (credits 99) (run env schedule requests start).0 + logged 99 start ≤ 1
run-credits_once_example =
    run-credits_once env schedule requests start 99 (refl, (refl, (refl, tt))) (omega arith)

run-AllSolvent_example : AllSolvent (run env schedule requests start).1
run-AllSolvent_example =
    run-AllSolvent env schedule requests start (tt, (tt, (tt, tt))) (omega arith, tt)

-- Deposits of 12 and of 20 points.
deposits-lost_example :
    BothDone deposit dto other (with_points deposit 2000 (with_points deposit 1200 user)) (
      run env
        (0 ∷ 0 ∷ 0 ∷ 0 ∷ 1 ∷ 1 ∷ 1 ∷ 1 ∷ [])
        (validates deposit dto 1200 ∷ validates deposit other 2000 ∷ [])
        start)
    × BothDone deposit dto other (with_points deposit 2000 user) (
        run env
          (0 ∷ 1 ∷ 0 ∷ 1 ∷ 0 ∷ 1 ∷ 0 ∷ 1 ∷ [])
          (validates deposit dto 1200 ∷ validates deposit other 2000 ∷ [])
          start)
deposits-lost_example =
    deposits-lost env dto other 1200 2000 start user refl refl refl refl refl refl refl refl refl

-- A withdrawal of 20 points from 50, reported twice.
withdrawal-twice_example :
    ((run env
        (0 ∷ 1 ∷ 0 ∷ 0 ∷ 1 ∷ 1 ∷ 0 ∷ 1 ∷ [])
        (validates withdrawal dto 2000 ∷ validates withdrawal dto 2000 ∷ [])
        start).0
      ≡ reported withdrawal dto (ok true) ∷ reported withdrawal dto (ok false) ∷ [])
    × (user_at 7
          (run env
            (0 ∷ 1 ∷ 0 ∷ 0 ∷ 1 ∷ 1 ∷ 0 ∷ 1 ∷ [])
            (validates withdrawal dto 2000 ∷ validates withdrawal dto 2000 ∷ [])
            start).1
        ≡ some (with_points withdrawal 2000 (with_points withdrawal 2000 user)))
withdrawal-twice_example = withdrawal-twice env dto 2000 start user refl refl refl refl

-- The user's two open slots.
abbrev second_slot : BreedSlot
second_slot = record slot { id = 2 }

abbrev two_slots : State
two_slots = record start { slots = record { rows = slot ∷ second_slot ∷ []; next = 3 } }

abbrev body : CreateBreedPair
body = record {
  male_bud_id = pos 1;
  female_bud_id = pos 2;
  slot_id = 1;
  game_item_id = none;
  upgrade_slot = false;
}

create_pair-raced_example :
    ((s' : State) × (in_turn env caller body (on_slot body 2) two_slots
        ≡ (err (Error.conflict "One of the bud pairs is in breeding"), s')))
    × ((both : BreedPair × BreedPair) × (s' : State) × (interleaved env caller body
            (on_slot body 2)
            two_slots
          ≡ (ok both, s'))
        × (tally (with_male (pos 1)) s'.pairs.rows ≡ 2)
        × ¬ IsGood s')
unfolding get_metadatas check_bud_pair_genders chunks chunks_from
create_pair-raced_example =
    create_pair-raced env caller body 2 (metadata (pos 1)) (metadata (pos 2)) slot second_slot
      two_slots (λ n. omega arith)
      (
        omega arith,
        (refl, refl, refl, refl, refl, refl),
        λ t. refl,
        refl,
        (refl, refl),
        (refl, refl),
        refl,
        (refl, refl),
        (refl, refl),
      )
