-- ===== src/Tests/Points.antt =====
-- Deposits, withdrawals, and gift cards.
use backend.Common.{some, ◌≡◌, refl, arith, none, true}
use backend.Common.Int.{pos, ◌+ℤ◌, ◌-ℤ◌}
use backend.Schema.{Error, ok, err, deposit_bp, withdraw_bp, points}
use backend.Env.{goerli}
use backend.User.{consume_breeding_point}
use backend.User.Points.{Consumed, consume_breeding_point-Consumed}
use backend.Admin.{
  AdminDto, InvalidateSlots, invalidate_slots, delete_slots, check_key_owner, event,
  add_breeding_point, withdraw_breeding_point,
}
use backend.Admin.Deposits.{credited, with_log, reports-accepted, add_breeding_point-once}
use backend.Admin.Transfers.{Deleted, key_slots, invalidate_slots-Deleted}
use backend.Env.{addresses}
use backend.GiftCard.{dice}
use backend.GiftCard.Supply.{WithinSupply, dice-WithinSupply}
use backend.Tests.Fixtures.{env, user, start}

abbrev dto : AdminDto
dto = record { address = 7; tx_hash = 99; block = 5; network = goerli }

consume_breeding_point-Consumed_example : Consumed 7 15 start (consume_breeding_point 7 15 start)
consume_breeding_point-Consumed_example = consume_breeding_point-Consumed 7 15 start

-- A deposit of 12.5 points, and the attempt to report it again as one of 12.
add_breeding_point-once_example :
    add_breeding_point env dto 1200 (add_breeding_point env dto 1250 start).1 ≡ (
      err (Error.unprocessable "Already handled this transaction"),
      (add_breeding_point env dto 1250 start).1,
    )
add_breeding_point-once_example =
    add_breeding_point-once env env dto dto 1250 1200 start user refl refl refl refl refl

dice-WithinSupply_example : WithinSupply (dice env 7 none start).1
dice-WithinSupply_example = dice-WithinSupply env 7 none start (λ v. omega arith)

-- The game key 3 goes from the user 7 to the user 8.
abbrev transfer : InvalidateSlots
transfer = record { prev_owner = 7; owner = 8; game_key_id = 3; option = some 201 }

invalidate_slots-Deleted_example :
    Deleted (key_slots transfer start) (invalidate_slots env transfer start).1
unfolding invalidate_slots delete_slots check_key_owner addresses
invalidate_slots-Deleted_example =
    invalidate_slots-Deleted env transfer start (invalidate_slots env transfer start).1 1 refl

-- A report of 60 points, as a deposit and as a withdrawal from 50.
reports-accepted_example :
    (add_breeding_point env dto 6000 start ≡ (
      ok true,
      credited 7
          (record user { breeding_point = pos 50 +ℤ pos 60 })
          (with_log (event env dto deposit_bp (points 6000 (pos 50))) start),
    ))
    × (withdraw_breeding_point env dto 6000 start ≡ (
      ok true,
      with_log
          (event env dto withdraw_bp (points 6000 (pos 50)))
          (credited 7 (record user { breeding_point = pos 50 -ℤ pos 60 }) start),
    ))
reports-accepted_example = reports-accepted env dto 6000 start user refl refl refl
