-- ===== src/Sessions/Points.antt =====
-- Deposits, withdrawals and burns touch neither pairs nor slots.
use backend.Common.{ℕ, ◌≡◌, refl, arith, Option, none, some}
use backend.Common.Int.{ℤ}
use backend.Schema.{Address, Result, ok, err, Bud, User, EventServiceLog, EventType}
use backend.Db.{State, Exec, Emitted, create_log, gets}
use backend.Db.Triple.{Frame, frame_rules}
use backend.Env.{Env}
use backend.Admin.{
  AdminDto, validate_transaction, tried, attempt, require_user, write_points, emit, burn_result,
  add_breeding_point, withdraw_breeding_point, burn_gen0_buds,
}
use backend.Sessions.Frames.{
  verify_bud_pairs-Frame, find_user-Frame, update_user-Frame, issue_gen1_bud_mint-Frame,
  dice_gen1_bud-Frame, find_pair_in_breeding-Frame,
}

-- What answers with an error, or not at all, and writes elsewhere.
tried-state : (r : Result (Unit {0}) × State) → (tried r).1 ≡ r.1
tried-state (ok u, s) = refl
tried-state (err e, s) = refl

attempt-Frame : (m : Exec (Unit {0})) → Frame m → Frame (attempt m)
attempt-Frame m h = record {
  pairs = λ s. rw (tried-state (m s)) (h.pairs s);
  slots = λ s. rw (tried-state (m s)) (h.slots s);
}

create_log-Frame : (l : EventServiceLog) → Frame (create_log l)
create_log-Frame l = record { pairs = λ s. ground arith; slots = λ s. ground arith }

gets-Frame : {A : Type 0} (f : State → A) → Frame (gets f)
gets-Frame f = record { pairs = λ s. refl; slots = λ s. refl }

require_user-Frame : (o : Option User) → Frame (require_user o)
unfolding require_user
require_user-Frame none = search frame_rules
require_user-Frame (some u) = search frame_rules

write_points-Frame : (a : Address) (p : ℕ → ℤ) (n : ℕ) → Frame (write_points a p n)
unfolding write_points
write_points-Frame a p n = search (frame_rules, update_user-Frame)

validate_transaction-Frame :
    (env : Env) (dto : AdminDto) (t : EventType) → Frame (validate_transaction env dto t)
unfolding validate_transaction
validate_transaction-Frame env dto t = search (frame_rules, gets-Frame)

ruleset admin_frames = (
  frame_rules, attempt-Frame, create_log-Frame, gets-Frame, require_user-Frame, write_points-Frame,
  validate_transaction-Frame, find_user-Frame,
)

pub add_breeding_point-Frame :
    (env : Env) (dto : AdminDto) (amount : ℕ) → Frame (add_breeding_point env dto amount)
unfolding add_breeding_point
add_breeding_point-Frame env dto amount = search admin_frames depth 9

pub withdraw_breeding_point-Frame :
    (env : Env) (dto : AdminDto) (amount : ℕ) → Frame (withdraw_breeding_point env dto amount)
unfolding withdraw_breeding_point
withdraw_breeding_point-Frame env dto amount = search admin_frames depth 9

emit-Frame : (e : Emitted) → Frame (emit e)
emit-Frame e = record { pairs = λ s. refl; slots = λ s. refl }

burn_result-Frame :
    (env : Env) (dto : AdminDto) (male female : ℤ) (o : Option Bud)
    → Frame (burn_result env dto male female o)
unfolding burn_result
burn_result-Frame env dto male female none = search (admin_frames, emit-Frame) depth 9
burn_result-Frame env dto male female (some b) =
    search (admin_frames, emit-Frame, issue_gen1_bud_mint-Frame) depth 9

pub burn_gen0_buds-Frame :
    (env : Env) (dto : AdminDto) (male female : ℤ) → Frame (burn_gen0_buds env dto male female)
unfolding burn_gen0_buds
burn_gen0_buds-Frame env dto male female =
    search
      (
        admin_frames, verify_bud_pairs-Frame, find_pair_in_breeding-Frame, dice_gen1_bud-Frame,
        burn_result-Frame,
      )
      depth 12
