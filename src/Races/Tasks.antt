-- ===== src/Races/Tasks.antt =====
-- The requests that read a user's points and write them back, cut at their database calls:
-- `addBreedingPoint` and `withdrawBreedingPoint` of src/admin/admin.controller.ts, and
-- `consumeBreedingPoint` of src/user/user.service.ts.
use backend.Common.{ℕ, zero, suc, Option, Bool, true, false, List, [], ◌∷◌}
use backend.Common.Int.{ℤ, pos, ◌+ℤ◌, ◌-ℤ◌}
use backend.Schema.{
  Error, Result, ok, err, Address, User, EventType, points, deposit_bp, withdraw_bp,
}
use backend.Db.{State, ◌>>=◌, find_user, create_log}
use backend.Env.{Env}
use backend.User.{consume_found}
use backend.Admin.{AdminDto, validate_transaction, require_user, write_points, event}

-- Which of the two reports.
pub data Report : Type 0 where
  deposit withdrawal : Report

abbrev pub event_type : Report → EventType
event_type deposit = deposit_bp
event_type withdrawal = withdraw_bp

-- Where a request stands: what it does at its next call, with the variables that are live there.
pub data Task : Type 0 where
  validates : Report → AdminDto → (amount : ℕ) → Task  -- before `validateTransaction`
  reads : Report → AdminDto → (amount : ℕ) → Task  -- before `user.findUnique`
  logs : Report → AdminDto → (amount : ℕ) → User → Task  -- before `eventServiceLog.create`
  writes : Report → AdminDto → (amount : ℕ) → User → Task  -- before `user.update`
  reported : Report → AdminDto → Result Bool → Task
  consumes : Address → (amount : ℕ) → Task  -- before the `findUnique` of `consumeBreedingPoint`
  takes : Address → (amount : ℕ) → Option User → Task  -- before its `user.update`
  consumed : Address → Result User → Task

-- A call's answer goes on, and an error ends the request.
abbrev pub next : {A : Type 0} → (A → Task) → (Error → Task) → Result A × State → Task × State
next k stop (ok a, s) = (k a, s)
next k stop (err e, s) = (stop e, s)

-- After the user is read, a deposit logs first and a withdrawal writes first.
abbrev pub after_read : Report → AdminDto → ℕ → User → Task
after_read deposit dto amount u = logs deposit dto amount u
after_read withdrawal dto amount u = writes withdrawal dto amount u

abbrev pub after_log : Report → AdminDto → ℕ → User → Task
after_log deposit dto amount u = writes deposit dto amount u
after_log withdrawal dto amount u = reported withdrawal dto (ok true)

abbrev pub after_write : Report → AdminDto → ℕ → User → Task
after_write deposit dto amount u = reported deposit dto (ok true)
after_write withdrawal dto amount u = logs withdrawal dto amount u

-- The points that are written: of the user as it was read.
abbrev pub balance : Report → User → ℕ → ℤ
balance deposit u n = u.breeding_point +ℤ pos n
balance withdrawal u n = u.breeding_point -ℤ pos n

-- One call of a request. An error from the log's row on is caught: the answer is no success.
unfoldable pub advance : Env → Task → State → Task × State
advance env (validates r dto amount) s =
    next (λ _. reads r dto amount) (λ e. reported r dto (err e))
      (validate_transaction env dto (event_type r) s)
advance env (reads r dto amount) s =
    next (after_read r dto amount) (λ e. reported r dto (err e))
      ((find_user dto.address >>= require_user) s)
advance env (logs r dto amount u) s =
    next (λ _. after_log r dto amount u) (λ _. reported r dto (ok false))
      (create_log (event env dto (event_type r) (points amount u.breeding_point)) s)
advance env (writes r dto amount u) s =
    next (λ _. after_write r dto amount u) (λ _. reported r dto (ok false))
      (write_points dto.address (balance r u) amount s)
advance env (consumes a amount) s = next (takes a amount) (λ e. consumed a (err e)) (find_user a s)
advance env (takes a amount found) s =
    next (λ u. consumed a (ok u)) (λ e. consumed a (err e)) (consume_found a amount found s)
advance env (reported r dto answer) s = (reported r dto answer, s)
advance env (consumed a answer) s = (consumed a answer, s)

-- A turn of the request with a number; an answered request and one that is not there do nothing.
abbrev pub behind : Task → List Task × State → List Task × State
behind t (ts, s) = (t ∷ ts, s)

abbrev pub put : List Task → Task × State → List Task × State
put ts (t, s) = (t ∷ ts, s)

unfoldable pub turn : Env → ℕ → List Task → State → List Task × State
unfolding advance
turn env i [] s = ([], s)
turn env zero (t ∷ ts) s = put ts (advance env t s)
turn env (suc i) (t ∷ ts) s = behind t (turn env i ts s)

-- The requests in the order in which they get their turns.
unfoldable pub run : Env → List ℕ → List Task → State → List Task × State
unfolding turn
run env [] ts s = (ts, s)
run env (i ∷ is) ts s = let (ts', s') = turn env i ts s in run env is ts' s'
