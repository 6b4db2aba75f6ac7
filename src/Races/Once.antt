-- ===== src/Races/Once.antt =====
-- How often a transaction is credited when its reports run at the same time
-- (`addBreedingPoint` of src/admin/admin.controller.ts, `@@unique([txHash])` of
-- prisma/schema.prisma).
use backend.Common.{
  ℕ, zero, suc, ◌+◌, ◌≤◌, ◌≡◌, refl, ap, Bool, true, false, Option, List, [], ◌∷◌, All, arith,
  tally, tally-append, ◌==◌, ==→eq, if◌then◌else◌, Bool-cases, inl, inr,
}
use mathlib.Core.Path.{subst}
use backend.Schema.{Error, Result, ok, err, Address, User, EventServiceLog, points}
use backend.Common.Int.{ℤ}
use backend.Db.{State, ◌>>=◌, find_user, create_log}
use backend.Env.{Env}
use backend.User.{consume_found}
use backend.Admin.{AdminDto, validate_transaction, require_user, write_points, event}
use backend.Admin.Deposits.{logged, with_log}
use backend.Races.Reads.{validate_transaction-state, read-state}
use backend.Races.Tasks.{
  Report, deposit, withdrawal, event_type, Task, validates, reads, logs, writes, reported, consumes,
  takes, consumed, next, after_read, after_log, after_write, balance, advance, turn, run,
}

-- A request that has not begun.
abbrev pub is_new : Task → Bool
is_new (validates _ _ _) = true
is_new (consumes _ _) = true
is_new _ = false

-- A deposit of the transaction that is past its log's row: it is about to write the points, or has
-- answered with success.
abbrev pub credits : ℕ → Task → Bool
credits tx (writes deposit dto _ _) = dto.tx_hash == tx
credits tx (reported deposit dto (ok true)) = dto.tx_hash == tx
credits tx _ = false

abbrev pub one : Bool → ℕ
one b = if b then 1 else 0

-- What a call does to the log's rows of a transaction, and to whether the request credits it.
abbrev Kept : ℕ → Task → State → Task × State → Type 0
Kept tx t s (t', s') =
    (one (credits tx t') + logged tx s ≤ one (credits tx t) + logged tx s')
    × (logged tx s ≤ 1 → logged tx s' ≤ 1)

module _ (tx : ℕ) where
  -- A call that leaves the log alone, into a state that does not credit.
  same_log :
      {A : Type 0} (t : Task) (s : State) (k : A → Task) (stop : Error → Task)
      (r : Result A × State)
      → r.1.logs ≡ s.logs
      → ((a : A) → one (credits tx (k a)) ≤ one (credits tx t))
      → ((e : Error) → credits tx (stop e) ≡ false)
      → Kept tx t s (next k stop r)
  same_log t s k stop (ok a, s') l hk hs = rw l (omega (arith, hk a), λ h. h)
  same_log t s k stop (err e, s') l hk hs = rw (l, hs e) (omega arith, λ h. h)

  pub grown :
      (l : EventServiceLog) (s : State)
      → logged tx (with_log l s) ≡ logged tx s + one (l.tx_hash == tx)
  grown l s = omega (arith, tally-append (λ x. x.tx_hash == tx) s.logs (l ∷ []))

  none_yet :
      (l : EventServiceLog) (s : State)
      → (logged l.tx_hash s == 0) ≡ true
      → (l.tx_hash == tx) ≡ true
      → logged tx s ≡ 0
  none_yet l s h e =
      subst (λ x. logged x s ≡ 0) (==→eq l.tx_hash tx e) (==→eq (logged l.tx_hash s) 0 h)

  -- A new row is of one transaction, and is refused where the transaction has one.
  create_log-Kept :
      (l : EventServiceLog) (t k stop : Task) (s : State)
      → one (credits tx k) ≤ one (l.tx_hash == tx)
      → credits tx stop ≡ false
      → Kept tx t s (next (λ _. k) (λ _. stop) (create_log l s))
  create_log-Kept l t k stop s hk hs = elim (Bool-cases (logged l.tx_hash s == 0)) [
    | inl e ↦ rw e (
      omega (arith, grown l s, hk),
      λ few. ground (arith, grown l s, none_yet l s e, Bool-cases (l.tx_hash == tx)),
    )
    | inr e ↦ rw (e, hs) (omega arith, λ few. few)
  ]

write-logs :
    (dto : AdminDto) (f : ℕ → ℤ) (amount : ℕ) (s : State)
    → (write_points dto.address f amount s).1.logs ≡ s.logs
unfolding write_points
write-logs dto f amount s = ground arith

consume-logs :
    (a : Address) (amount : ℕ) (o : Option User) (s : State)
    → (consume_found a amount o s).1.logs ≡ s.logs
unfolding consume_found
consume-logs a amount o s = ground arith

module _ (tx : ℕ) (env : Env) where
  refused : (r : Report) (dto : AdminDto) (e : Error) → credits tx (reported r dto (err e)) ≡ false
  refused deposit dto e = refl
  refused withdrawal dto e = refl

  advance-Kept : (t : Task) (s : State) → Kept tx t s (advance env t s)
  unfolding advance
  advance-Kept (validates r dto amount) s =
      same_log tx (validates r dto amount) s (λ _. reads r dto amount) (λ e. reported r dto (err e))
        (validate_transaction env dto (event_type r) s)
        (ap (λ x. x.logs) (validate_transaction-state env dto (event_type r) s)) (λ _. omega arith)
        (refused r dto)
  advance-Kept (reads deposit dto amount) s =
      same_log tx (reads deposit dto amount) s (after_read deposit dto amount)
        (λ e. reported deposit dto (err e)) ((find_user dto.address >>= require_user) s)
        (ap (λ x. x.logs) (read-state dto.address s)) (λ _. omega arith) (λ _. refl)
  advance-Kept (reads withdrawal dto amount) s =
      same_log tx (reads withdrawal dto amount) s (after_read withdrawal dto amount)
        (λ e. reported withdrawal dto (err e)) ((find_user dto.address >>= require_user) s)
        (ap (λ x. x.logs) (read-state dto.address s)) (λ _. omega arith) (λ _. refl)
  advance-Kept (logs deposit dto amount u) s =
      create_log-Kept tx (event env dto (event_type deposit) (points amount u.breeding_point))
        (logs deposit dto amount u) (after_log deposit dto amount u)
        (reported deposit dto (ok false)) s (omega arith) refl
  advance-Kept (logs withdrawal dto amount u) s =
      create_log-Kept tx (event env dto (event_type withdrawal) (points amount u.breeding_point))
        (logs withdrawal dto amount u) (after_log withdrawal dto amount u)
        (reported withdrawal dto (ok false)) s (omega arith) refl
  advance-Kept (writes deposit dto amount u) s =
      same_log tx (writes deposit dto amount u) s (λ _. after_write deposit dto amount u)
        (λ _. reported deposit dto (ok false))
        (write_points dto.address (balance deposit u) amount s)
        (write-logs dto (balance deposit u) amount s) (λ _. omega arith) (λ _. refl)
  advance-Kept (writes withdrawal dto amount u) s =
      same_log tx (writes withdrawal dto amount u) s (λ _. after_write withdrawal dto amount u)
        (λ _. reported withdrawal dto (ok false))
        (write_points dto.address (balance withdrawal u) amount s)
        (write-logs dto (balance withdrawal u) amount s) (λ _. omega arith) (λ _. refl)
  advance-Kept (consumes a amount) s =
      same_log tx (consumes a amount) s (takes a amount) (λ e. consumed a (err e)) (find_user a s)
        refl (λ _. omega arith) (λ _. refl)
  advance-Kept (takes a amount o) s =
      same_log tx (takes a amount o) s (λ u. consumed a (ok u)) (λ e. consumed a (err e))
        (consume_found a amount o s) (consume-logs a amount o s) (λ _. omega arith) (λ _. refl)
  advance-Kept (reported r dto answer) s = (omega arith, λ h. h)
  advance-Kept (consumed a answer) s = (omega arith, λ h. h)

  -- The requests' sum of what each call keeps.
  turn-Kept :
      (i : ℕ) (ts : List Task) (s : State)
      → let x = turn env i ts s in
        (tally (credits tx) x.0 + logged tx s ≤ tally (credits tx) ts + logged tx x.1)
        × (logged tx s ≤ 1 → logged tx x.1 ≤ 1)
  unfolding turn
  turn-Kept i [] s = (omega arith, λ h. h)
  turn-Kept zero (t ∷ ts) s = let (few, one_row) = advance-Kept t s in (omega (arith, few), one_row)
  turn-Kept (suc i) (t ∷ ts) s =
      let (few, one_row) = turn-Kept i ts s in (omega (arith, few), one_row)

  run-Kept :
      (is : List ℕ) (ts : List Task) (s : State)
      → let x = run env is ts s in
        (tally (credits tx) x.0 + logged tx s ≤ tally (credits tx) ts + logged tx x.1)
        × (logged tx s ≤ 1 → logged tx x.1 ≤ 1)
  unfolding run
  run-Kept [] ts s = (omega arith, λ h. h)
  run-Kept (i ∷ is) ts s =
      let (few, one_row) = turn-Kept i ts s in
      let (few', one_row') = run-Kept is (turn env i ts s).0 (turn env i ts s).1 in
      (omega (arith, few, few'), λ h. one_row' (one_row h))

new_credits : (tx : ℕ) (ts : List Task) → All (λ t. is_new t ≡ true) ts → tally (credits tx) ts ≡ 0
new_credits tx [] h = refl
new_credits tx (validates _ _ _ ∷ ts) (h, hs) = omega (arith, new_credits tx ts hs)
new_credits tx (consumes _ _ ∷ ts) (h, hs) = omega (arith, new_credits tx ts hs)
new_credits tx (_ ∷ ts) (h, hs) = ground arith

-- Any number of reports and consumptions that have not begun run at the same time, and their
-- calls of the database interleave in any order: of the deposits of one transaction at most one
-- is past its log's row, about to write the points or answered with success, and none is if the
-- transaction was logged before; where the log had at most one row of the transaction.
pub run-credits_once :
    (env : Env) (is : List ℕ) (ts : List Task) (s : State) (tx : ℕ)
    → All (λ t. is_new t ≡ true) ts
    → logged tx s ≤ 1
    → tally (credits tx) (run env is ts s).0 + logged tx s ≤ 1
run-credits_once env is ts s tx new few =
    let (less, one_row) = run-Kept tx env is ts s in
    omega (arith, less, one_row few, new_credits tx ts new)
