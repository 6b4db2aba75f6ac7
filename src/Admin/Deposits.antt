-- ===== src/Admin/Deposits.antt =====
-- Deposits and withdrawals of points, reported by transactions of the chain
-- (src/admin/admin.controller.ts).
use backend.Common.{
  ℕ, ◌/◌, ◌%◌, ◌≡◌, refl, Bool-cases, true, false, inl, inr, arith, some, List, [], ◌∷◌, ◌++◌,
  tally, tally-append, change, ◌==◌, ltb, if◌then◌else◌, eq→==,
}
use backend.Common.Counting.{tally-le}
use backend.Common.Int.{pos, ◌+ℤ◌, ◌-ℤ◌}
use backend.Schema.{
  Error, Address, User, ok, err, EventServiceLog, EventType, LogData, points, deposit_bp,
  withdraw_bp,
}
use backend.Db.{State}
use backend.Env.{Env}
use backend.User.Points.{user_at}
use backend.Admin.Service.{AdminDto, same_network, is_event, validate_transaction}
use backend.Admin.Controller.{
  event, write_points, require_user, add_breeding_point, withdraw_breeding_point,
}

-- The rows of the log with a transaction's hash.
abbrev pub logged : ℕ → State → ℕ
logged tx s = tally (λ l. l.tx_hash == tx) s.logs

-- The validation of a transaction that is not logged.
pub valid :
    (env : Env) (dto : AdminDto) (type : EventType) (s : State)
    → same_network dto.network env.network ≡ true
    → logged dto.tx_hash s ≡ 0
    → validate_transaction env dto type s ≡ (ok tt, s)
unfolding validate_transaction
valid env dto type s n l = rw n (
    ground (
      arith,
      tally-le (is_event dto.tx_hash type) (λ l. l.tx_hash == dto.tx_hash) s.logs
          (λ x e. ground arith),
    ))

-- A user's points after a change, in the state.
abbrev pub credited : Address → User → State → State
credited a v s = record s {
  users =
      change (λ u. u.address == a) (λ u. record u { breeding_point = v.breeding_point }) s.users;
}

abbrev pub with_log : EventServiceLog → State → State
with_log l s = record s { logs = s.logs ++ l ∷ [] }

-- For a user that exists and a transaction of the right network that is not logged, a deposit of
-- whole points adds them and logs it; one that is not whole answers without success, and is
-- logged with no points added.
pub add_breeding_point-accepted :
    (env : Env) (dto : AdminDto) (amount : ℕ) (s : State) (u : User)
    → same_network dto.network env.network ≡ true
    → logged dto.tx_hash s ≡ 0
    → user_at dto.address s ≡ some u
    → add_breeding_point env dto amount s ≡ (
        if amount % 100 == 0
        then (
          ok true,
          credited dto.address
              (record u { breeding_point = u.breeding_point +ℤ pos (amount / 100) })
              (with_log (event env dto deposit_bp (points amount u.breeding_point)) s),
        )
        else (ok false, with_log (event env dto deposit_bp (points amount u.breeding_point)) s))
unfolding add_breeding_point write_points require_user
add_breeding_point-accepted env dto amount s u n l e = elim (Bool-cases (amount % 100 == 0)) [
  | inl t ↦ rw (valid env dto deposit_bp s n l, e, l, t) rw e refl
  | inr t ↦ rw (valid env dto deposit_bp s n l, e, l, t) refl
]

is_event-own :
    (env : Env) (dto : AdminDto) (d : LogData)
    → is_event dto.tx_hash deposit_bp (event env dto deposit_bp d) ≡ true
is_event-own env dto d = rw (eq→== dto.tx_hash dto.tx_hash refl) refl

one_more :
    (env : Env) (dto : AdminDto) (d : LogData) (logs : List EventServiceLog)
    → ltb 0 (tally (is_event dto.tx_hash deposit_bp) (logs ++ event env dto deposit_bp d ∷ []))
      ≡ true
one_more env dto d logs =
    rw (tally-append (is_event dto.tx_hash deposit_bp) logs (event env dto deposit_bp d ∷ [])) rw
      (is_event-own env dto d) (ground arith)

logged_once :
    (env : Env) (dto : AdminDto) (amount : ℕ) (s : State) (u : User)
    → same_network dto.network env.network ≡ true
    → logged dto.tx_hash s ≡ 0
    → user_at dto.address s ≡ some u
    → ltb 0 (tally (is_event dto.tx_hash deposit_bp) (add_breeding_point env dto amount s).1.logs)
      ≡ true
logged_once env dto amount s u n l e = elim (Bool-cases (amount % 100 == 0)) [
  | inl t ↦
      rw (add_breeding_point-accepted env dto amount s u n l e) rw t
        (one_more env dto (points amount u.breeding_point) s.logs)
  | inr t ↦
      rw (add_breeding_point-accepted env dto amount s u n l e) rw t
        (one_more env dto (points amount u.breeding_point) s.logs)
]

replayed :
    (env : Env) (dto : AdminDto) (amount tx : ℕ) (s : State)
    → same_network dto.network env.network ≡ true
    → dto.tx_hash ≡ tx
    → ltb 0 (tally (is_event tx deposit_bp) s.logs) ≡ true
    → add_breeding_point env dto amount s
      ≡ (err (Error.unprocessable "Already handled this transaction"), s)
unfolding add_breeding_point validate_transaction
replayed env dto amount tx s n h l = rw n rw h rw l refl

-- For a user that exists and a transaction of the right network that is not logged, a deposit's
-- transaction credits nothing more: whether its amount was whole or not, a second report of it
-- is refused, with any amount, and writes nothing.
pub add_breeding_point-once :
    (env env' : Env) (dto again : AdminDto) (amount amount' : ℕ) (s : State) (u : User)
    → same_network dto.network env.network ≡ true
    → logged dto.tx_hash s ≡ 0
    → user_at dto.address s ≡ some u
    → same_network again.network env'.network ≡ true
    → again.tx_hash ≡ dto.tx_hash
    → let s' = (add_breeding_point env dto amount s).1 in
      add_breeding_point env' again amount' s'
      ≡ (err (Error.unprocessable "Already handled this transaction"), s')
add_breeding_point-once env env' dto again amount amount' s u n l e n' h =
    replayed env' again amount' dto.tx_hash (add_breeding_point env dto amount s).1 n' h
      (logged_once env dto amount s u n l e)

-- For a user that exists and a transaction of the right network that is not logged, a withdrawal
-- of whole points takes them and logs it, however few points the user has; one that is not whole
-- answers without success and writes nothing.
pub withdraw_breeding_point-accepted :
    (env : Env) (dto : AdminDto) (amount : ℕ) (s : State) (u : User)
    → same_network dto.network env.network ≡ true
    → logged dto.tx_hash s ≡ 0
    → user_at dto.address s ≡ some u
    → withdraw_breeding_point env dto amount s ≡ (
        if amount % 100 == 0
        then (
          ok true,
          with_log (event env dto withdraw_bp (points amount u.breeding_point)) (
              credited dto.address
                (record u { breeding_point = u.breeding_point -ℤ pos (amount / 100) })
                s),
        )
        else (ok false, s))
unfolding withdraw_breeding_point write_points require_user
withdraw_breeding_point-accepted env dto amount s u n l e = elim (Bool-cases (amount % 100 == 0)) [
  | inl t ↦ rw (valid env dto withdraw_bp s n l, e, t) rw e rw l refl
  | inr t ↦ rw (valid env dto withdraw_bp s n l, e, t) refl
]

-- For a user that exists and a transaction of the right network that is not logged: a report of
-- whole points adds or takes them and is logged, a withdrawal however few points the user has;
-- one that is not whole answers without success, and as a deposit is logged all the same.
pub reports-accepted :
    (env : Env) (dto : AdminDto) (amount : ℕ) (s : State) (u : User)
    → same_network dto.network env.network ≡ true
    → logged dto.tx_hash s ≡ 0
    → user_at dto.address s ≡ some u
    → (add_breeding_point env dto amount s ≡ (
        if amount % 100 == 0
        then (
          ok true,
          credited dto.address
              (record u { breeding_point = u.breeding_point +ℤ pos (amount / 100) })
              (with_log (event env dto deposit_bp (points amount u.breeding_point)) s),
        )
        else (ok false, with_log (event env dto deposit_bp (points amount u.breeding_point)) s)))
      × (withdraw_breeding_point env dto amount s ≡ (
          if amount % 100 == 0
          then (
            ok true,
            with_log (event env dto withdraw_bp (points amount u.breeding_point)) (
                credited dto.address
                  (record u { breeding_point = u.breeding_point -ℤ pos (amount / 100) })
                  s),
          )
          else (ok false, s)))
reports-accepted env dto amount s u n l e = (
  add_breeding_point-accepted env dto amount s u n l e,
  withdraw_breeding_point-accepted env dto amount s u n l e,
)
