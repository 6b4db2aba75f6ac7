-- ===== src/Stats/Deposits.antt =====
-- What the deposit history shows of the reports of src/admin/admin.controller.ts.
use backend.Common.{
  ℕ, ◌%◌, ◌≡◌, refl, Bool-cases, inl, inr, true, none, some, List, [], ◌∷◌, ◌++◌, map, keep, ◌==◌,
  if◌then◌else◌, ap, ◌∙◌,
}
use mathlib.Core.List.{append-nil}
use backend.Schema.{Address, Caller, User, EventServiceLog, ok, points, deposit_bp, withdraw_bp}
use backend.Db.{State}
use backend.Env.{Env}
use backend.User.Points.{user_at}
use backend.Admin.{AdminDto, same_network, event, add_breeding_point, withdraw_breeding_point}
use backend.Admin.Deposits.{logged, add_breeding_point-accepted, withdraw_breeding_point-accepted}
use backend.Stats.History.{BpDeposit, deposit_of, bp_deposit, get_bp_deposit_history, get_history}

abbrev deposits_in : Address → List EventServiceLog → List BpDeposit
deposits_in a logs = map bp_deposit (keep (deposit_of a) logs)

deposits_in-append :
    (a : Address) (logs more : List EventServiceLog)
    → deposits_in a (logs ++ more) ≡ deposits_in a logs ++ deposits_in a more
deposits_in-append a [] more = refl
deposits_in-append a (l ∷ logs) more = elim (Bool-cases (deposit_of a l)) [
  | inl t ↦ rw t rw (deposits_in-append a logs more) refl
  | inr t ↦ rw t (deposits_in-append a logs more)
]

-- The entry of a report.
abbrev pub entry_of : Env → AdminDto → ℕ → BpDeposit
entry_of env dto amount = record {
  tx_hash = dto.tx_hash;
  block_number = dto.block;
  created_at = env.now;
  amount = if amount == 0 then none else some amount;
}

one_entry :
    (env : Env) (dto : AdminDto) (amount : ℕ) (a : Address) (u : User)
    → deposits_in a (event env dto deposit_bp (points amount u.breeding_point) ∷ [])
      ≡ (if dto.address == a then entry_of env dto amount ∷ [] else [])
one_entry env dto amount a u = elim (Bool-cases (dto.address == a)) [
  | inl t ↦ rw t refl
  | inr t ↦ rw t refl
]

no_entry :
    (env : Env) (dto : AdminDto) (amount : ℕ) (a : Address) (u : User)
    → deposits_in a (event env dto withdraw_bp (points amount u.breeding_point) ∷ []) ≡ []
no_entry env dto amount a u = elim (Bool-cases (dto.address == a)) [
  | inl t ↦ rw t refl
  | inr t ↦ rw t refl
]

longer :
    (env : Env) (dto : AdminDto) (amount : ℕ) (a : Address) (u : User) (logs : List EventServiceLog)
    → deposits_in a (logs ++ event env dto deposit_bp (points amount u.breeding_point) ∷ [])
      ≡ deposits_in a logs ++ (if dto.address == a then entry_of env dto amount ∷ [] else [])
longer env dto amount a u logs =
    deposits_in-append a logs _ ∙ ap (λ d. deposits_in a logs ++ d) (one_entry env dto amount a u)

as_long :
    (env : Env) (dto : AdminDto) (amount : ℕ) (a : Address) (u : User) (logs : List EventServiceLog)
    → deposits_in a (logs ++ event env dto withdraw_bp (points amount u.breeding_point) ∷ [])
      ≡ deposits_in a logs
as_long env dto amount a u logs =
    deposits_in-append a logs _
    ∙ ap (λ d. deposits_in a logs ++ d) (no_entry env dto amount a u)
    ∙ append-nil (deposits_in a logs)

shows :
    (req : Caller) (s : State) (ds : List BpDeposit)
    → deposits_in req.user s.logs ≡ ds
    → get_history req s ≡ (ok ds, s)
unfolding get_history get_bp_deposit_history
shows req s ds h = ap (λ x. (ok x, s)) h

deposit_shown :
    (env : Env) (a : Address) (dto : AdminDto) (amount : ℕ) (s : State) (u : User)
    → same_network dto.network env.network ≡ true
    → logged dto.tx_hash s ≡ 0
    → user_at dto.address s ≡ some u
    → deposits_in a (add_breeding_point env dto amount s).1.logs
      ≡ deposits_in a s.logs ++ (if dto.address == a then entry_of env dto amount ∷ [] else [])
deposit_shown env a dto amount s u n l e = elim (Bool-cases (amount % 100 == 0)) [
  | inl t ↦
      rw (add_breeding_point-accepted env dto amount s u n l e) rw t
        (longer env dto amount a u s.logs)
  | inr t ↦
      rw (add_breeding_point-accepted env dto amount s u n l e) rw t
        (longer env dto amount a u s.logs)
]

withdrawal_hidden :
    (env : Env) (a : Address) (dto : AdminDto) (amount : ℕ) (s : State) (u : User)
    → same_network dto.network env.network ≡ true
    → logged dto.tx_hash s ≡ 0
    → user_at dto.address s ≡ some u
    → deposits_in a (withdraw_breeding_point env dto amount s).1.logs ≡ deposits_in a s.logs
withdrawal_hidden env a dto amount s u n l e = elim (Bool-cases (amount % 100 == 0)) [
  | inl t ↦
      rw (withdraw_breeding_point-accepted env dto amount s u n l e) rw t
        (as_long env dto amount a u s.logs)
  | inr t ↦ rw (withdraw_breeding_point-accepted env dto amount s u n l e) rw t refl
]

-- For a user that exists and a transaction of the right network that is not logged: a deposit
-- adds to the user's history, and to no other's, one entry at the end, with its transaction, its
-- block, the time and the amount, which is null for 0, whether it was whole and so was credited
-- or not; a withdrawal adds nothing to any history.
pub get_history-deposits :
    (env : Env) (req : Caller) (dto : AdminDto) (amount : ℕ) (s : State) (u : User)
    → same_network dto.network env.network ≡ true
    → logged dto.tx_hash s ≡ 0
    → user_at dto.address s ≡ some u
    → let before = deposits_in req.user s.logs in
      let d = (add_breeding_point env dto amount s).1 in
      let w = (withdraw_breeding_point env dto amount s).1 in
      (get_history req s ≡ (ok before, s))
      × (get_history req d ≡ (
        ok (before ++ (if dto.address == req.user then entry_of env dto amount ∷ [] else [])),
        d,
      ))
      × (get_history req w ≡ (ok before, w))
get_history-deposits env req dto amount s u n l e = (
  shows req s _ refl,
  shows req (add_breeding_point env dto amount s).1 _
      (deposit_shown env req.user dto amount s u n l e),
  shows req (withdraw_breeding_point env dto amount s).1 _
      (withdrawal_hidden env req.user dto amount s u n l e),
)
