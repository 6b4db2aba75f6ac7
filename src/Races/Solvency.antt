-- ===== src/Races/Solvency.antt =====
-- Users' points while deposits and consumptions run at the same time (`addBreedingPoint` of
-- src/admin/admin.controller.ts, `consumeBreedingPoint` of src/user/user.service.ts).
use backend.Common.{
  ℕ, zero, suc, ◌/◌, ◌%◌, ◌≡◌, refl, Bool, false, Option, none, some, List, [], ◌∷◌, All, arith,
  ◌==◌, Bool-cases, inl, inr, Option-cases, first, change,
}
use backend.Common.Int.{ℤ, pos, ◌≤ℤ◌, ltb_ℤ, ◌+ℤ◌, +ℤ_parts}
use backend.Schema.{Error, Result, ok, err, Address, User, EventServiceLog, points}
use backend.Db.{State, continue, pure, ◌>>=◌, find_user, create_log, update_user}
use backend.Env.{Env}
use backend.User.{consume_found}
use backend.User.Points.{enough_left}
use backend.Admin.{AdminDto, validate_transaction, require_user, write_points, event}
use backend.Races.Reads.{validate_transaction-state, read-state}
use backend.Races.Tasks.{
  deposit, withdrawal, event_type, Task, validates, reads, logs, writes, reported, consumes, takes,
  consumed, next, after_read, after_log, after_write, balance, advance, turn, run,
}

abbrev pub IsSolvent : User → Type 0
IsSolvent u = pos 0 ≤ℤ u.breeding_point

-- No user is below zero.
abbrev pub AllSolvent : State → Type 0
AllSolvent s = All IsSolvent s.users

-- A request is no withdrawal, and the user that it has read is not below zero.
abbrev pub HoldsSolvent : Task → Type 0
HoldsSolvent (validates deposit _ _) = Unit
HoldsSolvent (reads deposit _ _) = Unit
HoldsSolvent (logs deposit _ _ u) = IsSolvent u
HoldsSolvent (writes deposit _ _ u) = IsSolvent u
HoldsSolvent (reported _ _ _) = Unit
HoldsSolvent (consumes _ _) = Unit
HoldsSolvent (takes _ _ _) = Unit
HoldsSolvent (consumed _ _) = Unit
HoldsSolvent _ = ⊥

found-IsSolvent :
    (w : User → Bool) (us : List User) (u : User)
    → All IsSolvent us
    → first w us ≡ some u
    → IsSolvent u
found-IsSolvent w [] u h e = ground arith
found-IsSolvent w (x ∷ us) u (h, hs) e = ground (arith, found-IsSolvent w us u hs)

changed-AllSolvent :
    (w : User → Bool) (f : User → User) (us : List User)
    → All IsSolvent us
    → ((u : User) → IsSolvent (f u))
    → All IsSolvent (change w f us)
changed-AllSolvent w f [] h hf = tt
changed-AllSolvent w f (x ∷ us) (h, hs) hf = ground (arith, changed-AllSolvent w f us hs hf, hf x)

pub update_user-AllSolvent :
    (a : Address) (f : User → User) (s : State)
    → AllSolvent s
    → ((u : User) → IsSolvent (f u))
    → AllSolvent (update_user a f s).1
update_user-AllSolvent a f s h hf = elim (Option-cases (first (λ u. u.address == a) s.users)) [
  | inl e ↦ rw e h
  | inr (u, e) ↦ rw e (changed-AllSolvent (λ u. u.address == a) f s.users h hf)
]

deposited : (n : ℤ) (m : ℕ) → pos 0 ≤ℤ n → pos 0 ≤ℤ (n +ℤ pos m)
deposited n m h = ground (arith, +ℤ_parts n (pos m))

abbrev KeepsSolvent : Task × State → Type 0
KeepsSolvent (t, s) = HoldsSolvent t × AllSolvent s

next-KeepsSolvent :
    {A : Type 0} (k : A → Task) (stop : Error → Task) (r : Result A × State)
    → AllSolvent r.1
    → ((a : A) → r.0 ≡ ok a → HoldsSolvent (k a))
    → ((e : Error) → HoldsSolvent (stop e))
    → KeepsSolvent (next k stop r)
next-KeepsSolvent k stop (ok a, s) h hk hs = (hk a refl, h)
next-KeepsSolvent k stop (err e, s) h hk hs = (hs e, h)

read-IsSolvent :
    (a : Address) (s : State) (u : User)
    → AllSolvent s
    → ((find_user a >>= require_user) s).0 ≡ ok u
    → IsSolvent u
unfolding require_user
read-IsSolvent a s u h e = elim (Option-cases (first (λ u. u.address == a) s.users)) [
  | inl n ↦ ground (arith, n, e)
  | inr (v, f) ↦ ground (arith, f, e, found-IsSolvent (λ u. u.address == a) s.users v h f)
]

ignored :
    {A : Type 0} (P : State → Type 0) (r : Result A × State)
    → P r.1
    → P (continue r.0 (λ _. pure tt) r.1).1
ignored P (ok a, s) h = h
ignored P (err e, s) h = h

write-AllSolvent :
    (dto : AdminDto) (u : User) (amount : ℕ) (s : State)
    → IsSolvent u
    → AllSolvent s
    → AllSolvent (write_points dto.address (balance deposit u) amount s).1
unfolding write_points
write-AllSolvent dto u amount s hu h = elim (Bool-cases (amount % 100 == 0)) [
  | inl t ↦ rw t (
      ignored AllSolvent
        (update_user dto.address
          (λ v. record v { breeding_point = balance deposit u (amount / 100) }) s)
        (update_user-AllSolvent dto.address _ s h
          (λ v. deposited u.breeding_point (amount / 100) hu)))
  | inr t ↦ rw t h
]

log-AllSolvent : (l : EventServiceLog) (s : State) → AllSolvent s → AllSolvent (create_log l s).1
log-AllSolvent l s h = ground arith

take-AllSolvent :
    (a : Address) (amount : ℕ) (o : Option User) (s : State)
    → AllSolvent s
    → AllSolvent (consume_found a amount o s).1
unfolding consume_found
take-AllSolvent a amount none s h = h
take-AllSolvent a amount (some u) s h = elim (Bool-cases (ltb_ℤ u.breeding_point (pos amount))) [
  | inl t ↦ rw t h
  | inr t ↦ rw t (update_user-AllSolvent a _ s h (λ v. (enough_left u.breeding_point amount t).1))
]

module _ (env : Env) where
  advance-KeepsSolvent :
      (t : Task) (s : State) → HoldsSolvent t → AllSolvent s → KeepsSolvent (advance env t s)
  unfolding advance
  advance-KeepsSolvent (validates deposit dto amount) s ht h =
      next-KeepsSolvent (λ _. reads deposit dto amount) (λ e. reported deposit dto (err e))
        (validate_transaction env dto (event_type deposit) s)
        (rw (validate_transaction-state env dto (event_type deposit) s) h) (λ _ _. tt) (λ _. tt)
  advance-KeepsSolvent (validates withdrawal dto amount) s ht h = ground arith
  advance-KeepsSolvent (reads deposit dto amount) s ht h =
      next-KeepsSolvent (after_read deposit dto amount) (λ e. reported deposit dto (err e))
        ((find_user dto.address >>= require_user) s) (rw (read-state dto.address s) h)
        (λ u e. read-IsSolvent dto.address s u h e) (λ _. tt)
  advance-KeepsSolvent (reads withdrawal dto amount) s ht h = ground arith
  advance-KeepsSolvent (logs deposit dto amount u) s ht h =
      next-KeepsSolvent (λ _. after_log deposit dto amount u) (λ _. reported deposit dto (ok false))
        (create_log (event env dto (event_type deposit) (points amount u.breeding_point)) s)
        (log-AllSolvent _ s h) (λ _ _. ht) (λ _. tt)
  advance-KeepsSolvent (logs withdrawal dto amount u) s ht h = ground arith
  advance-KeepsSolvent (writes deposit dto amount u) s ht h =
      next-KeepsSolvent (λ _. after_write deposit dto amount u)
        (λ _. reported deposit dto (ok false))
        (write_points dto.address (balance deposit u) amount s)
        (write-AllSolvent dto u amount s ht h) (λ _ _. tt) (λ _. tt)
  advance-KeepsSolvent (writes withdrawal dto amount u) s ht h = ground arith
  advance-KeepsSolvent (consumes a amount) s ht h = (tt, h)
  advance-KeepsSolvent (takes a amount o) s ht h =
      next-KeepsSolvent (λ u. consumed a (ok u)) (λ e. consumed a (err e))
        (consume_found a amount o s) (take-AllSolvent a amount o s h) (λ _ _. tt) (λ _. tt)
  advance-KeepsSolvent (reported r dto answer) s ht h = (tt, h)
  advance-KeepsSolvent (consumed a answer) s ht h = (tt, h)

  turn-solvent :
      (i : ℕ) (ts : List Task) (s : State)
      → All HoldsSolvent ts
      → AllSolvent s
      → All HoldsSolvent (turn env i ts s).0 × AllSolvent (turn env i ts s).1
  unfolding turn
  turn-solvent i [] s hts h = (tt, h)
  turn-solvent zero (t ∷ ts) s (ht, hts) h =
      let (ht', h') = advance-KeepsSolvent t s ht h in ((ht', hts), h')
  turn-solvent (suc i) (t ∷ ts) s (ht, hts) h =
      let (hts', h') = turn-solvent i ts s hts h in ((ht, hts'), h')

  run-solvent :
      (is : List ℕ) (ts : List Task) (s : State)
      → All HoldsSolvent ts
      → AllSolvent s
      → AllSolvent (run env is ts s).1
  unfolding run
  run-solvent [] ts s hts h = h
  run-solvent (i ∷ is) ts s hts h =
      let (hts', h') = turn-solvent i ts s hts h in
      run-solvent is (turn env i ts s).0 (turn env i ts s).1 hts' h'

-- However the calls of deposits and consumptions interleave, no user has points below zero after
-- them, where none had before and no request holds a user that has.
pub run-AllSolvent :
    (env : Env) (is : List ℕ) (ts : List Task) (s : State)
    → All HoldsSolvent ts
    → AllSolvent s
    → AllSolvent (run env is ts s).1
run-AllSolvent env is ts s hts h = run-solvent env is ts s hts h
