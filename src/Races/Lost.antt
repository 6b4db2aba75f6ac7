-- ===== src/Races/Lost.antt =====
-- Reports that read a user's points before another one has written them (`addBreedingPoint` and
-- `withdrawBreedingPoint` of src/admin/admin.controller.ts).
use backend.Common.{ℕ, ◌%◌, ◌/◌, ◌≡◌, refl, sym, ◌∙◌, true, false, some, List, [], ◌∷◌, ◌==◌, arith}
use mathlib.Core.Path.{subst}
use backend.Schema.{ok, Address, User, points, deposit_bp}
use backend.Db.{State}
use backend.Env.{Env}
use backend.User.Points.{user_at, found_after}
use backend.Admin.{AdminDto, same_network, event}
use backend.Admin.Deposits.{logged, with_log, credited}
use backend.Races.Tasks.{Report, deposit, Task, validates, reported, balance, run}
use backend.Races.Once.{grown}
use backend.Races.Schedules.{
  turn_first, turn_second, no_turns, advance-validates, advance-reads, advance-logs, advance-writes,
}

-- The user after a report that has read these points.
abbrev pub with_points : Report → ℕ → User → User
with_points r amount u = record u { breeding_point = balance r u (amount / 100) }

pub credited-user_at :
    (a : Address) (u v : User) (s : State)
    → user_at a s ≡ some v
    → user_at a (credited a u s) ≡ some (record v { breeding_point = u.breeding_point })
credited-user_at a u v s e =
    found_after a (λ x. record x { breeding_point = u.breeding_point }) s.users v (λ x. refl) e

-- Both reports answer with success, and the user has these points.
abbrev pub BothDone : Report → AdminDto → AdminDto → User → List Task × State → Type 0
BothDone r dto dto' u (ts, s) =
    (ts ≡ reported r dto (ok true) ∷ reported r dto' (ok true) ∷ [])
    × (user_at dto.address s ≡ some u)

module _ (env : Env) (dto dto' : AdminDto) (m n : ℕ) (s : State) (u : User)
    (net : same_network dto.network env.network ≡ true)
    (net' : same_network dto'.network env.network ≡ true) (new : logged dto.tx_hash s ≡ 0)
    (new' : logged dto'.tx_hash s ≡ 0) (apart : (dto.tx_hash == dto'.tx_hash) ≡ false)
    (same : dto'.address ≡ dto.address) (found : user_at dto.address s ≡ some u)
    (whole : (m % 100 == 0) ≡ true) (whole' : (n % 100 == 0) ≡ true) where
  abbrev log_of : AdminDto → ℕ → User → State → State
  log_of d k v t = with_log (event env d deposit_bp (points k v.breeding_point)) t

  still_new : (v : User) → logged dto'.tx_hash (log_of dto m v s) ≡ 0
  still_new v =
      grown dto'.tx_hash (event env dto deposit_bp (points m v.breeding_point)) s
      ∙ rw apart (omega (arith, new'))

  abbrev other_log : State
  other_log = log_of dto' n u (log_of dto m u s)

  abbrev first_write : State
  first_write = credited dto.address (with_points deposit m u) other_log

  -- The second write finds the user, by either report's address.
  second_write :
      (v w : User) (t : State)
      → user_at dto.address t ≡ some w
      → user_at dto.address (credited dto'.address v t)
        ≡ some (record w { breeding_point = v.breeding_point })
  second_write v w t e =
      subst
        (λ b.
          user_at dto.address (credited b v t)
          ≡ some (record w { breeding_point = v.breeding_point }))
        (sym same) (credited-user_at dto.address v w t e)

  written_once : user_at dto.address first_write ≡ some (with_points deposit m u)
  written_once = credited-user_at dto.address (with_points deposit m u) u other_log found

  both_read_first : BothDone deposit dto dto' (with_points deposit n u) (
      run env
        (0 ∷ 1 ∷ 0 ∷ 1 ∷ 0 ∷ 1 ∷ 0 ∷ 1 ∷ [])
        (validates deposit dto m ∷ validates deposit dto' n ∷ [])
        s)
  both_read_first = subst (BothDone deposit dto dto' (with_points deposit n u)) (sym path) (
    refl,
    second_write (with_points deposit n u) (with_points deposit m u) first_write written_once,
  )
    where
      path :
          run env
            (0 ∷ 1 ∷ 0 ∷ 1 ∷ 0 ∷ 1 ∷ 0 ∷ 1 ∷ [])
            (validates deposit dto m ∷ validates deposit dto' n ∷ [])
            s
          ≡ (
            reported deposit dto (ok true) ∷ reported deposit dto' (ok true) ∷ [],
            credited dto'.address (with_points deposit n u) first_write,
          )
      path = turn_first env _ _ _ _ (advance-validates env deposit dto m s net new) (
          turn_second env _ _ _ _ _ (advance-validates env deposit dto' n s net' new') (
            turn_first env _ _ _ _ (advance-reads env deposit dto m s u found) (
              turn_second env _ _ _ _ _ (advance-reads env deposit dto' n s u (rw same found)) (
                turn_first env _ _ _ _ (advance-logs env deposit dto m s u new) (
                  turn_second env _ _ _ _ _
                    (advance-logs env deposit dto' n (log_of dto m u s) u (still_new u))
                    (turn_first env _ _ _ _
                      (advance-writes env deposit dto m other_log u u found whole)
                      (turn_second env _ _ _ _ _
                        (advance-writes env deposit dto' n first_write u (with_points deposit m u)
                          (rw same written_once) whole')
                        (no_turns env _ _))))))))

  abbrev first_done : State
  first_done = credited dto.address (with_points deposit m u) (log_of dto m u s)

  abbrev both_done : State
  both_done = log_of dto' n (with_points deposit m u) first_done

  one_by_one : BothDone deposit dto dto' (with_points deposit n (with_points deposit m u)) (
      run env
        (0 ∷ 0 ∷ 0 ∷ 0 ∷ 1 ∷ 1 ∷ 1 ∷ 1 ∷ [])
        (validates deposit dto m ∷ validates deposit dto' n ∷ [])
        s)
  one_by_one =
      subst (BothDone deposit dto dto' twice) (sym path)
        (refl, second_write twice once both_done credited_once)
    where
      once : User
      once = with_points deposit m u

      twice : User
      twice = with_points deposit n once

      credited_once : user_at dto.address first_done ≡ some once
      credited_once = credited-user_at dto.address once u (log_of dto m u s) found

      path :
          run env
            (0 ∷ 0 ∷ 0 ∷ 0 ∷ 1 ∷ 1 ∷ 1 ∷ 1 ∷ [])
            (validates deposit dto m ∷ validates deposit dto' n ∷ [])
            s
          ≡ (
            reported deposit dto (ok true) ∷ reported deposit dto' (ok true) ∷ [],
            credited dto'.address twice both_done,
          )
      path = turn_first env _ _ _ _ (advance-validates env deposit dto m s net new) (
          turn_first env _ _ _ _ (advance-reads env deposit dto m s u found) (
            turn_first env _ _ _ _ (advance-logs env deposit dto m s u new) (
              turn_first env _ _ _ _
                (advance-writes env deposit dto m (log_of dto m u s) u u found whole)
                (turn_second env _ _ _ _ _
                  (advance-validates env deposit dto' n first_done net' (still_new u))
                  (turn_second env _ _ _ _ _
                    (advance-reads env deposit dto' n first_done once (rw same credited_once))
                    (turn_second env _ _ _ _ _
                      (advance-logs env deposit dto' n first_done once (still_new u))
                      (turn_second env _ _ _ _ _
                        (advance-writes env deposit dto' n both_done once once
                          (rw same credited_once) whole')
                        (no_turns env _ _))))))))

  -- Two deposits of whole points for a user that exists, by transactions that are not logged and
  -- differ, both answer with success: one after the other they add up, but where both read the
  -- user before either writes, the user has the second one's points alone.
  pub deposits-lost :
      BothDone deposit dto dto' (with_points deposit n (with_points deposit m u)) (
        run env
          (0 ∷ 0 ∷ 0 ∷ 0 ∷ 1 ∷ 1 ∷ 1 ∷ 1 ∷ [])
          (validates deposit dto m ∷ validates deposit dto' n ∷ [])
          s)
      × BothDone deposit dto dto' (with_points deposit n u) (
          run env
            (0 ∷ 1 ∷ 0 ∷ 1 ∷ 0 ∷ 1 ∷ 0 ∷ 1 ∷ [])
            (validates deposit dto m ∷ validates deposit dto' n ∷ [])
            s)
  deposits-lost = (one_by_one, both_read_first)
