-- ===== src/Races/Twice.antt =====
-- A withdrawal that is reported twice at the same time (`withdrawBreedingPoint` of
-- src/admin/admin.controller.ts, which writes the points before the log).
use backend.Common.{ℕ, ◌%◌, ◌≡◌, refl, sym, true, false, some, [], ◌∷◌, ◌==◌, eq→==}
use mathlib.Core.Path.{subst}
use backend.Schema.{ok, User, points, withdraw_bp}
use backend.Db.{State}
use backend.Env.{Env}
use backend.User.Points.{user_at}
use backend.Admin.{AdminDto, same_network, event}
use backend.Admin.Deposits.{logged, with_log, credited}
use backend.Races.Tasks.{withdrawal, validates, reported, run}
use backend.Races.Once.{grown}
use backend.Races.Schedules.{
  turn_first, turn_second, no_turns, advance-validates, advance-reads, advance-logs,
  advance-logs_again, advance-writes,
}
use backend.Races.Lost.{with_points, credited-user_at}

module _ (env : Env) (dto : AdminDto) (n : ℕ) (s : State) (u : User)
    (net : same_network dto.network env.network ≡ true) (new : logged dto.tx_hash s ≡ 0)
    (found : user_at dto.address s ≡ some u) (whole : (n % 100 == 0) ≡ true) where
  abbrev once : User
  once = with_points withdrawal n u

  abbrev twice : User
  twice = with_points withdrawal n once

  abbrev first_write : State
  first_write = credited dto.address once s

  abbrev second_write : State
  second_write = credited dto.address twice first_write

  abbrev own_log : State
  own_log = with_log (event env dto withdraw_bp (points n u.breeding_point)) second_write

  written_once : user_at dto.address first_write ≡ some once
  written_once = credited-user_at dto.address once u s found

  taken : (logged dto.tx_hash own_log == 0) ≡ false
  taken =
      rw
        (
          grown dto.tx_hash (event env dto withdraw_bp (points n u.breeding_point)) second_write,
          eq→== dto.tx_hash dto.tx_hash refl,
          new,
        )
        refl

  schedule :
      run env
        (0 ∷ 1 ∷ 0 ∷ 0 ∷ 1 ∷ 1 ∷ 0 ∷ 1 ∷ [])
        (validates withdrawal dto n ∷ validates withdrawal dto n ∷ [])
        s
      ≡ (reported withdrawal dto (ok true) ∷ reported withdrawal dto (ok false) ∷ [], own_log)
  schedule = turn_first env _ _ _ _ (advance-validates env withdrawal dto n s net new) (
      turn_second env _ _ _ _ _ (advance-validates env withdrawal dto n s net new) (
        turn_first env _ _ _ _ (advance-reads env withdrawal dto n s u found) (
          turn_first env _ _ _ _ (advance-writes env withdrawal dto n s u u found whole) (
            turn_second env _ _ _ _ _
              (advance-reads env withdrawal dto n first_write once written_once)
              (turn_second env _ _ _ _ _
                (advance-writes env withdrawal dto n first_write once once written_once whole)
                (turn_first env _ _ _ _ (advance-logs env withdrawal dto n second_write u new) (
                  turn_second env _ _ _ _ _
                    (advance-logs_again env withdrawal dto n own_log once taken)
                    (no_turns env _ _))))))))

  -- A withdrawal of whole points from a user that exists, by a transaction that is not logged,
  -- is reported twice at the same time: where both reports are validated before either logs, and
  -- the second reads the user after the first has written, the points are taken twice, and one
  -- report answers with success.
  pub withdrawal-twice :
      let x =
        run env
          (0 ∷ 1 ∷ 0 ∷ 0 ∷ 1 ∷ 1 ∷ 0 ∷ 1 ∷ [])
          (validates withdrawal dto n ∷ validates withdrawal dto n ∷ [])
          s in
      (x.0 ≡ reported withdrawal dto (ok true) ∷ reported withdrawal dto (ok false) ∷ [])
      × (user_at dto.address x.1 ≡ some (with_points withdrawal n (with_points withdrawal n u)))
  withdrawal-twice =
      subst
        (λ x.
          (x.0 ≡ reported withdrawal dto (ok true) ∷ reported withdrawal dto (ok false) ∷ [])
          × (user_at dto.address x.1 ≡ some twice))
        (sym schedule) (refl, credited-user_at dto.address twice once first_write written_once)
