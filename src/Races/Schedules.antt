-- ===== src/Races/Schedules.antt =====
-- One call of a report after the other, where each goes through.
use backend.Common.{ℕ, ◌%◌, ◌/◌, ◌≡◌, refl, ap, ◌∙◌, true, false, some, List, [], ◌∷◌, ◌==◌}
use backend.Schema.{ok, User, points}
use backend.Db.{State}
use backend.Env.{Env}
use backend.User.Points.{user_at}
use backend.Admin.{AdminDto, same_network, event, require_user, write_points}
use backend.Admin.Deposits.{logged, valid, with_log, credited}
use backend.Races.Tasks.{
  Report, event_type, Task, validates, reads, logs, writes, reported, after_read, after_log,
  after_write, balance, next, advance, turn, run,
}

module _ (env : Env) where
  -- A schedule, from its first turn on.
  module _ (is : List ℕ) (t : Task) (ts : List Task) (s : State) {t' : Task} {s' : State}
      {end : List Task × State} where
    pub turn_first :
        advance env t s ≡ (t', s')
        → run env is (t' ∷ ts) s' ≡ end
        → run env (0 ∷ is) (t ∷ ts) s ≡ end
    unfolding run turn
    turn_first h rest = ap (λ x. run env is (x.0 ∷ ts) x.1) h ∙ rest

    pub turn_second :
        (x : Task)
        → advance env t s ≡ (t', s')
        → run env is (x ∷ t' ∷ ts) s' ≡ end
        → run env (1 ∷ is) (x ∷ t ∷ ts) s ≡ end
    unfolding run turn
    turn_second x h rest = ap (λ y. run env is (x ∷ y.0 ∷ ts) y.1) h ∙ rest

  pub no_turns : (ts : List Task) (s : State) → run env [] ts s ≡ (ts, s)
  unfolding run
  no_turns ts s = refl

  module _ (r : Report) (dto : AdminDto) (amount : ℕ) (s : State) where
    pub advance-validates :
        same_network dto.network env.network ≡ true
        → logged dto.tx_hash s ≡ 0
        → advance env (validates r dto amount) s ≡ (reads r dto amount, s)
    unfolding advance
    advance-validates n l =
        ap (next (λ _. reads r dto amount) _) (valid env dto (event_type r) s n l)

    pub advance-reads :
        (u : User)
        → user_at dto.address s ≡ some u
        → advance env (reads r dto amount) s ≡ (after_read r dto amount u, s)
    unfolding advance require_user
    advance-reads u e = rw e refl

    pub advance-logs :
        (u : User)
        → logged dto.tx_hash s ≡ 0
        → advance env (logs r dto amount u) s ≡ (
          after_log r dto amount u,
          with_log (event env dto (event_type r) (points amount u.breeding_point)) s,
        )
    unfolding advance
    advance-logs u l = rw l refl

    -- A second row of a transaction is refused, and the error is caught.
    pub advance-logs_again :
        (u : User)
        → (logged dto.tx_hash s == 0) ≡ false
        → advance env (logs r dto amount u) s ≡ (reported r dto (ok false), s)
    unfolding advance
    advance-logs_again u l = rw l refl

    pub advance-writes :
        (u v : User)
        → user_at dto.address s ≡ some v
        → (amount % 100 == 0) ≡ true
        → advance env (writes r dto amount u) s ≡ (
          after_write r dto amount u,
          credited dto.address (record u { breeding_point = balance r u (amount / 100) }) s,
        )
    unfolding advance write_points
    advance-writes u v e w = rw w rw e refl
