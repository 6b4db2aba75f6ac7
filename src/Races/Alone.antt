-- ===== src/Races/Alone.antt =====
-- A request that runs alone does what its handler does.
use backend.Common.{ℕ, ◌≡◌, refl, Bool, false, List, [], ◌∷◌}
use backend.Schema.{Result, ok, err, Address, User, points, deposit_bp, withdraw_bp}
use backend.Db.{State, Exec, continue, ◌>>=◌, ◌>>◌, find_user, create_log}
use backend.Env.{Env}
use backend.User.{consume_found, consume_breeding_point}
use backend.Admin.{
  AdminDto, validate_transaction, require_user, write_points, event, tried, attempt,
  add_breeding_point, withdraw_breeding_point,
}
use backend.Races.Tasks.{
  deposit, withdrawal, Task, validates, reads, reported, consumes, consumed, next, after_read,
  after_log, after_write, balance, advance, put, turn, run,
}

abbrev alone : List ℕ → Task × State → List Task × State
alone is (t, s) = (t ∷ [], s)

-- The request alone, answered.
abbrev pub answered : (Result Bool → Task) → Result Bool × State → List Task × State
answered k (r, s) = (k r ∷ [], s)

module _ (env : Env) (dto : AdminDto) (amount : ℕ) where
  -- `addBreedingPoint` on the user found.
  abbrev credit : User → Exec Bool
  credit u = attempt (
      create_log (event env dto deposit_bp (points amount u.breeding_point))
      >> write_points dto.address (balance deposit u) amount)

  abbrev debit : User → Exec Bool
  debit u = attempt (
      write_points dto.address (balance withdrawal u) amount
      >> create_log (event env dto withdraw_bp (points amount u.breeding_point)))

  written :
      (u : User) (w : Result (Unit {0}) × State)
      → put []
          (next (λ _. after_write deposit dto amount u) (λ _. reported deposit dto (ok false)) w)
        ≡ answered (reported deposit dto) (tried w)
  written u (ok tt, s) = refl
  written u (err e, s) = refl

  logged_deposit :
      (u : User) (l : Result (Unit {0}) × State)
      → let x =
          next (λ _. after_log deposit dto amount u) (λ _. reported deposit dto (ok false)) l in
        run env (0 ∷ []) (x.0 ∷ []) x.1
        ≡ answered
            (reported deposit dto)
            (tried (continue l.0 (λ _. write_points dto.address (balance deposit u) amount) l.1))
  unfolding run turn advance
  logged_deposit u (ok tt, s) = written u (write_points dto.address (balance deposit u) amount s)
  logged_deposit u (err e, s) = refl

  read_deposit :
      (x : Result User × State)
      → let t = next (after_read deposit dto amount) (λ e. reported deposit dto (err e)) x in
        run env (0 ∷ 0 ∷ []) (t.0 ∷ []) t.1
        ≡ answered (reported deposit dto) (continue x.0 credit x.1)
  unfolding run turn advance
  read_deposit (ok u, s) =
      logged_deposit u (create_log (event env dto deposit_bp (points amount u.breeding_point)) s)
  read_deposit (err e, s) = refl

  validated_deposit :
      (v : Result (Unit {0}) × State)
      → let t = next (λ _. reads deposit dto amount) (λ e. reported deposit dto (err e)) v in
        run env (0 ∷ 0 ∷ 0 ∷ []) (t.0 ∷ []) t.1
        ≡ answered
            (reported deposit dto)
            (continue v.0 (λ _. (find_user dto.address >>= require_user) >>= credit) v.1)
  unfolding run turn advance
  validated_deposit (ok tt, s) = read_deposit ((find_user dto.address >>= require_user) s)
  validated_deposit (err e, s) = refl

  deposit_alone :
      (s : State)
      → run env (0 ∷ 0 ∷ 0 ∷ 0 ∷ []) (validates deposit dto amount ∷ []) s
        ≡ answered (reported deposit dto) (add_breeding_point env dto amount s)
  unfolding run turn advance add_breeding_point
  deposit_alone s = validated_deposit (validate_transaction env dto deposit_bp s)

  logged_withdrawal :
      (u : User) (l : Result (Unit {0}) × State)
      → put [] (
          next (λ _. after_log withdrawal dto amount u) (λ _. reported withdrawal dto (ok false)) l)
        ≡ answered (reported withdrawal dto) (tried l)
  logged_withdrawal u (ok tt, s) = refl
  logged_withdrawal u (err e, s) = refl

  written_withdrawal :
      (u : User) (w : Result (Unit {0}) × State)
      → let x =
          next
            (λ _. after_write withdrawal dto amount u)
            (λ _. reported withdrawal dto (ok false))
            w in
        run env (0 ∷ []) (x.0 ∷ []) x.1
        ≡ answered (reported withdrawal dto) (
            tried (
              continue w.0
                (λ _. create_log (event env dto withdraw_bp (points amount u.breeding_point)))
                w.1))
  unfolding run turn advance
  written_withdrawal u (ok tt, s) =
      logged_withdrawal u
        (create_log (event env dto withdraw_bp (points amount u.breeding_point)) s)
  written_withdrawal u (err e, s) = refl

  read_withdrawal :
      (x : Result User × State)
      → let t = next (after_read withdrawal dto amount) (λ e. reported withdrawal dto (err e)) x in
        run env (0 ∷ 0 ∷ []) (t.0 ∷ []) t.1
        ≡ answered (reported withdrawal dto) (continue x.0 debit x.1)
  unfolding run turn advance
  read_withdrawal (ok u, s) =
      written_withdrawal u (write_points dto.address (balance withdrawal u) amount s)
  read_withdrawal (err e, s) = refl

  validated_withdrawal :
      (v : Result (Unit {0}) × State)
      → let t = next (λ _. reads withdrawal dto amount) (λ e. reported withdrawal dto (err e)) v in
        run env (0 ∷ 0 ∷ 0 ∷ []) (t.0 ∷ []) t.1
        ≡ answered
            (reported withdrawal dto)
            (continue v.0 (λ _. (find_user dto.address >>= require_user) >>= debit) v.1)
  unfolding run turn advance
  validated_withdrawal (ok tt, s) = read_withdrawal ((find_user dto.address >>= require_user) s)
  validated_withdrawal (err e, s) = refl

  withdrawal_alone :
      (s : State)
      → run env (0 ∷ 0 ∷ 0 ∷ 0 ∷ []) (validates withdrawal dto amount ∷ []) s
        ≡ answered (reported withdrawal dto) (withdraw_breeding_point env dto amount s)
  unfolding run turn advance withdraw_breeding_point
  withdrawal_alone s = validated_withdrawal (validate_transaction env dto withdraw_bp s)

abbrev pub taken : Address → Result User × State → List Task × State
taken a (r, s) = (consumed a r ∷ [], s)

taken_alone :
    (a : Address) (x : Result User × State)
    → put [] (next (λ u. consumed a (ok u)) (λ e. consumed a (err e)) x) ≡ taken a x
taken_alone a (ok u, s) = refl
taken_alone a (err e, s) = refl

consumption_alone :
    (env : Env) (a : Address) (amount : ℕ) (s : State)
    → run env (0 ∷ 0 ∷ []) (consumes a amount ∷ []) s ≡ taken a (consume_breeding_point a amount s)
unfolding run turn advance consume_breeding_point
consumption_alone env a amount s = taken_alone a ((find_user a >>= consume_found a amount) s)

-- A request whose calls of the database run one after the other, with no other request's between
-- them, answers and leaves what its handler does: a deposit and a withdrawal after four calls, a
-- consumption of points after two.
pub run-alone :
    (env : Env) (dto : AdminDto) (a : Address) (amount : ℕ) (s : State)
    → (run env (0 ∷ 0 ∷ 0 ∷ 0 ∷ []) (validates deposit dto amount ∷ []) s
        ≡ answered (reported deposit dto) (add_breeding_point env dto amount s))
      × (run env (0 ∷ 0 ∷ 0 ∷ 0 ∷ []) (validates withdrawal dto amount ∷ []) s
          ≡ answered (reported withdrawal dto) (withdraw_breeding_point env dto amount s))
      × (run env (0 ∷ 0 ∷ []) (consumes a amount ∷ []) s
          ≡ taken a (consume_breeding_point a amount s))
run-alone env dto a amount s = (
  deposit_alone env dto amount s,
  withdrawal_alone env dto amount s,
  consumption_alone env a amount s,
)
