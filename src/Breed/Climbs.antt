-- ===== src/Breed/Climbs.antt =====
-- A session from one level to the next (`levelBreedingUp` of src/breed/breed.controller.ts), and
-- what stays true of it on the way.
use backend.Common.{
  ℕ, suc, ◌+◌, ◌≤◌, ◌<◌, ◌≡◌, refl, sym, ◌∙◌, arith, true, false, none, some, ltb, ◌==◌, tally,
  first,
}
use mathlib.Core.Path.{subst}
use backend.Common.Counting.{tally-change_same}
use backend.Common.Int.{ℤ, pos, ltb_ℤ, ◌-ℤ◌}
use backend.Schema.{ok, paired, Caller, User, BreedPair, BreedLevel, BreedBud}
use backend.Db.{State}
use backend.Env.{Env}
use backend.Utils.{BonusRateStatus}
use backend.Utils.Buds.{DrawsBelowOne}
use backend.User.Points.{user_at}
use backend.Breed.Service.{is_level, breed_time_elapsed, verify_game_item_possession}
use backend.Breed.Controller.{own_paired, level_breeding_up}
use backend.Breed.Charges.{BudsOwned}
use backend.Breed.Progress.{fresh_level, HasBegun}
use backend.Breed.Advance.{
  evaluated, IsReady, evaluated_state, with_evaluation, level_breeding_up-runs,
}
use backend.Breed.Levels.{
  at_level, FreshLevels, NoneFrom, begun-IsReady, begun-NoneFrom, begun-FreshLevels, first-stronger,
}

-- The session is in its row at a level that began at the time of these surroundings, which can be
-- evaluated with two of its buds once its time has passed; it has no later level, and what its
-- end needs is there.
pub record AtLevel (env : Env) (p : BreedPair) (n : ℕ) (s : State) : Type 0 where
  pub level : BreedLevel
  pub a : BreedBud
  pub b : BreedBud
  pub male : ℕ
  pub female : ℕ
  pub ready :
      (env' : Env)
      → breed_time_elapsed env' env.now p.game_item_id ≡ true
      → IsReady env' (at_level n p) level a b male female s
  pub row : first (λ x. x.id == p.id) s.pairs.rows ≡ some (at_level n p)
  pub later : NoneFrom p.id (suc n) s
  pub new : FreshLevels s
  pub slot : 1 ≤ tally (λ y. y.id == p.slot_id) s.slots.rows
  pub bud : tally (λ x. x.id == s.gen1_buds.next) s.gen1_buds.rows ≡ 0

pub begun-AtLevel :
    (env : Env) (p : BreedPair) (n : ℕ) (s s' : State)
    → HasBegun env p.id n s s'
    → s'.levels.next ≡ suc s.levels.next
    → NoneFrom p.id n s
    → FreshLevels s
    → first (λ x. x.id == p.id) s'.pairs.rows ≡ some (at_level n p)
    → 1 ≤ tally (λ y. y.id == p.slot_id) s'.slots.rows
    → tally (λ x. x.id == s'.gen1_buds.next) s'.gen1_buds.rows ≡ 0
    → AtLevel env p n s'
begun-AtLevel env p n s s' begun next later new row slot bud = record {
  level = fresh_level env p.id n s.levels.next;
  a = begun.0;
  b = begun.1;
  male = s.breed_buds.next;
  female = suc s.breed_buds.next;
  ready = λ env' elapsed. begun-IsReady env env' p n s s' begun (later n (omega arith)) new elapsed;
  row = row;
  later = begun-NoneFrom env p.id n s s' begun later;
  new = begun-FreshLevels env p.id n s s' begun next new;
  slot = slot;
  bud = bud;
}

evaluated-NoneFrom :
    (level : BreedLevel) (rate : ℤ) (male female i n : ℕ) (s : State)
    → NoneFrom i n s
    → NoneFrom i n (evaluated_state level rate male female s)
evaluated-NoneFrom level rate male female i n s h k le =
    tally-change_same (is_level i k) (λ x. x.id == level.id) (with_evaluation rate male female)
      s.levels.rows (λ x. refl)
    ∙ h k le

evaluated-FreshLevels :
    (level : BreedLevel) (rate : ℤ) (male female : ℕ) (s : State)
    → FreshLevels s
    → FreshLevels (evaluated_state level rate male female s)
evaluated-FreshLevels level rate male female s h k le = (
  tally-change_same (λ l. l.id == k) (λ x. x.id == level.id) (with_evaluation rate male female)
        s.levels.rows (λ x. refl)
      ∙ (h k le).0,
  (h k le).1,
)

-- The session is the caller's, running, and with no game item.
abbrev pub IsPlain : Caller → BreedPair → Type 0
IsPlain req p = (p.user_address ≡ req.user) × (p.status ≡ paired) × (p.game_item_id ≡ none)

own_pair :
    (req : Caller) (p : BreedPair) (n : ℕ)
    → IsPlain req p
    → own_paired req.user p.id (at_level n p) ≡ true
own_pair req p n (user, running, item) = ground arith

no_item :
    (env : Env) (p : BreedPair) (s : State)
    → p.game_item_id ≡ none
    → verify_game_item_possession env p s ≡ (ok true, s)
unfolding verify_game_item_possession
no_item env p s h = rw h refl

pub own_row :
    (req : Caller) (p : BreedPair) (n : ℕ) (s : State)
    → IsPlain req p
    → first (λ x. x.id == p.id) s.pairs.rows ≡ some (at_level n p)
    → first (own_paired req.user p.id) s.pairs.rows ≡ some (at_level n p)
own_row req p n s plain row =
    first-stronger (λ y. y.id == p.id) (own_paired req.user p.id) s.pairs.rows (at_level n p) row
      (own_pair req p n plain) (λ y e. ground arith)

none_of : (n : ℕ) → n ≡ 0 → ltb 0 n ≡ false
none_of n h = ground arith

one_more : (n : ℕ) → n + 1 ≡ suc n
one_more n = omega arith

-- A level goes on to the next.
pub AtLevel-next :
    (env env' : Env) (req : Caller) (p : BreedPair) (n : ℕ) (u : User) (s : State)
    → DrawsBelowOne env'
    → n < 5
    → IsPlain req p
    → BudsOwned env' p
    → breed_time_elapsed env' env.now p.game_item_id ≡ true
    → user_at req.user s ≡ some u
    → ltb_ℤ u.breeding_point (pos 15) ≡ false
    → AtLevel env p n s
    → (male : ℕ) × (female : ℕ) × (status : BonusRateStatus) × (s' : State) × (level_breeding_up
          env' req p.id male female s
        ≡ (ok status, s'))
      × AtLevel env' p (suc n) s'
      × (user_at req.user s' ≡ some (record u { breeding_point = u.breeding_point -ℤ pos 15 }))
AtLevel-next env env' req p n u s below few plain owned elapsed user enough at =
    let rate = (evaluated at.a at.b).bonus_rate in
    let e = evaluated_state at.level rate at.male at.female s in
    let (s', done, (row, points, begun), (slots, gen1_buds, next)) =
      level_breeding_up-runs env' req (at_level n p) at.level u at.a at.b p.id at.male at.female s
        below (own_row req p n s plain at.row) at.row few (no_item env' (at_level n p) s plain.2)
        owned user enough (at.ready env' elapsed)
        (none_of (tally (is_level p.id (n + 1)) s.levels.rows) (at.later (n + 1) (omega arith))) in
    (
      at.male,
      at.female,
      _,
      s',
      done,
      subst (λ k. AtLevel env' p k s') (one_more n)
          (begun-AtLevel env' p (n + 1) e s' begun next
            (evaluated-NoneFrom at.level rate at.male at.female p.id (n + 1) s
              (λ k le. at.later k (omega (arith, le))))
            (evaluated-FreshLevels at.level rate at.male at.female s at.new) row
            (subst (λ t. 1 ≤ tally (λ y. y.id == p.slot_id) t.rows) (sym slots) at.slot)
            (subst (λ g. tally (λ x. x.id == g.next) g.rows ≡ 0) (sym gen1_buds) at.bud)),
      points,
    )
