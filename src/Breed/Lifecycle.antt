-- ===== src/Breed/Lifecycle.antt =====
-- A session from its start to its end: `createPair`, `levelBreedingUp` and `finalizeBreeding` of
-- src/breed/breed.controller.ts.
use backend.Breed.Rewards.{WalletSigns}
use backend.Breed.Stages.{IsUser}
use backend.Common.{
  first_passes, ℕ, zero, suc, ◌+◌, ◌*◌, ◌≡◌, refl, ap, sym, ◌∙◌, arith, true, false, Option, none,
  some, ◌==◌, tally, first,
}
use mathlib.Core.Path.{subst}
use backend.Common.Counting.{first-tally, tally-le}
use backend.Common.Int.{ℤ, pos, ltb_ℤ, ◌-ℤ◌, int_laws, -ℤ_parts}
use backend.Schema.{ok, Caller, User, BudWithId, BreedPair, BreedSlot}
use backend.Db.{State}
use backend.Env.{Env}
use backend.Utils.{BonusRateStatus}
use backend.Utils.Buds.{DrawsBelowOne}
use backend.User.Points.{user_at}
use backend.Breed.Service.{in_breeding, is_level, breed_time_elapsed}
use backend.Breed.Controller.{
  CreateBreedPair, new_pair, check_item, create_pair, level_breeding_up, Finalized,
  finalize_breeding,
}
use backend.Breed.Charges.{BudsOwned}
use backend.Breed.Checks.{BudsFit}
use backend.Breed.Start.{IsNewId, IsFree, create_pair-runs}
use backend.Breed.Finish.{IsSettled, finalize_breeding-settles}
use backend.Breed.Levels.{at_level, FreshLevels, NoneFrom}
use backend.Breed.Climbs.{AtLevel, begun-AtLevel, IsPlain, own_row, AtLevel-next}

-- Requests to level the session up, one after the other, from a level and a state to another: the
-- request at the level `n` is made in the surroundings `envs n`, and each succeeds.
pub data Climbs (envs : ℕ → Env) (req : Caller) (i : ℕ) : ℕ → State → ℕ → State → Type 0 where
  stays : {n : ℕ} {s : State} → Climbs envs req i n s n s
  climbs :
      {n k : ℕ} {s t s' : State} (male female : ℕ) (status : BonusRateStatus)
      → level_breeding_up (envs n) req i male female s ≡ (ok status, t)
      → Climbs envs req i (suc n) t k s'
      → Climbs envs req i n s k s'

-- The surroundings of a session's requests, each after the breeding time since the one before,
-- while the caller keeps the buds.
abbrev pub PassesTime : (ℕ → Env) → BreedPair → Type 0
PassesTime envs p =
    (n : ℕ)
    → DrawsBelowOne (envs n)
      × BudsOwned (envs n) p
      × (breed_time_elapsed (envs (suc n)) (envs n).now p.game_item_id ≡ true)

first_payment :
    (n : ℤ) (k : ℕ)
    → ltb_ℤ n (pos (15 * suc k)) ≡ false
    → (ltb_ℤ n (pos 15) ≡ false) × (ltb_ℤ (n -ℤ pos 15) (pos (15 * k)) ≡ false)
first_payment n k h = (ground arith, ground (arith, -ℤ_parts n (pos 15)))

payments : (n : ℤ) (k : ℕ) → (n -ℤ pos 15) -ℤ pos (15 * k) ≡ n -ℤ pos (15 * suc k)
payments n k = grind int_laws

no_payment : (n : ℤ) → n -ℤ pos (15 * 0) ≡ n
no_payment n = grind int_laws

-- What the levels that are left come to.
abbrev Reached : (ℕ → Env) → Caller → BreedPair → ℕ → User → ℕ → State → Type 0
Reached envs req p k u n s =
    (s' : State) × Climbs envs req p.id n s 5 s'
    × AtLevel (envs 4) p 5 s'
    × (user_at req.user s' ≡ some (record u { breeding_point = u.breeding_point -ℤ pos (15 * k) }))

module _ (envs : ℕ → Env) (req : Caller) (p : BreedPair) (plain : IsPlain req p)
    (passes : PassesTime envs p) where
  reached :
      (i : ℕ) (u : User) (s : State)
      → 4 ≡ i
      → AtLevel (envs i) p (suc i) s
      → user_at req.user s ≡ some u
      → Reached envs req p 0 u (suc i) s
  reached i u s e at user =
      subst (λ j. AtLevel (envs j) p (suc j) s → Reached envs req p 0 u (suc j) s) e
        (λ last. (
          s,
          stays,
          last,
          user
              ∙ ap (λ n. some (record u { breeding_point = n }))
                  (sym (no_payment u.breeding_point)),
        ))
        at

  climb :
      (k i : ℕ) (u : User) (s : State)
      → i + k ≡ 4
      → AtLevel (envs i) p (suc i) s
      → user_at req.user s ≡ some u
      → ltb_ℤ u.breeding_point (pos (15 * k)) ≡ false
      → Reached envs req p k u (suc i) s
  climb zero i u s e at user enough = reached i u s (omega (arith, e)) at user
  climb (suc k) i u s e at user enough =
      let (now, rest) = first_payment u.breeding_point k enough in
      let (male, female, status, t, done, next, paid) =
        AtLevel-next (envs i) (envs (suc i)) req p (suc i) u s (passes (suc i)).0 (omega (arith, e))
          plain (passes (suc i)).1 (passes i).2 user now at in
      let (s', more, last, points) =
        climb k (suc i) (record u { breeding_point = u.breeding_point -ℤ pos 15 }) t
          (omega (arith, e)) next paid rest in
      (
        s',
        climbs male female status done more,
        last,
        points ∙ ap (λ n. some (record u { breeding_point = n })) (payments u.breeding_point k),
      )

is_user : (req : Caller) (u : User) (s : State) → user_at req.user s ≡ some u → IsUser req s
is_user req u s user =
    let h = first_passes (λ x. x.address == req.user) s.users u user in
    first-tally (λ x. x.address == req.user) (λ x. x.address == req.user) s.users u user h

no_levels : (i : ℕ) (s : State) → tally (λ l. l.pair_id == i) s.levels.rows ≡ 0 → NoneFrom i 1 s
no_levels i s h k le =
    omega
      (arith, h, tally-le (is_level i k) (λ l. l.pair_id == i) s.levels.rows (λ l e. ground arith))

-- The caller keeps two buds, revealed and of the genders of their roles, and makes requests each
-- after the breeding time since the one before, with draws of random numbers below one; the
-- session is to use no game item, no running session has either bud in its role, the slot is the
-- caller's, open, unused and no other game key's, the next ids of the sessions and of the Gen1
-- buds and the levels' ids from the next one on are unused, the caller has 60 points or more,
-- and at the last request the wallet has a key and signs for the caller's Gen1 buds. Then the
-- request for a session succeeds, four requests to level it up, one after the other from the
-- level 1 to 5, can name buds of the level so that each succeeds, they take 60 points together,
-- and a request to finalize it answers: the session is completed or failed and its slot unused,
-- and with success a Gen1 bud is in its row, the caller's, of the session and with the wallet's
-- signature.
pub breeding-finishes :
    (envs : ℕ → Env) (req : Caller) (body : CreateBreedPair) (m f : BudWithId) (x : BreedSlot)
    (u : User) (s : State)
    → PassesTime envs (new_pair (envs 0) req body (pos 0) 0)
    → WalletSigns (envs 5) req.user
    → BudsFit (envs 0) req body m f
    → body.game_item_id ≡ none
    → tally (in_breeding body.male_bud_id body.female_bud_id) s.pairs.rows ≡ 0
    → IsFree req body.slot_id x s
    → IsNewId s
    → FreshLevels s
    → tally (λ b. b.id == s.gen1_buds.next) s.gen1_buds.rows ≡ 0
    → user_at req.user s ≡ some u
    → ltb_ℤ u.breeding_point (pos 60) ≡ false
    → (p : BreedPair) × (male : ℕ) × (female : ℕ) × (done : Option Finalized) × (s1 : State)
      × (s5 : State) × (s6 : State) × (create_pair (envs 0) req body s ≡ (ok p, s1))
      × Climbs envs req p.id 1 s1 5 s5
      × (user_at req.user s5 ≡ some (record u { breeding_point = u.breeding_point -ℤ pos 60 }))
      × (finalize_breeding (envs 5) req p.id male female s5 ≡ (ok done, s6))
      × IsSettled (envs 5) req p.id (at_level 5 p) done s6
breeding-finishes envs req body m f x u s passes signs fit item unpaired free new levels buds user
      enough =
    let (rate, s1, made, (row, begun, taken), (slots, users, gen1_buds, next, pairs)) =
      create_pair-runs (envs 0) req body m f x s (passes 0).0 (is_user req u s user) fit
        (ap (λ o. check_item (envs 0) req o s) item) unpaired free new in
    let p = new_pair (envs 0) req body rate s.pairs.next in
    let plain : IsPlain req p = (refl, refl, item) in
    let at =
      begun-AtLevel (envs 0) p 1 s s1 begun next (no_levels s.pairs.next s new.1) levels row slots.0
        (subst (λ g. tally (λ b. b.id == g.next) g.rows ≡ 0) (sym gen1_buds) buds) in
    let (s5, climbing, last, points) =
      climb envs req p plain passes 4 0 u s1 refl at
        (ap (first (λ y. y.address == req.user)) users ∙ user) enough in
    let (done, s6, finished, settled) =
      finalize_breeding-settles (envs 5) req (at_level 5 p) last.level last.a last.b p.id last.male
        last.female s5 (passes 5).0 (own_row req p 5 s5 plain last.row) last.row refl
        (last.ready (envs 5) (passes 4).2) signs last.slot last.bud in
    (p, last.male, last.female, done, s1, s5, s6, made, climbing, points, finished, settled)
