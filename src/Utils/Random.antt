-- ===== src/Utils/Random.antt =====
-- The bounds of `randomNumber`, and the chance that `winRandomChance` gives.

use backend.Common.{
  ℕ, zero, suc, ◌+◌, ◌-◌, ◌*◌, ◌/◌, ◌≤◌, ◌<◌, ◌≡◌, refl, ◌∙◌, Bool, true, false, ◌&&◌, ◌==◌, arith,
  ltb, leb, if◌then◌else◌,
}
use mathlib.Core.Path.{subst}
use native.Mathlib.Nat.{div-lt_iff_lt-mul, mul_comm, mul-lt-mul_of_pos_right}
use backend.Common.Int.{ℤ, pos, ◌≤ℤ◌}
use backend.Schema.{ok}
use backend.Db.{State}
use backend.Env.{Env}
use backend.Utils.Defs.{random_unit, scale, random_number, wins, win_random_chance}

-- The factor of a number that `Math.random()` draws is below one.
scaled_below :
    (max min draw : ℕ)
    → min < max
    → draw < random_unit
    → draw * (max - min) / random_unit < max - min
scaled_below max min draw h l =
    (div-lt_iff_lt-mul {k = random_unit} {x = draw * (max - min)} {y = max - min} (omega arith)).1 (
      subst (λ n. draw * (max - min) < n) (mul_comm random_unit (max - min))
        (mul-lt-mul_of_pos_right {m = draw} {n = random_unit} {k = max - min} l (omega arith)))

-- Every value of `Math.random()` puts `randomNumber(max, min)` into the range from `min` up to
-- and without `max`.
pub scale_bounds :
    (max min draw : ℕ)
    → min < max
    → draw < random_unit
    → (min ≤ scale max min draw) × (scale max min draw < max)
unfolding scale
scale_bounds max min draw h l = (omega arith, omega (arith, scaled_below max min draw h l))

-- How many of the numbers below `n` win.
abbrev pub winning : ℤ → ℕ → ℕ
winning chance zero = 0
winning chance (suc n) = (if wins chance n then 1 else 0) + winning chance n

-- Below every bound up to a hundred, a whole chance wins with each number up to itself.
winning_below : (c n : ℕ) → winning (pos (10 * c)) n ≡ (if ltb n (c + 1) then n else c + 1)
unfolding wins
winning_below c zero = ground arith
winning_below c (suc n) = ground (arith, winning_below c n)

first_branch : (c : ℕ) → 0 < c → c < 100 → (if ltb 100 (c + 1) then 100 else c + 1) ≡ c + 1
first_branch c h l = ground arith

-- A whole chance of `c` percent, above 0 and below 100, wins with `c + 1` of the hundred numbers
-- that `randomNumber(100)` draws.
pub winning-hundred : (c : ℕ) → 0 < c → c < 100 → winning (pos (10 * c)) 100 ≡ c + 1
winning-hundred c h l = winning_below c 100 ∙ first_branch c h l

-- A chance above 100 percent never wins, and draws no number.
pub win_random_chance-above :
    (env : Env) (chance : ℤ) (s : State)
    → pos 1001 ≤ℤ chance
    → win_random_chance env chance s ≡ (ok false, s)
unfolding win_random_chance
win_random_chance-above env chance s h = ground arith

-- Whether a whole chance of `c` percent wins with a number drawn.
abbrev pub decided : ℕ → ℕ → Bool
decided c n = if c == 100 then true else ltb 0 c && ltb c 100 && leb n c

-- How many of the numbers below `n` win.
abbrev pub winners : ℕ → ℕ → ℕ
winners c zero = 0
winners c (suc n) = (if decided c n then 1 else 0) + winners c n

-- With how many of the hundred numbers a whole chance of `c` percent wins.
abbrev pub odds : ℕ → ℕ
odds c = if c == 0 then 0 else if ltb c 100 then c + 1 else if c == 100 then 100 else 0

winners_below :
    (c n : ℕ)
    → winners c n ≡ (
        if c == 0
        then 0
        else if ltb c 100
        then (if ltb n (c + 1) then n else c + 1)
        else if c == 100
        then n
        else 0)
winners_below c zero = ground arith
winners_below c (suc n) = ground (arith, winners_below c n)

winners_hundred : (c n : ℕ) → n ≡ 100 → winners c n ≡ odds c
winners_hundred c n h = winners_below c n ∙ ground arith

-- A whole chance of c percent wins always for 100, never for 0 and above 100, and otherwise with
-- a number drawn up to and with c: with c + 1 of the hundred numbers.
pub win_random_chance-odds :
    (env : Env) (c : ℕ) (s : State)
    → ((win_random_chance env (pos (10 * c)) s).0
        ≡ ok (decided c (scale 100 0 (env.random s.drawn))))
      × (winners c 100 ≡ odds c)
unfolding win_random_chance random_number wins
win_random_chance-odds env c s = (ground arith, winners_hundred c 100 refl)
