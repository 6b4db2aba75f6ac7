-- ===== src/Utils/Buds.antt =====
-- `generateRandomBud` of src/utils/bud.ts: it always makes a bud.
use backend.Common.{
  ℕ, zero, suc, ◌+◌, ◌≤◌, ◌<◌, ◌≡◌, refl, ap, ◌∙◌, arith, Option, none, some, List, [], ◌∷◌, length,
  get_elem?,
}
use backend.Schema.{Result, ok, Bud, BudGender}
use backend.Db.{State, Exec, ◌>>=◌}
use backend.Env.{Env}
use backend.Utils.Names.{bud_names}
use backend.Utils.Defs.{
  random_unit, scale, random_number, BudOptions, overridden, pick, read_or_throw, bud_shines,
  bud_genders, bud_colors, generate_random_bud,
}
use backend.Utils.Random.{scale_bounds}

nothing_below : (i : ℕ) → i < 0 → ⊥
nothing_below i h = omega (arith, h)

get_elem?-some :
    {A : Type 0} (xs : List A) (i : ℕ) → i < length xs → (x : A) × (get_elem? xs i ≡ some x)
get_elem?-some [] i h = elim (nothing_below i h) [ ]
get_elem?-some (x ∷ xs) zero h = (x, refl)
get_elem?-some (x ∷ xs) (suc i) h = get_elem?-some xs i (omega (arith, h))

-- What `Math.random()` draws is below one.
abbrev pub DrawsBelowOne : Env → Type 0
DrawsBelowOne env = (n : ℕ) → env.random n < random_unit

picked :
    {A : Type 0} (env : Env) (xs : List A) (n : ℕ)
    → DrawsBelowOne env
    → 0 < length xs
    → (x : A) × (get_elem? xs (scale (length xs) 0 (env.random n)) ≡ some x)
picked env xs n below h =
    get_elem?-some xs (scale (length xs) 0 (env.random n))
      (scale_bounds (length xs) 0 (env.random n) h (below n)).1

some_names : 0 < length bud_names
unfolding bud_names
some_names = omega arith

-- A bud of the options: traits within their bounds, and the gender that is asked for.
abbrev pub IsOfOptions : BudOptions → Bud → Type 0
IsOfOptions o b =
    (1 ≤ b.thc)
    × (b.thc < o.max_thc)
    × (1 ≤ b.bud_size)
    × (b.bud_size < o.max_bud_size)
    × (b.gender ≡ overridden o.target_gender b.gender)

settled : (o : Option BudGender) (g : BudGender) → overridden o g ≡ overridden o (overridden o g)
settled none g = refl
settled (some t) g = refl

-- The state after a number is drawn.
abbrev drawn_one : State → State
drawn_one s = record s { drawn = suc s.drawn }

choose-runs :
    {A B : Type 0} (env : Env) (xs : List A) (k : A → Exec B) (s : State)
    → DrawsBelowOne env
    → 0 < length xs
    → (x : A) × ((random_number env (length xs) 0 >>= λ i. pick xs i >>= k) s ≡ k x (drawn_one s))
unfolding random_number pick
choose-runs env xs k s below h =
    let (x, e) = picked env xs s.drawn below h in
    (x, ap (λ o. (read_or_throw o >>= k) (drawn_one s)) e)

some_shines : 0 < length bud_shines
some_shines = omega arith

some_genders : 0 < length bud_genders
some_genders = omega arith

some_colors : 0 < length bud_colors
some_colors = omega arith

six : (d : ℕ) → suc (suc (suc (suc (suc (suc d))))) ≡ 6 + d
six d = omega arith

same_draws :
    (b : Bud) (s : State) (d d' : ℕ)
    → d ≡ d'
    → Path (Result Bud × State) (ok b, record s { drawn = d }) (ok b, record s { drawn = d' })
same_draws b s d d' h = ap (λ x. (ok b, record s { drawn = x })) h

-- With draws of random numbers below one and bounds above 1, a random bud is made, with six
-- draws and nothing else changed: its thc and its size are from 1 up to and without their
-- bounds, and its gender is the one asked for, if one is.
pub generate_random_bud-total :
    (env : Env) (o : BudOptions) (s : State)
    → DrawsBelowOne env
    → 1 < o.max_thc
    → 1 < o.max_bud_size
    → (b : Bud) × (generate_random_bud env o s ≡ (ok b, record s { drawn = 6 + s.drawn }))
      × IsOfOptions o b
unfolding generate_random_bud random_number
generate_random_bud-total env o s below thc size =
    let t = scale_bounds o.max_thc 1 (env.random (drawn_one s).drawn) thc (below _) in
    let z =
      scale_bounds o.max_bud_size 1 (env.random (drawn_one (drawn_one s)).drawn) size (below _) in
    let s3 = drawn_one (drawn_one (drawn_one s)) in
    let (name, e1) = choose-runs env bud_names _ s below some_names in
    let (shines, e2) = choose-runs env bud_shines _ s3 below some_shines in
    let (gender, e3) = choose-runs env bud_genders _ (drawn_one s3) below some_genders in
    let (color, e4) = choose-runs env bud_colors _ (drawn_one (drawn_one s3)) below some_colors in
    (
      _,
      e1 ∙ e2 ∙ e3 ∙ e4 ∙ same_draws _ s _ _ (six s.drawn),
      (t.0, t.1, z.0, z.1, settled o.target_gender gender),
    )
