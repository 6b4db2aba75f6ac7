-- ===== src/Common/Lists.antt =====
-- Lists measured by native numbers, and the tests over a list that tables are queried by.
use Prim.Native.Nat.{ℕ, zero, suc, ◌+◌, ◌-◌}
use mathlib.Core.Path.{◌≡◌, refl}
use mathlib.Core.Bool.{Bool, true, false, not, ◌||◌}
use mathlib.Core.List.{List, [], ◌∷◌, ◌++◌}
use mathlib.Core.Option.{Option, none, some}
use native.Mathlib.Omega.{arith}
use backend.Common.Tests.{if◌then◌else◌, ◌==◌}

module _ {ℓ} {A : Type ℓ} where
  abbrev pub length : List A → ℕ
  length [] = 0
  length (x ∷ xs) = suc (length xs)

  abbrev pub get_elem? : List A → ℕ → Option A
  get_elem? [] i = none
  get_elem? (x ∷ xs) zero = some x
  get_elem? (x ∷ xs) (suc i) = get_elem? xs i

  abbrev pub take : ℕ → List A → List A
  take zero xs = []
  take (suc n) [] = []
  take (suc n) (x ∷ xs) = x ∷ take n xs

  abbrev pub drop : ℕ → List A → List A
  drop zero xs = xs
  drop (suc n) [] = []
  drop (suc n) (x ∷ xs) = drop n xs

  -- The elements that pass a test, in order.
  abbrev pub keep : (A → Bool) → List A → List A
  keep w [] = []
  keep w (x ∷ xs) = let rest = keep w xs in if w x then x ∷ rest else rest

  -- How many elements pass a test.
  abbrev pub tally : (A → Bool) → List A → ℕ
  tally w [] = 0
  tally w (x ∷ xs) = (if w x then 1 else 0) + tally w xs

  -- The first element that passes a test.
  abbrev pub first : (A → Bool) → List A → Option A
  first w [] = none
  first w (x ∷ xs) = let rest = first w xs in if w x then some x else rest

  -- Every element that passes the test is changed.
  abbrev pub change : (A → Bool) → (A → A) → List A → List A
  change w f [] = []
  change w f (x ∷ xs) = (if w x then f x else x) ∷ change w f xs

  abbrev pub All {κ} : (A → Type κ) → List A → Type κ
  All P [] = Unit
  All P (x ∷ xs) = P x × All P xs

  pub length-append : (xs ys : List A) → length (xs ++ ys) ≡ length xs + length ys
  length-append [] ys = omega arith
  length-append (x ∷ xs) ys = omega (arith, length-append xs ys)

  pub tally-append : (w : A → Bool) (xs ys : List A) → tally w (xs ++ ys) ≡ tally w xs + tally w ys
  tally-append w [] ys = omega arith
  tally-append w (x ∷ xs) ys = omega (arith, tally-append w xs ys)

  pub length-keep : (w : A → Bool) (xs : List A) → length (keep w xs) ≡ tally w xs
  length-keep w [] = refl
  length-keep w (x ∷ xs) = ground (arith, length-keep w xs)

  -- An element that is found passes the test.
  pub first_passes : (w : A → Bool) (xs : List A) (a : A) → first w xs ≡ some a → w a ≡ true
  first_passes w [] a h = ground arith
  first_passes w (x ∷ xs) a h = ground (arith, first_passes w xs a)

  pub take-append-drop : (n : ℕ) (xs : List A) → take n xs ++ drop n xs ≡ xs
  take-append-drop zero xs = refl
  take-append-drop (suc n) [] = refl
  take-append-drop (suc n) (x ∷ xs) = rw (take-append-drop n xs)

  pub length-drop : (n : ℕ) (xs : List A) → length (drop n xs) ≡ length xs - n
  length-drop zero xs = omega arith
  length-drop (suc n) [] = omega arith
  length-drop (suc n) (x ∷ xs) = omega (arith, length-drop n xs)

-- The distinct numbers of a list, each where it comes first.
abbrev pub distinct : List ℕ → List ℕ
distinct [] = []
distinct (x ∷ xs) = x ∷ keep (λ y. not (y == x)) (distinct xs)

-- `list.includes(i)`, on numbers.
abbrev pub includes : ℕ → List ℕ → Bool
includes i [] = false
includes i (j ∷ js) = i == j || includes i js
