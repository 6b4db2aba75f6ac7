-- ===== src/Auth/Text.antt =====
-- The operations on texts of JavaScript that src/user/user.service.ts and
-- src/middlewares/auth.middleware.ts use. A character counts once, where JavaScript counts one
-- beyond U+FFFF twice.
use Prim.Native.Nat.{ℕ, zero, suc, ◌+◌, ◌-◌, ◌/◌, ◌%◌}
use Prim.Native.Char.{Char}
use Prim.Native.String.{String, [], ◌∷◌, ◌++◌, count, compare, slice}
use mathlib.Core.Path.{◌≡◌, refl, subst}
use mathlib.Core.Bool.{Bool, true}
use native.Mathlib.Omega.{arith}
use text.Mathlib.Text.{starts_with, is_eq}
use text.Mathlib.TextEquality.{eq_iff}
use text.Mathlib.TextLemmas.{nil-append, cons-append, length-cons, length-append}
use text.Mathlib.TextPositions.{compare_refl, starts_with-append}
use backend.Common.{if◌then◌else◌, ltb}

-- `===` on texts.
abbrev pub same_text : String → String → Bool
same_text s t = is_eq (compare s t)

abbrev pub drop_chars : ℕ → String → String
drop_chars zero s = s
drop_chars (suc n) [] = []
drop_chars (suc n) (c ∷ s) = drop_chars n s

-- `s.substring(s.length - n)`.
abbrev pub last_chars : ℕ → String → String
last_chars n s = drop_chars (count s - n) s

-- The digits of a number before a text, at most so many.
abbrev pub digits_before : ℕ → ℕ → String → String
digits_before zero n rest = rest
digits_before (suc most) n rest =
    let here = slice "0123456789" (n % 10) (n % 10 + 1) ++ rest in
    let more = digits_before most (n / 10) here in if ltb n 10 then here else more

-- A number in a template: from 10 ^ 21 on JavaScript writes an exponent, below it the digits.
abbrev pub decimal : ℕ → String
decimal n = digits_before 21 n ""

-- `s.replace(p, '')` for a text `p` that is not empty: its first occurrence goes.
abbrev pub without_first : String → String → String
without_first p [] = []
without_first p (c ∷ s) =
    let rest = c ∷ without_first p s in
    if starts_with (c ∷ s) p then drop_chars (count p) (c ∷ s) else rest

pub drop_chars-append : (p t : String) → drop_chars (count p) (p ++ t) ≡ t
drop_chars-append [] t = nil-append t
drop_chars-append (c ∷ p) t = rw (cons-append c p t) rw (length-cons c p) (drop_chars-append p t)

-- A text that ends in so many characters ends in them.
pub last_chars-append : (n : ℕ) (p t : String) → count t ≡ n → last_chars n (p ++ t) ≡ t
last_chars-append n p t h =
    let k : count (p ++ t) - n ≡ count p = omega (arith, length-append p t, h) in
    rw k (drop_chars-append p t)

pub without_first-append : (c : Char) (p t : String) → without_first (c ∷ p) (c ∷ (p ++ t)) ≡ t
without_first-append c p t =
    let begins : starts_with (c ∷ (p ++ t)) (c ∷ p) ≡ true =
      subst (λ u. starts_with u (c ∷ p) ≡ true) (cons-append c p t)
        (starts_with-append (c ∷ p) t) in
    rw begins rw (length-cons c p) (drop_chars-append p t)

pub same_text_refl : (s : String) → same_text s s ≡ true
same_text_refl s = rw (compare_refl s) refl

pub same_text-path : (s t : String) → same_text s t ≡ true → s ≡ t
same_text-path s t h = (eq_iff s t).0 h
