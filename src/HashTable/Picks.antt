-- ===== src/HashTable/Picks.antt =====
-- Which entries the look-ups of src/hash-table/hash-table.service.ts choose.
use backend.Common.{
  ℕ, zero, suc, ◌*◌, ◌-◌, ◌≤◌, ◌<◌, ◌≡◌, refl, ap, sym, Bool-cases, inl, inr, ◌⊎◌, List, [], ◌∷◌,
  ◌++◌, arith, some, true, false, All, length, get_elem?,
}
use backend.Common.Int.{ℤ, pos, leb_ℤ}
use backend.Schema.{ok}
use backend.Db.{State}
use backend.Env.{Env}
use backend.Utils.{random_number, pick, scale, random_unit}
use backend.Utils.Random.{scale_bounds}
use backend.HashTable.{
  Traits, lookup, rates_of, first_from, get_matching_gen1_rate, pick_traits, look_up_gen1_bud,
  hash_table_gen1,
}

found_here :
    (rate : ℤ) (q : ℕ) (rates : List ℕ) (r : ℕ)
    → leb_ℤ rate (pos (10 * q)) ≡ true
    → first_from rate (q ∷ rates) ≡ some r
    → q ≡ r
found_here rate q rates r t h = ground arith

found_later :
    (rate : ℤ) (q : ℕ) (rates : List ℕ) (r : ℕ)
    → leb_ℤ rate (pos (10 * q)) ≡ false
    → first_from rate (q ∷ rates) ≡ some r
    → first_from rate rates ≡ some r
found_later rate q rates r t h = ground arith

-- The rate found stands in the list, is not below the given one, and every rate before it is.
pub first_from-least :
    (rate : ℤ) (rates : List ℕ) (r : ℕ)
    → first_from rate rates ≡ some r
    → (before after : List ℕ) × (rates ≡ before ++ r ∷ after)
      × (leb_ℤ rate (pos (10 * r)) ≡ true)
      × All (λ q. leb_ℤ rate (pos (10 * q)) ≡ false) before
first_from-least rate [] r h = ground arith
first_from-least rate (q ∷ rates) r h = elim (Bool-cases (leb_ℤ rate (pos (10 * q)))) [
  | inl t ↦
      let e = found_here rate q rates r t h in ([], rates, ap (λ n. n ∷ rates) e, rw (sym e) t, tt)
  | inr t ↦
      let (before, after, e, fits, below) =
        first_from-least rate rates r (found_later rate q rates r t h) in
      (q ∷ before, after, ap (λ l. q ∷ l) e, fits, (t, below))
]

elem_below :
    {A : Type 0} (xs : List A) (i : ℕ) → i < length xs → (x : A) × (get_elem? xs i ≡ some x)
elem_below [] i h = ground arith
elem_below (x ∷ xs) zero h = (x, refl)
elem_below (x ∷ xs) (suc i) h = elem_below xs i (omega (arith, h))

pick_found :
    {A : Type 0} (xs : List A) (i : ℕ) (x : A) (s : State)
    → get_elem? xs i ≡ some x
    → pick xs i s ≡ (ok x, s)
unfolding pick
pick_found xs i x s h = rw (h, pick) refl

-- In a group of at least two entries the choice always answers, and never with the last entry: it
-- is an entry whose index is below the length minus one.
pub pick_traits-not_last :
    (env : Env) (group : List Traits) (s : State)
    → 2 ≤ length group
    → env.random s.drawn < random_unit
    → (i : ℕ) × (t : Traits) × (suc i < length group)
      × (get_elem? group i ≡ some t)
      × (pick_traits env (some group) s ≡ (ok t, record s { drawn = suc s.drawn }))
unfolding pick_traits random_number
pick_traits-not_last env group s h l =
    let n = length group - 1 in
    let i = scale n 0 (env.random s.drawn) in
    let bounds = scale_bounds n 0 (env.random s.drawn) (omega arith) l in
    let (t, e) = elem_below group i (omega (arith, bounds.1)) in
    (i, t, omega (arith, bounds.1), e, pick_found group i t (record s { drawn = suc s.drawn }) e)

matching_rates :
    (rate : ℤ)
    → (get_matching_gen1_rate rate (15 ∷ 35 ∷ 50 ∷ []) ≡ 15)
      ⊎ ((get_matching_gen1_rate rate (15 ∷ 35 ∷ 50 ∷ []) ≡ 35)
          ⊎ (get_matching_gen1_rate rate (15 ∷ 35 ∷ 50 ∷ []) ≡ 50))
unfolding get_matching_gen1_rate
matching_rates rate = ground arith

group_for :
    (rate : ℤ)
    → (g : List Traits) × (lookup
          (get_matching_gen1_rate rate (rates_of hash_table_gen1))
          hash_table_gen1
        ≡ some g)
      × (2 ≤ length g)
unfolding hash_table_gen1
group_for rate = elim (matching_rates rate) [
  | inl e ↦ rw e (_, refl, omega arith)
  | inr (inl e) ↦ rw e (_, refl, omega arith)
  | inr (inr e) ↦ rw e (_, refl, omega arith)
]

-- With a random number in its range, every rate has a group of traits in the Gen1 table, and the
-- look-up always answers with an entry of it that is not the last one.
pub look_up_gen1_bud-total :
    (env : Env) (rate : ℤ) (s : State)
    → env.random s.drawn < random_unit
    → (group : List Traits) × (i : ℕ) × (t : Traits) × (lookup
          (get_matching_gen1_rate rate (rates_of hash_table_gen1))
          hash_table_gen1
        ≡ some group)
      × (suc i < length group)
      × (get_elem? group i ≡ some t)
      × (look_up_gen1_bud env rate s ≡ (ok t, record s { drawn = suc s.drawn }))
unfolding look_up_gen1_bud
look_up_gen1_bud-total env rate s h =
    let (g, e, l) = group_for rate in
    let (i, t, bound, at, picked) = pick_traits-not_last env g s l h in
    (g, i, t, e, bound, at, rw e picked)
