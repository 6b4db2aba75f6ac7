-- ===== src/Stats/Shop.antt =====
-- What `checkShopRequirements` of src/stats/stats.controller.ts answers for every address.
use mathlib.Core.Path.{subst}
use backend.Common.{
  ℕ, ◌+◌, ◌≡◌, refl, ◌∙◌, Option, none, some, true, false, List, [], ◌∷◌, ◌++◌, map, arith, ltb,
  ◌==◌, if◌then◌else◌, includes, length, get_elem?, first, length-append, All, ◌≤◌, inl, inr,
  Bool-cases, ==→eq,
}
use backend.Schema.{Address, ok}
use backend.Db.{State}
use backend.Env.{Env, addresses}
use backend.Stats.Queries.{
  get_gen0_bud_lock_counts, get_game_item_mint_counts, amounts_or_raise, sum,
}
use backend.Stats.Metrics.{
  Requirements, assign, requirements_from, check_addresses, check_shop_requirements,
}

-- What an address has, by the counts of its own.
abbrev pub requirements_of : (Address → ℕ) → (Address → ℕ) → Address → Requirements
requirements_of locks mints a = record {
  address = a;
  lock_count = some (locks a);
  game_item_mint_count = some (mints a);
}

-- `stats[a]`.
abbrev pub at : Address → List Requirements → Option Requirements
at a stats = first (λ r. r.address == a) stats

map-map :
    {A B C : Type 0} (f : A → B) (g : B → C) (xs : List A)
    → map g (map f xs) ≡ map (λ x. g (f x)) xs
map-map f g [] = refl
map-map f g (x ∷ xs) = rw (map-map f g xs) refl

at-assign_same :
    (r : Requirements) (stats : List Requirements) → at r.address (assign r stats) ≡ some r
at-assign_same r [] = ground arith
at-assign_same r (x ∷ xs) = ground (arith, at-assign_same r xs)

at-assign_other :
    (a : Address) (r : Requirements) (stats : List Requirements)
    → (r.address == a) ≡ false
    → at a (assign r stats) ≡ at a stats
at-assign_other a r [] h = ground (arith, h)
at-assign_other a r (x ∷ xs) h = ground (arith, h, at-assign_other a r xs h)

get_elem?-map :
    (f : Address → ℕ) (users before after : List Address) (a : Address) (n : ℕ)
    → before ++ a ∷ after ≡ users
    → length before ≡ n
    → get_elem? (map f users) n ≡ some (f a)
get_elem?-map f users before after a n e k =
    subst (λ us. get_elem? (map f us) n ≡ some (f a)) e
      (subst (λ m. get_elem? (map f (before ++ a ∷ after)) m ≡ some (f a)) k (here before))
  where
    here : (xs : List Address) → get_elem? (map f (xs ++ a ∷ after)) (length xs) ≡ some (f a)
    here [] = refl
    here (x ∷ xs) = here xs

append_one :
    (xs : List Address) (a : Address) (ys : List Address) → (xs ++ a ∷ []) ++ ys ≡ xs ++ a ∷ ys
append_one [] a ys = refl
append_one (x ∷ xs) a ys = rw (append_one xs a ys) refl

-- What is assigned is read at its address, and nowhere else.
at-assign :
    (locks mints : Address → ℕ) (a x : Address) (stats : List Requirements)
    → at a (assign (requirements_of locks mints x) stats)
      ≡ (if a == x then some (requirements_of locks mints a) else at a stats)
at-assign locks mints a x stats = elim (Bool-cases (a == x)) [
  | inl e ↦ rw e (
      subst
        (λ y.
          at a (assign (requirements_of locks mints y) stats)
          ≡ some (requirements_of locks mints a))
        (==→eq a x e) (at-assign_same (requirements_of locks mints a) stats))
  | inr e ↦ rw e (at-assign_other a (requirements_of locks mints x) stats (ground (arith, e)))
]

one_more :
    (locks mints : Address → ℕ) (a x : Address) (after : List Address) (stats : List Requirements)
    → (if includes a after
        then some (requirements_of locks mints a)
        else at a (assign (requirements_of locks mints x) stats))
      ≡ (if includes a (x ∷ after) then some (requirements_of locks mints a) else at a stats)
one_more locks mints a x after stats = elim (Bool-cases (includes a after)) [
  | inl e ↦ rw e ground arith
  | inr e ↦ rw e (at-assign locks mints a x stats ∙ ground arith)
]

-- The loop at an address that is still to come sets what that address has; it leaves the others.
at-requirements_from :
    (locks mints : Address → ℕ) (a : Address) (users before after : List Address) (n : ℕ)
    (stats : List Requirements)
    → before ++ after ≡ users
    → length before ≡ n
    → at a (requirements_from (map locks users) (map mints users) n after stats)
      ≡ (if includes a after then some (requirements_of locks mints a) else at a stats)
unfolding requirements_from
at-requirements_from locks mints a users before [] n stats e k = refl
at-requirements_from locks mints a users before (x ∷ after) n stats e k =
    rw (get_elem?-map locks users before after x n e k) rw
      (get_elem?-map mints users before after x n e k)
      (at-requirements_from locks mints a users (before ++ x ∷ []) after (1 + n)
          (assign (requirements_of locks mints x) stats) (append_one before x after ∙ e)
          (omega (arith, length-append before (x ∷ []), k))
        ∙ one_more locks mints a x after stats)

check_addresses-ok :
    (env : Env) (users : List Address) (s : State)
    → All (λ a. env.is_address a ≡ true) users
    → check_addresses env users s ≡ (ok tt, s)
unfolding check_addresses
check_addresses-ok env [] s h = refl
check_addresses-ok env (a ∷ users) s (h, hs) = rw h (check_addresses-ok env users s hs)

-- For at most 200 addresses that are valid, and calls of the chain that answer each address's
-- burnt amount and item balances in order: the answer has for each of the addresses its own
-- burnt amount and the sum of its own balances, and nothing for any other.
pub check_shop_requirements-of_each :
    (env : Env) (users : List Address) (s : State) (burnt : Address → ℕ) (items : Address → List ℕ)
    → length users ≤ 200
    → All (λ a. env.is_address a ≡ true) users
    → env.burnt_amounts (addresses env.network).bud_burn users ≡ some (map burnt users)
    → env.item_balances (addresses env.network).game_item users ≡ some (map items users)
    → (stats : List Requirements) × (check_shop_requirements env users s ≡ (ok stats, s))
      × ((a : Address)
          → at a stats ≡ (
              if includes a users
              then some (requirements_of burnt (λ x. sum (items x)) a)
              else none))
unfolding check_shop_requirements get_gen0_bud_lock_counts get_game_item_mint_counts
    amounts_or_raise
check_shop_requirements-of_each env users s burnt items h valid locks mints =
    let few : ltb 200 (length users) ≡ false = ground (arith, h) in
    rw (check_addresses-ok env users s valid) rw few rw locks rw mints (
      requirements_from (map burnt users) (map sum (map items users)) 0 users [],
      refl,
      λ a.
          rw (map-map items sum users)
            (at-requirements_from burnt (λ x. sum (items x)) a users [] users 0 [] refl refl),
    )
