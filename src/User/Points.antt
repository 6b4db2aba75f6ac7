-- ===== src/User/Points.antt =====
-- `consumeBreedingPoint` of src/user/user.service.ts: what it takes, and when.
use backend.Common.{
  ℕ, ◌≡◌, refl, inl, inr, Bool-cases, [], ◌∷◌, false, List, Option, none, some, arith, first,
  change, ◌==◌,
}
use backend.Common.Int.{ℤ, pos, ◌≤ℤ◌, ltb_ℤ, ◌-ℤ◌, -ℤ_parts}
use backend.Schema.{Address, User, Result, ok, err}
use backend.Db.{State}
use backend.User.Service.{consume_found, consume_breeding_point}

-- The row of a user, by the address.
abbrev pub user_at : Address → State → Option User
user_at a s = first (λ u. u.address == a) s.users

-- What an answer of `consumeBreedingPoint` means for the state before and after.
abbrev pub Consumed : Address → ℕ → State → Result User × State → Type 0
Consumed a amount s (ok u, s') =
    (v : User) × (user_at a s ≡ some v)
    × (pos amount ≤ℤ v.breeding_point)
    × (u ≡ record v { breeding_point = v.breeding_point -ℤ pos amount })
    × (pos 0 ≤ℤ u.breeding_point)
    × (user_at a s' ≡ some u)
Consumed a amount s (err e, s') = s' ≡ s

pub found_after :
    (a : Address) (f : User → User) (us : List User) (v : User)
    → ((u : User) → (f u).address ≡ u.address)
    → first (λ u. u.address == a) us ≡ some v
    → first (λ u. u.address == a) (change (λ u. u.address == a) f us) ≡ some (f v)
found_after a f [] v h e = ground arith
found_after a f (u ∷ us) v h e = ground (arith, found_after a f us v h, h u)

pub enough_left :
    (n : ℤ) (amount : ℕ)
    → ltb_ℤ n (pos amount) ≡ false
    → (pos amount ≤ℤ n) × (pos 0 ≤ℤ (n -ℤ pos amount))
enough_left n amount h = (ground arith, ground (arith, -ℤ_parts n (pos amount)))

row-Consumed :
    (a : Address) (amount : ℕ) (s : State) (v : User)
    → user_at a s ≡ some v
    → ltb_ℤ v.breeding_point (pos amount) ≡ false
    → Consumed a amount s (
      ok (record v { breeding_point = v.breeding_point -ℤ pos amount }),
      record s {
        users =
            change
              (λ u. u.address == a)
              (λ u. record u { breeding_point = v.breeding_point -ℤ pos amount })
              s.users;
      },
    )
row-Consumed a amount s v e t =
    let left = enough_left v.breeding_point amount t in
    (v, e, left.0, refl, left.1, found_after a _ s.users v (λ u. refl) e)

found-Consumed :
    (a : Address) (amount : ℕ) (s : State) (o : Option User)
    → user_at a s ≡ o
    → Consumed a amount s (consume_found a amount o s)
unfolding consume_found
found-Consumed a amount s none e = refl
found-Consumed a amount s (some v) e = elim (Bool-cases (ltb_ℤ v.breeding_point (pos amount))) [
  | inl t ↦ rw t refl
  | inr t ↦ rw (t, e) (row-Consumed a amount s v e t)
]

-- With an answer the user's row had the points and has exactly the amount less, which is not
-- below zero; with an error nothing is written.
pub consume_breeding_point-Consumed :
    (a : Address) (amount : ℕ) (s : State) → Consumed a amount s (consume_breeding_point a amount s)
unfolding consume_breeding_point
consume_breeding_point-Consumed a amount s = found-Consumed a amount s (user_at a s) refl
