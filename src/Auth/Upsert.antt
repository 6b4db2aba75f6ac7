-- ===== src/Auth/Upsert.antt =====
-- `prismaService.user.upsert` of `login` in src/user/user.controller.ts.
use backend.Common.{
  Bool-cases, inl, inr, false, ℕ, ◌≡◌, refl, true, Option, none, some, List, [], ◌∷◌, ◌++◌, ◌==◌,
  String, arith, first, change, eq→==,
}
use backend.Common.Int.{pos}
use backend.Schema.{ok, Address, User}
use backend.Db.{State, Exec}
use backend.User.Points.{user_at}

-- A new user; the points are the column's default.
abbrev pub new_user : Address → String → ℕ → User
new_user a signature game_key_id = record {
  address = a;
  signature = signature;
  game_key_id = some game_key_id;
  breeding_point = pos 0;
}

abbrev pub relogged : String → ℕ → User → User
relogged signature game_key_id u = record u {
  signature = signature;
  game_key_id = some game_key_id;
}

unfoldable pub upserted_user : Address → String → ℕ → Option User → Exec User
upserted_user a signature game_key_id none s =
    let u = new_user a signature game_key_id in (ok u, record s { users = s.users ++ u ∷ [] })
upserted_user a signature game_key_id (some u) s = (
  ok (relogged signature game_key_id u),
  record s { users = change (λ x. x.address == a) (relogged signature game_key_id) s.users },
)

-- `user.upsert` by the address.
unfoldable pub upsert_user : Address → String → ℕ → Exec User
unfolding upserted_user
upsert_user a signature game_key_id s =
    upserted_user a signature game_key_id (first (λ u. u.address == a) s.users) s

-- The row after it: a new user's, or the old one with the new signature and key.
abbrev pub relogged_or_new : Address → String → ℕ → Option User → User
relogged_or_new a signature game_key_id none = new_user a signature game_key_id
relogged_or_new a signature game_key_id (some u) = relogged signature game_key_id u

first-append_new :
    (a : Address) (us : List User) (u : User)
    → first (λ x. x.address == a) us ≡ none
    → (u.address == a) ≡ true
    → first (λ x. x.address == a) (us ++ u ∷ []) ≡ some u
first-append_new a [] u h e = ground (arith, e)
first-append_new a (x ∷ us) u h e = ground (arith, h, e, first-append_new a us u)

first-change :
    (a : Address) (signature : String) (game_key_id : ℕ) (us : List User) (u : User)
    → first (λ x. x.address == a) us ≡ some u
    → first (λ x. x.address == a) (change (λ x. x.address == a) (relogged signature game_key_id) us)
      ≡ some (relogged signature game_key_id u)
first-change a signature game_key_id [] u h = ground arith
first-change a signature game_key_id (x ∷ us) u h =
    ground (arith, h, first-change a signature game_key_id us u)

other-append :
    (b : Address) (us : List User) (u : User)
    → (u.address == b) ≡ false
    → first (λ x. x.address == b) (us ++ u ∷ []) ≡ first (λ x. x.address == b) us
other-append b [] u h = rw h refl
other-append b (x ∷ us) u h = elim (Bool-cases (x.address == b)) [
  | inl e ↦ rw e refl
  | inr e ↦ rw e (other-append b us u h)
]

other-change :
    (a b : Address) (signature : String) (game_key_id : ℕ) (us : List User)
    → (a == b) ≡ false
    → first (λ x. x.address == b) (change (λ x. x.address == a) (relogged signature game_key_id) us)
      ≡ first (λ x. x.address == b) us
other-change a b signature game_key_id [] h = refl
other-change a b signature game_key_id (x ∷ us) h =
    let rest = other-change a b signature game_key_id us h in
    elim (Bool-cases (x.address == a)) [
      | inl e ↦ let other : (x.address == b) ≡ false = ground arith in rw e rw other rest
      | inr e ↦ elim (Bool-cases (x.address == b)) [
        | inl f ↦ rw e rw f refl
        | inr f ↦ rw e rw f rest
      ]
    ]

abbrev pub IsUpserted : Address → String → ℕ → State → User → State → Type 0
IsUpserted a signature game_key_id s u s' =
    (u ≡ relogged_or_new a signature game_key_id (user_at a s))
    × (user_at a s' ≡ some u)
    × (s'.slots ≡ s.slots)
    × ((b : Address) → (a == b) ≡ false → user_at b s' ≡ user_at b s)

upserted :
    (a : Address) (signature : String) (game_key_id : ℕ) (s : State) (o : Option User)
    → user_at a s ≡ o
    → (u : User) × (s' : State) × (upserted_user a signature game_key_id o s ≡ (ok u, s'))
      × (u ≡ relogged_or_new a signature game_key_id o)
      × (user_at a s' ≡ some u)
      × (s'.slots ≡ s.slots)
      × ((b : Address) → (a == b) ≡ false → user_at b s' ≡ user_at b s)
unfolding upserted_user
upserted a signature game_key_id s none h = (
  _,
  _,
  refl,
  refl,
  first-append_new a s.users _ h (eq→== a a refl),
  refl,
  λ b e. other-append b s.users (new_user a signature game_key_id) e,
)
upserted a signature game_key_id s (some u) h = (
  _,
  _,
  refl,
  refl,
  first-change a signature game_key_id s.users u h,
  refl,
  λ b e. other-change a b signature game_key_id s.users e,
)

pub upsert_user-upserts :
    (a : Address) (signature : String) (game_key_id : ℕ) (s : State)
    → (u : User) × (s' : State) × (upsert_user a signature game_key_id s ≡ (ok u, s'))
      × IsUpserted a signature game_key_id s u s'
unfolding upsert_user
upsert_user-upserts a signature game_key_id s =
    let (u, s', e, row, found, slots, others) =
      upserted a signature game_key_id s (user_at a s) refl in
    (u, s', e, (row, found, slots, others))
