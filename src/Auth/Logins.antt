-- ===== src/Auth/Logins.antt =====
-- `login` of src/user/user.controller.ts: who gets in, and what a login leaves.
use Prim.Native.String.{count}
use mathlib.Core.Path.{subst}
use backend.Common.{
  List, [], ◌∷◌, ℕ, ◌≡◌, refl, sym, ap, ◌∙◌, Option, none, some, Bool, true, false, not, String,
  arith, ltb, ◌==◌, if◌then◌else◌, tally, Bool-cases, inl, inr, eq→==, ==→eq, first, first_passes,
}
use backend.Common.Int.{pos, ℤ}
use backend.Schema.{ok, Error, Address, User}
use backend.Db.{Exec, throw_if, ◌>>◌, not_awaited, State, ◌>>=◌, pure, raise}
use backend.Db.Inversion.{bind-runs, bind-ok, refuse-ok, pure-ok}
use backend.Env.{addresses, Env}
use backend.Land.{is_free_land, create_free_land_slots}
use backend.Land.Slots.{create_free_land_slots-idempotent}
use backend.User.Points.{user_at}
use backend.Auth.Upsert.{upsert_user, relogged_or_new, upsert_user-upserts}
use backend.Auth.Service.{
  is_game_key_staked, is_staking, get_login_message, is_valid_message, jwt_encode_user, caught,
  or_throw, LoginBody, LoggedIn, no_slots, logged_in, let_in, log_in_as, login,
}
use backend.Auth.Messages.{
  is_recent, is_valid_message-get_login_message, is_valid_message-accepts, IsLoginMessage,
}

abbrev pub free_lands : Address → ℕ → State → ℕ
free_lands a k s = tally (is_free_land a k) s.slots.rows

-- What a login leaves: the answer has a token of the player, the player's row has the signature
-- and the game key, and the game key has its slots.
abbrev pub IsLogin : Env → LoginBody → State → LoggedIn → State → Type 0
IsLogin env body s answer s' =
    (answer ≡ record {
      address = body.address;
      token = jwt_encode_user env body.address body.game_key_id;
    })
    × (user_at body.address s'
        ≡ some
            (relogged_or_new body.address body.signature body.game_key_id (user_at body.address s)))
    × (free_lands body.address body.game_key_id s' ≡ (
        if ltb 0 (free_lands body.address body.game_key_id s)
        then free_lands body.address body.game_key_id s
        else 5))
    × ((b : Address) → (body.address == b) ≡ false → user_at b s' ≡ user_at b s)

create_free_land_slots-ok :
    (a : Address) (k : ℕ) (s : State)
    → ((create_free_land_slots a k s).0 ≡ ok tt)
      × ((create_free_land_slots a k s).1.users ≡ s.users)
unfolding create_free_land_slots
create_free_land_slots-ok a k s = elim (Bool-cases (ltb 0 (free_lands a k s))) [
  | inl e ↦ rw e (refl, refl)
  | inr e ↦ rw e (refl, refl)
]

relogged_address :
    (a : Address) (signature : String) (k : ℕ) (s : State) (o : Option User)
    → user_at a s ≡ o
    → (relogged_or_new a signature k o).address ≡ a
relogged_address a signature k s none h = refl
relogged_address a signature k s (some u) h =
    ==→eq u.address a (first_passes (λ x. x.address == a) s.users u h)

let_in-succeeds :
    (env : Env) (body : LoginBody) (s : State)
    → (answer : LoggedIn) × (s' : State) × (let_in env body s ≡ (ok answer, s'))
      × IsLogin env body s answer s'
unfolding let_in
let_in-succeeds env body s =
    let a = body.address in
    let k = body.game_key_id in
    let (made, users) = create_free_land_slots-ok a k s in
    let s1 = (create_free_land_slots a k s).1 in
    let (u, s2, e, (row, found, slots, others)) = upsert_user-upserts a body.signature k s1 in
    let same : user_at a s1 ≡ user_at a s = ap (first (λ x. x.address == a)) users in
    let row' : u ≡ relogged_or_new a body.signature k (user_at a s) =
      row ∙ ap (relogged_or_new a body.signature k) same in
    let named : u.address ≡ a =
      ap (λ x. x.address) row' ∙ relogged_address a body.signature k s (user_at a s) refl in
    (
      logged_in env body u,
      s2,
      bind-runs (or_throw (create_free_land_slots a k) no_slots)
            (λ _. upsert_user a body.signature k >>= λ x. pure (logged_in env body x)) s s1 tt
            (ap (λ r. (caught no_slots r, s1)) made)
          ∙ bind-runs (upsert_user a body.signature k) (λ x. pure (logged_in env body x)) s1 s2 u e,
      (
        rw named refl,
        found ∙ ap some row',
        ap (λ t. tally (is_free_land a k) t.rows) slots
            ∙ (create_free_land_slots-idempotent a k s).0,
        λ b apart. others b apart ∙ ap (first (λ x. x.address == b)) users,
      ),
    )

-- The signature of the login's message is by its address, in any letters' case.
abbrev pub IsByItsAddress : Env → LoginBody → Type 0
IsByItsAddress env body =
    (signer : Address) × (env.verify_message body.message body.signature ≡ some signer)
    × (env.lower_case signer ≡ env.lower_case body.address)

-- The rest of a login succeeds exactly if the signature is the player's.
signed_by :
    (env : Env) (body : LoginBody) (o : Option Address) (answer : LoggedIn) (s s' : State)
    → log_in_as env body o s ≡ (ok answer, s')
    → ((signer : Address) × (o ≡ some signer)
        × (env.lower_case signer ≡ env.lower_case body.address))
      × IsLogin env body s answer s'
unfolding log_in_as
signed_by env body none answer s s' h = ground arith
signed_by env body (some derived) answer s s' h =
    elim (Bool-cases (env.lower_case derived == env.lower_case body.address)) [
      | inl e ↦
          let (answer', t, done, left) = let_in-succeeds env body s in
          let run : let_in env body s ≡ (ok answer, s') = rw e at h in
          let (same, state) = pure-ok answer' answer t s' (sym done ∙ run) in
          (
            (derived, refl, ==→eq (env.lower_case derived) (env.lower_case body.address) e),
            subst (λ x. IsLogin env body s x s') (sym same)
                (subst (λ x. IsLogin env body s answer' x) (sym state) left),
          )
      | inr e ↦ let no : raise (Error.bad_request _) s ≡ (ok answer, s') = rw e at h in ground arith
    ]

-- The chain's answer on the game key is not awaited: at most a rejection is left of it.
staked-runs :
    (env : Env) (k : ℕ) (s : State)
    → (rs : List Error) × (not_awaited (is_game_key_staked env k) s
        ≡ (ok true, record s { rejections = rs }))
unfolding is_game_key_staked is_staking addresses
staked-runs env k s = asked (env.owners_of (addresses env.network).game_key (pos k ∷ []))
  where
    asked :
        (o : Option (List Address))
        → (rs : List Error) × (not_awaited (is_staking env o) s
            ≡ (ok true, record s { rejections = rs }))
    asked none = (_, refl)
    asked (some []) = (s.rejections, refl)
    asked (some (a ∷ more)) = (s.rejections, refl)

-- A login past the message, on the promise.
abbrev past_message : Env → LoginBody → Bool → Exec LoggedIn
past_message env body staked =
    throw_if (not staked) (Error.unprocessable "Game key is not staked")
    >> log_in_as env body (env.verify_message body.message body.signature)

past_message-runs :
    (env : Env) (body : LoginBody) (s : State)
    → (rs : List Error) × ((not_awaited (is_game_key_staked env body.game_key_id)
            >>= past_message env body)
          s
        ≡ log_in_as env body
            (env.verify_message body.message body.signature)
            (record s { rejections = rs }))
past_message-runs env body s =
    let (rs, looked) = staked-runs env body.game_key_id s in
    (
      rs,
      bind-runs (not_awaited (is_game_key_staked env body.game_key_id)) (past_message env body) s
          (record s { rejections = rs }) true looked,
    )

-- A login whose message is the login message for its game key at a timestamp of 13 characters,
-- read as a time less than five minutes from now, and whose signature is by its address in any
-- letters' case, succeeds: its answer has a token of the address and the game key, the user's
-- row has the signature and the game key and keeps the points, no other user's row changes, and
-- the game key has its free slots.
pub login-succeeds :
    (env : Env) (body : LoginBody) (timestamp : String) (t : ℤ) (s : State)
    → body.message ≡ get_login_message body.game_key_id timestamp
    → count timestamp ≡ 13
    → env.big_number timestamp ≡ some t
    → is_recent env t ≡ true
    → IsByItsAddress env body
    → (answer : LoggedIn) × (s' : State) × (login env body s ≡ (ok answer, s'))
      × IsLogin env body s answer s'
unfolding login log_in_as
login-succeeds env body timestamp t s message h e recent (signer, signed, same) =
    let valid : is_valid_message env body.game_key_id body.message s ≡ (ok true, s) = rw message (
      is_valid_message-get_login_message env body.game_key_id timestamp t s h e ∙ rw recent refl) in
    let (rs, run) = past_message-runs env body s in
    let s1 = record s { rejections = rs } in
    let (answer, s', done, left) = let_in-succeeds env body s1 in
    let let_in_now : log_in_as env body (env.verify_message body.message body.signature) s1
        ≡ (ok answer, s') =
      rw signed rw (eq→== (env.lower_case signer) (env.lower_case body.address) same) done in
    (answer, s', rw valid (run ∙ let_in_now), left)

is_true : (b : Bool) → not b ≡ false → b ≡ true
is_true b h = ground arith

-- A login that succeeds has the login message for its game key, with a time less than five
-- minutes from now in its last 13 characters, and a signature of that message by its address in
-- any letters' case; its answer has a token of the address and the game key, the user's row has
-- the signature and the game key and keeps the points, no other user's row changes, and the game
-- key has its free slots.
pub login-signed :
    (env : Env) (body : LoginBody) (answer : LoggedIn) (s s' : State)
    → login env body s ≡ (ok answer, s')
    → IsLoginMessage env body.game_key_id body.message
      × IsByItsAddress env body
      × IsLogin env body s answer s'
unfolding login
login-signed env body answer s s' h =
    let (valid, t, e, h1) =
      bind-ok (is_valid_message env body.game_key_id body.message) _ s s' answer h in
    let (accepted, h2) = refuse-ok (not valid) _ _ t (answer, s') h1 in
    let (message, same) = is_valid_message-accepts env body.game_key_id body.message s t (
      subst (λ b. is_valid_message env body.game_key_id body.message s ≡ (ok b, t))
        (is_true valid accepted) e) in
    let (rs, run) = past_message-runs env body t in
    let (signer, left) =
      signed_by env body (env.verify_message body.message body.signature) answer
        (record t { rejections = rs }) s' (sym run ∙ h2) in
    (message, signer, subst (λ x. IsLogin env body x answer s') same left)
