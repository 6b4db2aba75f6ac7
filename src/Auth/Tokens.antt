-- ===== src/Auth/Tokens.antt =====
-- src/middlewares/auth.middleware.ts: who passes, and a login's
-- token on the requests after it.
use backend.User.Points.{user_at}
use backend.User.{get_user}
use backend.Db.Inversion.{bind-runs}
use backend.Utils.{checksum_address}
use Prim.Native.String.{◌++◌}
use mathlib.Core.Path.{subst}
use text.Mathlib.TextLemmas.{cons-append}
use backend.Common.{
  ◌==◌, ◌∙◌, ℕ, ◌+◌, ◌/◌, ◌<◌, ◌≡◌, refl, sym, ap, Option, none, some, false, String, Bool-cases,
  inl, inr,
}
use backend.Schema.{User, ok, err, Error, Result, Address, Caller}
use backend.Db.{◌>>=◌, State}
use backend.Env.{Env}
use backend.Auth.Text.{same_text, without_first, without_first-append}
use backend.Auth.Service.{
  LoginBody, LoggedIn, login, jwt_encode_user, jwt_decode_user, caller_of, authenticate,
}
use backend.Auth.Logins.{login-signed}

-- What an answer of the middleware means.
abbrev pub IsCaller : Env → Option String → Result Caller → Type 0
IsCaller env header (ok c) =
    (h : String) × (header ≡ some h)
    × ((a : Address) × (jwt_decode_user env (without_first "Bearer " h) ≡ some (a, c.game_key_id))
        × (c.user ≡ checksum_address env a))
IsCaller env header (err e) = (m : String) × (e ≡ Error.unauthorized m)

called :
    (env : Env) (h : String) (o : Option (Address × ℕ)) (s : State)
    → jwt_decode_user env (without_first "Bearer " h) ≡ o
    → IsCaller env (some h) (caller_of env o s).0 × ((caller_of env o s).1 ≡ s)
unfolding caller_of
called env h none s e = ((_, refl), refl)
called env h (some (a, k)) s e = ((h, refl, (a, e, refl)), refl)

-- The middleware leaves the state alone; a request that it lets through has a header whose
-- token, without the first Bearer, is verified for the caller's game key and an address of which
-- the caller's is the checksummed form, and any other answer is the error Unauthorized.
pub authenticate-IsCaller :
    (env : Env) (header : Option String) (s : State)
    → IsCaller env header (authenticate env header s).0 × ((authenticate env header s).1 ≡ s)
unfolding authenticate
authenticate-IsCaller env none s = ((_, refl), refl)
authenticate-IsCaller env (some h) s =
    elim (Bool-cases (same_text (without_first "Bearer " h) "")) [
      | inl e ↦ rw e ((_, refl), refl)
      | inr e ↦ rw e (called env h (jwt_decode_user env (without_first "Bearer " h)) s refl)
    ]

bearer : (token : String) → without_first "Bearer " ("Bearer " ++ token) ≡ token
bearer token =
    subst (λ u. without_first "Bearer " u ≡ token) (sym (cons-append "B" "earer " token))
      (without_first-append "B" "earer " token)

-- If verification gives back what was signed for this address and game key less than a day
-- before, in whole seconds, and no token is empty: after a login that succeeds, the middleware
-- takes a header of the login's token within that day for a request of the checksummed form of
-- the login's address and of its game key.
pub login-authenticate :
    (env : Env) (body : LoginBody) (answer : LoggedIn) (s s' : State) (later : ℕ) (t : State)
    → ((i j : ℕ)
        → j / 1000 < i / 1000 + 86400
        → env.jwt_verify env.pass_phrase j
            (env.jwt_sign env.pass_phrase i body.address body.game_key_id)
          ≡ some (body.address, body.game_key_id))
    → ((i : ℕ)
        → same_text (env.jwt_sign env.pass_phrase i body.address body.game_key_id) "" ≡ false)
    → login env body s ≡ (ok answer, s')
    → later / 1000 < env.now / 1000 + 86400
    → authenticate (record env { now = later }) (some ("Bearer " ++ answer.token)) t ≡ (
      ok (record { user = checksum_address env body.address; game_key_id = body.game_key_id }),
      t,
    )
unfolding authenticate caller_of
login-authenticate env body answer s s' later t verifies texts h in_time =
    let (_, _, (same, row, lands, others)) = login-signed env body answer s s' h in
    let token : answer.token ≡ jwt_encode_user env body.address body.game_key_id =
      ap (λ x. x.token) same in
    rw (bearer answer.token) rw token rw (texts env.now) rw (verifies env.now later in_time) refl

-- If verification gives back what was signed for this address and game key less than a day
-- before, in whole seconds, no token is empty, the login's address is not in its checksummed
-- form and no user has that form: after a login that succeeds, the login's address has a user's
-- row, and a request for the user with the login's token within that day is answered that the
-- user is not found.
pub login-unseen :
    (env : Env) (body : LoginBody) (answer : LoggedIn) (s s' : State) (later : ℕ)
    → ((i j : ℕ)
        → j / 1000 < i / 1000 + 86400
        → env.jwt_verify env.pass_phrase j
            (env.jwt_sign env.pass_phrase i body.address body.game_key_id)
          ≡ some (body.address, body.game_key_id))
    → ((i : ℕ)
        → same_text (env.jwt_sign env.pass_phrase i body.address body.game_key_id) "" ≡ false)
    → (body.address == checksum_address env body.address) ≡ false
    → user_at (checksum_address env body.address) s ≡ none
    → login env body s ≡ (ok answer, s')
    → later / 1000 < env.now / 1000 + 86400
    → ((u : User) × (user_at body.address s' ≡ some u))
      × ((authenticate (record env { now = later }) (some ("Bearer " ++ answer.token)) >>= get_user)
            s'
          ≡ (err (Error.not_found "User not found."), s'))
unfolding get_user
login-unseen env body answer s s' later verifies texts apart missing h in_time =
    let (_, _, (same, row, lands, others)) = login-signed env body answer s s' h in
    let through = login-authenticate env body answer s s' later s' verifies texts h in_time in
    let unseen = others (checksum_address env body.address) apart ∙ missing in
    (
      (_, row),
      bind-runs (authenticate (record env { now = later }) (some ("Bearer " ++ answer.token)))
            get_user s' s' _ through
          ∙ rw unseen refl,
    )
