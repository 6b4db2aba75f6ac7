-- ===== src/Tests/Auth.antt =====
-- Login, the middleware and the admin's guard.
use backend.Utils.{checksum_address}
use backend.User.Points.{user_at}
use backend.User.{get_user}
use backend.Env.{Env, addresses}
use Prim.Native.String.{◌++◌}
use backend.Common.{◌≡◌, refl, none, some, List, [], ◌∷◌, arith}
use backend.Common.Int.{pos, ◌-ℤ◌, ◌+ℤ◌}
use backend.Schema.{User, err, Error, ok, BreedPair, BreedLevel, paired, farmer_pass}
use backend.Db.{◌>>=◌, State}
use backend.Breed.{BreedPairDto, get_pairs}
use backend.Breed.Visibility.{Lists, get_pairs-Lists}
use backend.Auth.{
  is_game_key_staked, is_staking, get_login_message, is_valid_message, LoginBody, LoggedIn, login,
  authenticate, valid_at, log_in_as, let_in,
}
use backend.Auth.Messages.{IsLoginMessage}
use backend.Auth.Logins.{IsByItsAddress, IsLogin, login-succeeds, login-signed}
use backend.Auth.Tokens.{login-unseen, IsCaller, authenticate-IsCaller, login-authenticate}
use backend.Auth.Upsert.{upsert_user, upserted_user}
use backend.Land.{create_free_land_slots}
use backend.Tests.Fixtures.{env, caller, start}

-- A fresh message of the user 7 for the game key 3, with a signature.
abbrev body : LoginBody
body = record {
  message = get_login_message 3 "0000001000000";
  address = 7;
  game_key_id = 3;
  signature = "0x0";
}

login-succeeds_example :
    (answer : LoggedIn) × (s' : State) × (login env body start ≡ (ok answer, s'))
    × IsLogin env body start answer s'
unfolding ◌-ℤ◌ ◌+ℤ◌
login-succeeds_example =
    login-succeeds env body "0000001000000" (pos 1000000) start refl refl refl refl (7, refl, refl)

abbrev answer : LoggedIn
answer = record { address = 7; token = "token" }

login-signed_example :
    IsLoginMessage env 3 body.message
    × IsByItsAddress env body
    × IsLogin env body start answer (login env body start).1
unfolding login is_valid_message valid_at log_in_as let_in upsert_user upserted_user
    create_free_land_slots ◌-ℤ◌ ◌+ℤ◌
login-signed_example = login-signed env body answer start (login env body start).1 refl

authenticate-IsCaller_example :
    IsCaller env (some "Bearer token") (authenticate env (some "Bearer token") start).0
    × ((authenticate env (some "Bearer token") start).1 ≡ start)
authenticate-IsCaller_example = authenticate-IsCaller env (some "Bearer token") start

-- The address 6 in other letters is 7, its checksummed form.
abbrev letters : Env
letters = record env {
  lower_case = λ a. 6;
  get_address = λ a. some 7;
  jwt_verify = λ phrase time token. some (6, 3);
}

abbrev lower : LoginBody
lower = record body { address = 6 }

abbrev lower_answer : LoggedIn
lower_answer = record { address = 6; token = "token" }

abbrev nobody : State
nobody = record start { users = [] }

login-authenticate_example :
    authenticate (record letters { now = 80000000 }) (some ("Bearer " ++ "token")) start
    ≡ (ok (record { user = 7; game_key_id = 3 }), start)
unfolding login is_valid_message valid_at log_in_as let_in upsert_user upserted_user
    create_free_land_slots ◌-ℤ◌ ◌+ℤ◌ checksum_address is_game_key_staked is_staking addresses
login-authenticate_example =
    login-authenticate letters lower lower_answer start (login letters lower start).1 80000000 start
      (λ i j h. refl) (λ i. refl) refl (omega arith)

login-unseen_example :
    ((u : User) × (user_at 6 (login letters lower nobody).1 ≡ some u))
    × ((authenticate (record letters { now = 80000000 }) (some ("Bearer " ++ "token")) >>= get_user)
          (login letters lower nobody).1
        ≡ (err (Error.not_found "User not found."), (login letters lower nobody).1))
unfolding login is_valid_message valid_at log_in_as let_in upsert_user upserted_user
    create_free_land_slots ◌-ℤ◌ ◌+ℤ◌ checksum_address is_game_key_staked is_staking addresses
login-unseen_example =
    login-unseen letters lower lower_answer nobody (login letters lower nobody).1 80000000
      (λ i j h. refl) (λ i. refl) refl refl refl (omega arith)

abbrev session : BreedPair
session = record {
  id = 1;
  male_bud_id = pos 1;
  female_bud_id = pos 2;
  rate = pos 100;
  created_at = 995000;
  user_address = 7;
  current_level = 1;
  status = paired;
  slot_id = 1;
  game_key_id = 3;
  game_item_id = some farmer_pass;
}

-- A session of that user with one level.
abbrev breeding : State
breeding = record start {
  pairs = record { rows = session ∷ []; next = 2 };
  levels = record { rows = level ∷ []; next = 2 };
}
  where
    level : BreedLevel
    level = record {
      id = 1;
      pair_id = 1;
      level = 1;
      created_at = 995000;
      bonus_rate = pos 0;
      male_breed_bud_id = none;
      female_breed_bud_id = none;
    }

get_pairs-Lists_example :
    (dtos : List BreedPairDto) × (get_pairs env caller none breeding ≡ (ok dtos, breeding))
    × Lists env breeding 7 none breeding.pairs.rows dtos
get_pairs-Lists_example = get_pairs-Lists env caller none breeding
