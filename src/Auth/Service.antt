-- ===== src/Auth/Service.antt =====
-- src/user/user.service.ts: the login message, the tokens, the game key; `login` of
-- src/user/user.controller.ts; src/middlewares/auth.middleware.ts; src/guards/admin.guard.ts.
-- An address is the text of it: in other letters' case it is another one.
use backend.Utils.{checksum_address}
use Prim.Native.String.{◌++◌}
use backend.Common.{
  ℕ, Option, none, some, Bool, false, not, List, [], ◌∷◌, ◌==◌, if◌then◌else◌, String,
}
use backend.Common.Int.{ℤ, pos, ltb_ℤ, ◌+ℤ◌, ◌-ℤ◌}
use backend.Schema.{Error, ok, err, Result, Address, Caller, User}
use backend.Db.{not_awaited, Exec, pure, raise, throw_if, ◌>>=◌, ◌>>◌}
use backend.Env.{Env, addresses}
use backend.Land.{create_free_land_slots}
use backend.Auth.Upsert.{upsert_user}
use backend.Auth.Text.{same_text, last_chars, decimal, without_first}

-- The part of `getLoginMessage` before the timestamp.
abbrev pub before_timestamp : ℕ → String
before_timestamp game_key_id =
    ("Please sign this message to play 420 Game.\nThis won't cost you any ETH!\n\nIf you're connecting a hardware wallet, you'll need to sign the message on your device, too.\n\nGameKey#: "
      ++ decimal game_key_id)
    ++ "\nTimestamp: "

-- `getLoginMessage`.
abbrev pub get_login_message : ℕ → String → String
get_login_message game_key_id timestamp = before_timestamp game_key_id ++ timestamp

-- `timestampBuffer`, in milliseconds.
abbrev pub timestamp_buffer : ℤ
timestamp_buffer = pos 300000

unfoldable pub valid_at : Env → ℕ → String → Option ℤ → Exec Bool
valid_at env game_key_id message none = raise (Error.plain "invalid BigNumber string")
valid_at env game_key_id message (some t) = pure (
    if ltb_ℤ (pos env.now -ℤ timestamp_buffer) t
    then if ltb_ℤ t (pos env.now +ℤ timestamp_buffer)
      then same_text (get_login_message game_key_id (last_chars 13 message)) message
      else false
    else false)

-- `isValidMessage`.
unfoldable pub is_valid_message : Env → ℕ → String → Exec Bool
unfolding valid_at
is_valid_message env game_key_id message =
    valid_at env game_key_id message (env.big_number (last_chars 13 message))

-- `jwtEncodeUser`.
abbrev pub jwt_encode_user : Env → Address → ℕ → String
jwt_encode_user env a game_key_id = env.jwt_sign env.pass_phrase env.now a game_key_id

-- `jwtDecodeUser`.
abbrev pub jwt_decode_user : Env → String → Option (Address × ℕ)
jwt_decode_user env token = env.jwt_verify env.pass_phrase env.now token

unfoldable pub is_staking : Env → Option (List Address) → Exec Bool
unfolding addresses
is_staking env none = raise (Error.breeding "Check game key stake issue.. RPC call error")
is_staking env (some []) = pure false
is_staking env (some (owner ∷ owners)) = pure (owner == (addresses env.network).staking)

-- `isGameKeyStaked`.
unfoldable pub is_game_key_staked : Env → ℕ → Exec Bool
unfolding is_staking addresses
is_game_key_staked env game_key_id =
    is_staking env (env.owners_of (addresses env.network).game_key (pos game_key_id ∷ []))

abbrev pub caught : {A : Type 0} → Error → Result A → Result A
caught error (ok a) = ok a
caught error (err e) = err error

-- `try { await m } catch { throw error }`
abbrev pub or_throw : {A : Type 0} → Exec A → Error → Exec A
or_throw m error s = (caught error (m s).0, (m s).1)

-- `LoginDto`.
pub record LoginBody : Type 0 where
  pub message : String
  pub address : Address
  pub game_key_id : ℕ
  pub signature : String

pub record LoggedIn : Type 0 where
  pub address : Address
  pub token : String

abbrev pub no_slots : Error
no_slots = Error.breeding "Error during open up free slots"

abbrev pub logged_in : Env → LoginBody → User → LoggedIn
logged_in env body user = record {
  address = user.address;
  token = jwt_encode_user env user.address body.game_key_id;
}

-- What `login` does once the signature is the user's.
unfoldable pub let_in : Env → LoginBody → Exec LoggedIn
let_in env body = do
  or_throw (create_free_land_slots body.address body.game_key_id) no_slots
  user ← upsert_user body.address body.signature body.game_key_id
  pure (logged_in env body user)

unfoldable pub log_in_as : Env → LoginBody → Option Address → Exec LoggedIn
unfolding let_in
log_in_as env body none = raise (Error.plain "invalid signature")
log_in_as env body (some derived) =
    if env.lower_case derived == env.lower_case body.address
    then let_in env body
    else raise (Error.bad_request "Signature and Address do not match.")

-- `login`.
unfoldable pub login : Env → LoginBody → Exec LoggedIn
unfolding is_valid_message log_in_as is_game_key_staked
login env body = do
  valid ← is_valid_message env body.game_key_id body.message
  throw_if (not valid) (Error.bad_request "Invalid message and/or timestamp.")
  staked ← not_awaited (is_game_key_staked env body.game_key_id)
  throw_if (not staked) (Error.unprocessable "Game key is not staked")
  log_in_as env body (env.verify_message body.message body.signature)

unfoldable pub caller_of : Env → Option (Address × ℕ) → Exec Caller
unfolding checksum_address
caller_of env none = raise (Error.unauthorized "Invalid access token")
caller_of env (some (a, game_key_id)) =
    pure (record { user = checksum_address env a; game_key_id = game_key_id })

-- `AuthMiddleware.use`, on the `authorization` header: `next()` goes on as the caller, and
-- `next(error)` answers the error.
unfoldable pub authenticate : Env → Option String → Exec Caller
unfolding caller_of
authenticate env none = raise (Error.unauthorized "No access token provided")
authenticate env (some header) =
    let token = without_first "Bearer " header in
    if same_text token ""
    then raise (Error.unauthorized "No access token provided")
    else caller_of env (jwt_decode_user env token)

-- What `done` is called with.
pub data Verdict : Type 0 where
  admitted refused : Verdict

abbrev pub is_key : Option String → String → Bool
is_key none key = false
is_key (some k) key = same_text k key

-- `AdminGuardStrategy.validate`: its calls of `done`, in order.
unfoldable pub validate : Env → String → List Verdict
validate env key =
    if is_key env.admin_key key
    then Verdict.admitted ∷ Verdict.refused ∷ []
    else Verdict.refused ∷ []
