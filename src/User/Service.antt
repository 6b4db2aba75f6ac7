-- ===== src/User/Service.antt =====
-- src/user/user.service.ts: `consumeBreedingPoint`; src/user/user.controller.ts: `getUser` and
-- `convertBp2High`.
use backend.Common.{ℕ, ◌*◌, Option, none, some, String}
use backend.Common.Int.{pos, ltb_ℤ, ◌-ℤ◌}
use backend.Schema.{Error, Address, Caller, User}
use backend.Db.{Exec, pure, raise, throw_if, ◌>>=◌, ◌>>◌, find_user, update_user}
use backend.Env.{Env, MintType}
use backend.Utils.{sign_mint_request}

unfoldable pub consume_found : Address → ℕ → Option User → Exec User
consume_found user amount none = raise Error.type_error
consume_found user amount (some u) = do
  throw_if (ltb_ℤ u.breeding_point (pos amount)) (Error.unprocessable "Not enough breeding point")
  update_user user λ x. record x { breeding_point = u.breeding_point -ℤ pos amount }

-- `consumeBreedingPoint`.
unfoldable pub consume_breeding_point : Address → ℕ → Exec User
unfolding consume_found
consume_breeding_point user amount = do consume_found user amount (← find_user user)

abbrev found_user : Option User → Exec User
found_user none = raise (Error.not_found "User not found.")
found_user (some u) = pure u

-- `getUser`.
unfoldable pub get_user : Caller → Exec User
get_user req = do found_user (← find_user req.user)

-- The answer of `convertBp2High`.
pub record Converted : Type 0 where
  pub signature : Option String
  pub timestamp : ℕ
  pub amount : ℕ

-- `convertBp2High`: it signs for the points and writes nothing.
unfoldable pub convert_bp2high : Env → Caller → ℕ → Exec Converted
convert_bp2high env req amount = do
  u ← found_user (← find_user req.user)
  throw_if (ltb_ℤ u.breeding_point (pos amount)) (Error.unprocessable "Not enough balance")
  pure (record {
    signature = sign_mint_request env req.user MintType.convert_bp2high 0 (amount * 100) env.now;
    timestamp = env.now;
    amount = amount * 100;
  })
