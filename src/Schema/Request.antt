-- ===== src/Schema/Request.antt =====
-- src/utils/errors.ts and src/types.ts: errors, game items, and the user that a request is from.
use backend.Common.{ℕ, String, ◌==◌, Option, some, none, Bool, false}

-- An `HttpException` by its code, with its message; `prisma` is any failure of the database
-- client, `type_error` an access to a field of `null`, `plain` an `Error` of JavaScript, and
-- `bad_request_exception` Nest's own exception, which has no code.
pub data Error : Type 0 where
  unauthorized bad_request conflict not_found unprocessable breeding plain bad_request_exception :
      String → Error
  prisma type_error : Error

-- The HTTP status of an answer. What is no HttpException and no Prisma error is Nest's 500.
unfoldable pub status : Error → ℕ
status (Error.unauthorized m) = 401
status (Error.bad_request m) = 400
status (Error.conflict m) = 409
status (Error.not_found m) = 404
status (Error.unprocessable m) = 422
status (Error.breeding m) = 500
status (Error.plain m) = 500
status (Error.bad_request_exception m) = 400
status Error.prisma = 500
status Error.type_error = 500

pub data Result {ℓ} (A : Type ℓ) : Type ℓ where
  ok : A → Result A
  err : Error → Result A

abbrev pub Address : Type 0
Address = ℕ

-- `Request`: the user and the game key that the middleware put on the request.
pub record Caller : Type 0 where
  pub user : Address
  pub game_key_id : ℕ

-- `GameItem`.
abbrev pub rolling_paper : ℕ
rolling_paper = 1

abbrev pub hoodie : ℕ
hoodie = 2

abbrev pub superweed_serum : ℕ
superweed_serum = 3

abbrev pub farmer_pass : ℕ
farmer_pass = 4

abbrev pub weed_dr_pass : ℕ
weed_dr_pass = 5

-- `gameItemId === item`.
abbrev pub is_item : Option ℕ → ℕ → Bool
is_item none i = false
is_item (some j) i = j == i
