-- ===== src/Filters.antt =====
-- src/filters: the bodies of error answers.
use backend.Common.{ℕ, Option, none, some, String}
use backend.Schema.{Error, status}

-- A body without success and without data, and its status; a code may be missing.
pub record ErrorAnswer : Type 0 where
  pub status : ℕ
  pub code : Option String
  pub message : String

abbrev coded : Error → String → String → Option ErrorAnswer
coded e code message = some (record { status = status e; code = some code; message = message })

-- `HttpExceptionFilter.catch`, on the exceptions that it catches.
unfoldable pub http_exception : Error → Option ErrorAnswer
http_exception (Error.unauthorized m) = coded (Error.unauthorized m) "Unauthorized" m
http_exception (Error.bad_request m) = coded (Error.bad_request m) "BadRequest" m
http_exception (Error.conflict m) = coded (Error.conflict m) "Conflict" m
http_exception (Error.not_found m) = coded (Error.not_found m) "NotFound" m
http_exception (Error.unprocessable m) = coded (Error.unprocessable m) "UnprocessableEntity" m
http_exception (Error.breeding m) = coded (Error.breeding m) "BreedingError" m
http_exception (Error.bad_request_exception m) =
    some (record { status = status (Error.bad_request_exception m); code = none; message = m })
http_exception (Error.plain m) = none
http_exception Error.prisma = none
http_exception Error.type_error = none

-- `PrismaExceptionFilter.catch`, on the errors that it catches.
unfoldable pub prisma_exception : Error → Option ErrorAnswer
prisma_exception Error.prisma = some (record {
  status = 500;
  code = some "BreedingError";
  message = "There was an error, please try again later";
})
prisma_exception _ = none
