-- ===== src/Common/Errors.antt =====
-- backend/src/common/errors.ts: API errors, the other values that the services throw, and the
-- mapping of a thrown value to an HTTP response. Sentry, the log and the metrics are left out.
use skrynia.Prelude.{ℕ, String}

-- `class ApiError`.
pub record ApiError : Type 0 where
  pub status : ℕ
  pub message : String
  pub code : String

-- An error of PostgreSQL, by its SQLSTATE.
pub data PgError : Type 0 where
  unique_violation foreign_key_violation check_violation serialization_failure deadlock_detected :
      PgError

-- What a `throw` can carry: an `ApiError`, `MoneyRangeError`, a plain `Error`, a database error,
-- a validation error of the schema library (a value with `issues`).
pub data Error : Type 0 where
  api : ApiError → Error
  money_range : Error
  plain : String → Error
  pg : PgError → Error
  issues : Error

pub not_found : String → Error
not_found m = api (record { status = 404; message = m; code = "not_found" })

pub forbidden : String → Error
forbidden m = api (record { status = 403; message = m; code = "forbidden" })

pub bad_request : String → Error
bad_request m = api (record { status = 400; message = m; code = "bad_request" })

pub conflict : String → Error
conflict m = api (record { status = 409; message = m; code = "conflict" })

pub unauthorized : String → Error
unauthorized m = api (record { status = 401; message = m; code = "unauthorized" })

pub service_unavailable : String → Error
service_unavailable m = api (record { status = 503; message = m; code = "service_unavailable" })

-- What the services return: a value, or the thrown error.
pub data Result {ℓ} (A : Type ℓ) : Type ℓ where
  ok : A → Result A
  err : Error → Result A
