-- ===== src/ErrorHandler.antt =====
-- src/shared/errors/error-handler.middleware.ts: the answer to a request that threw. What an error is
-- an instance of, and the fields that the handler reads, are a record.
use text.Mathlib.Text.{◌==◌ as str_eq}
use multi_tenant_collaborati.Common.{
  ℕ, String, Bool, false, ◌||◌, Option, none, some, AppError, app_error, ◌==◌, if◌then◌else◌,
}

pub record Thrown : Type 0 where
  pub as_app_error : Option AppError
  pub is_zod_error : Bool
  pub is_syntax_error : Bool
  pub code : Option String
  pub type : Option String
  pub status : Option ℕ

abbrev pub is_text : Option String → String → Bool
is_text none text = false
is_text (some s) text = str_eq s text

abbrev pub is_status : Option ℕ → ℕ → Bool
is_status none n = false
is_status (some m) n = m == n

-- The status and the code of the answer to an error that is no `AppError`.
unfoldable pub other_error : Thrown → AppError
other_error e =
    if e.is_zod_error
    then app_error 400 "VALIDATION_ERROR"
    else if is_text e.code "23505"
    then app_error 409 "DUPLICATE_ENTRY"
    else if is_text e.type "entity.parse.failed" || e.is_syntax_error
    then app_error 400 "INVALID_JSON"
    else if is_text e.type "entity.too.large" || is_status e.status 413
    then app_error 413 "PAYLOAD_TOO_LARGE"
    else app_error 500 "INTERNAL_ERROR"

unfoldable pub error_handler_middleware : Thrown → AppError
unfolding other_error
error_handler_middleware e = elim e.as_app_error [ none ↦ other_error e | some a ↦ a ]
