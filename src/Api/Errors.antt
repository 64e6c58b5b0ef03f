-- ===== src/Api/Errors.antt =====
-- src/api_orchestration/errors.py: exceptions as generic responses.
use ai_dlc_test.Common.{ℕ, String, List, [], Option, some, none}
use ai_dlc_test.SharedKernel.Exceptions.{DomainError}
use ai_dlc_test.Security.Entities.{
  SecurityError, authentication_failed, authorization_denied, ip_not_allowed, rate_limit_exceeded,
}

-- `ErrorResponse`
pub record ErrorResponse : Type 0 where
  pub message : String
  pub violated_rule : Option String
  pub errors : List (ℕ × String)

-- An exception, as far as the mapping tells them apart, with `str(exc)` of a domain error.
pub data Exception : Type 0 where
  security_error : SecurityError → Exception
  csv_import_error : (violated_rule : String) → (errors : List (ℕ × String)) → Exception
  domain_error : DomainError → (text : String) → Exception
  other_exception : Exception

abbrev json : ℕ → String → ℕ × ErrorResponse
json status message = (status, record { message = message; violated_rule = none; errors = [] })

-- `error_response_for`
unfoldable pub error_response_for : Exception → Option (ℕ × ErrorResponse)
error_response_for (security_error (ip_not_allowed source_ip)) = some (json 403 "forbidden")
error_response_for (security_error (rate_limit_exceeded source_ip)) =
    some (json 429 "too many requests")
error_response_for (security_error (authentication_failed user_id)) =
    some (json 401 "authentication failed")
error_response_for (security_error (authorization_denied user_id action resource_id)) =
    some (json 403 "forbidden")
error_response_for (csv_import_error rule errors) =
    some (400, record { message = "csv import failed"; violated_rule = some rule; errors = errors })
error_response_for (domain_error e text) =
    some (400, record { message = text; violated_rule = some e.violated_rule; errors = [] })
error_response_for other_exception = none

abbrev or_500 : Option (ℕ × ErrorResponse) → ℕ × ErrorResponse
or_500 (some mapped) = mapped
or_500 none = json 500 "internal error"

-- `register_exception_handlers`: what a route's exception becomes.
unfoldable pub handled : Exception → ℕ × ErrorResponse
unfolding error_response_for
handled raised = or_500 (error_response_for raised)
