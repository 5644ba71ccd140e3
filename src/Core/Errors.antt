-- ===== src/Core/Errors.antt =====
-- app/core/errors.py: the error classes as data, and the handlers that turn every exception into
-- a response with one envelope.
use ra_backend.Base.{String, ℕ, List, [], if◌then◌else◌}
use ra_backend.Base.Text.{lower, contains}
use ra_backend.Models.Common.{Json}

-- The subclasses of `AppError`, and the base itself.
pub data ErrorClass : Type 0 where
  app_error not_found conflict authentication permission_denied : ErrorClass
  validation_failed upstream_unavailable : ErrorClass

-- Exceptions of Python and of the libraries, by what the program's handlers tell apart.
pub data PyError : Type 0 where
  verify_mismatch invalid_hash verification_error value_error type_error : PyError
  expired_signature py_jwt_error : PyError
  multiple_results_found data_error index_error attribute_error other_error : PyError

pub data Exc : Type 0 where
  app : ErrorClass → String → List (String × String) → Exc
  request_validation : Json → Exc
  http_exception : ℕ → String → Exc
  -- the name of the driver's error class
  integrity : String → Exc
  python : PyError → Exc

pub data Details : Type 0 where
  details : List (String × String) → Details
  errors : Json → Details

unfoldable pub status_code : ErrorClass → ℕ
status_code app_error = 400
status_code not_found = 404
status_code conflict = 409
status_code authentication = 401
status_code permission_denied = 403
status_code validation_failed = 422
status_code upstream_unavailable = 503

unfoldable pub error_code : ErrorClass → String
error_code app_error = "app_error"
error_code not_found = "not_found"
error_code conflict = "conflict"
error_code authentication = "unauthorized"
error_code permission_denied = "forbidden"
error_code validation_failed = "validation_failed"
error_code upstream_unavailable = "upstream_unavailable"

pub record Response : Type 0 where
  pub status : ℕ
  pub code : String
  pub message : String
  pub extra : Details

envelope : ℕ → String → String → Response
envelope http code message = record {
  status = http;
  code = code;
  message = message;
  extra = details [];
}

-- `_integrity`: the class name tells the constraint.
integrity_response : String → Response
unfolding envelope
integrity_response origin =
    if contains origin "unique"
    then envelope 409 "conflict" "A record with these values already exists."
    else if contains origin "foreignkey"
    then envelope 409 "conflict" "Referenced record does not exist."
    else envelope 422 "validation_failed" "A field value violates a database constraint."

-- `register_exception_handlers`
unfoldable pub handle : Exc → Response
unfolding integrity_response status_code error_code
handle (app c message d) = record {
  status = status_code c;
  code = error_code c;
  message = message;
  extra = details d;
}
handle (request_validation e) = record {
  status = 422;
  code = "validation_failed";
  message = "Request validation failed.";
  extra = errors e;
}
handle (http_exception status detail) = envelope status "http_error" detail
handle (integrity origin) = integrity_response (lower origin)
handle (python e) = envelope 500 "internal_error" "An unexpected error occurred."
