-- ===== src/Transport.antt =====
-- internal/transport/response.go: the status and the body of an error.
mod Laws
pub mod Http
pub mod Middleware
pub mod Query
pub mod Interface
pub mod Actions
pub mod Handlers
pub mod Router
pub mod Providers
pub mod Pages
mod Tests
mod Requests
use thesa.Prelude.{ℕ, Option, none, some, [], is_empty, if◌then◌else◌}
use thesa.Prelude.Text.{Text, codes}
use thesa.Errors.{
  Code, bad_request, unauthorized, forbidden, not_found, conflict, validation_error, rate_limited,
  internal_error, backend_unavailable, backend_timeout, ErrorEnvelope, Error, envelope, plain,
}

-- The map has every code, so the status 500 of a missing one is never taken.
abbrev pub status_for_code : Code → ℕ
status_for_code bad_request = 400
status_for_code unauthorized = 401
status_for_code forbidden = 403
status_for_code not_found = 404
status_for_code conflict = 409
status_for_code validation_error = 422
status_for_code rate_limited = 429
status_for_code internal_error = 500
status_for_code backend_unavailable = 502
status_for_code backend_timeout = 504

pub record ErrorResponse : Type 0 where
  pub status : ℕ
  pub error : ErrorEnvelope

-- model.NewInternalError()
abbrev pub internal_envelope : ErrorEnvelope
internal_envelope = record {
  code = internal_error;
  message = codes "An unexpected error occurred";
  details = [];
  trace_id = [];
}

-- An error that is no envelope is replaced.
abbrev pub shown : Error → ErrorEnvelope
shown (envelope ee) = ee
shown (plain t) = internal_envelope

-- The trace of the request's span, if there is one, where the envelope has none.
abbrev pub with_trace : Option Text → ErrorEnvelope → ErrorEnvelope
with_trace none ee = ee
with_trace (some trace) ee = if is_empty ee.trace_id then record ee { trace_id = trace } else ee

unfoldable pub write_error : Option Text → Error → ErrorResponse
write_error trace e = record {
  status = status_for_code (with_trace trace (shown e)).code;
  error = with_trace trace (shown e);
}
