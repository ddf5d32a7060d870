-- ===== src/Transport/Laws.antt =====
-- What a client sees of an error.
use thesa.Prelude.{ℕ, List, [], ◌∷◌, ◌≡◌, refl, ap, arith, All, Option, none, some}
use thesa.Prelude.Text.{Text}
use thesa.Errors.{
  Code, bad_request, unauthorized, forbidden, not_found, conflict, validation_error, rate_limited,
  backend_unavailable, backend_timeout, ErrorEnvelope, internal_error, envelope, plain,
}
use thesa.Transport.{status_for_code, internal_envelope, with_trace, write_error}

with_trace_code : (trace : Option Text) (ee : ErrorEnvelope) → (with_trace trace ee).code ≡ ee.code
with_trace_code none ee = refl
with_trace_code (some t) ee = ground arith

-- The statuses that clients are told to expect.
abbrev pub http_statuses : List (Code × ℕ)
http_statuses =
    (bad_request, 400)
    ∷ (unauthorized, 401)
    ∷ (forbidden, 403)
    ∷ (not_found, 404)
    ∷ (conflict, 409)
    ∷ (validation_error, 422)
    ∷ (rate_limited, 429)
    ∷ (internal_error, 500)
    ∷ (backend_unavailable, 502)
    ∷ (backend_timeout, 504)
    ∷ []

-- An envelope is answered with the status of its code: 400 for BAD_REQUEST, 401 for UNAUTHORIZED, 403
-- for FORBIDDEN, 404 for NOT_FOUND, 409 for CONFLICT, 422 for VALIDATION_ERROR, 429 for RATE_LIMITED,
-- 500 for INTERNAL_ERROR, 502 for BACKEND_UNAVAILABLE and 504 for BACKEND_TIMEOUT. An error of
-- another kind is a 500 with the code INTERNAL_ERROR, whose response does not depend on its text.
pub write_error_cases :
    (trace : Option Text) (ee : ErrorEnvelope) (text other : Text)
    → All
        (λ (p : Code × ℕ). (write_error trace (envelope (record ee { code = p.0 }))).status ≡ p.1)
        http_statuses
      × ((write_error trace (plain text)).status ≡ 500)
      × ((write_error trace (plain text)).error.code ≡ internal_error)
      × (write_error trace (plain text) ≡ write_error trace (plain other))
unfolding write_error
write_error_cases trace ee text other = (
  (
    status bad_request,
    (
      status unauthorized,
      (
        status forbidden,
        (
          status not_found,
          (
            status conflict,
            (
              status validation_error,
              (
                status rate_limited,
                (status internal_error, (status backend_unavailable, (status backend_timeout, tt))),
              ),
            ),
          ),
        ),
      ),
    ),
  ),
  rw (with_trace_code trace internal_envelope) refl,
  with_trace_code trace internal_envelope,
  refl,
)
  where
    status :
        (c : Code)
        → status_for_code (with_trace trace (record ee { code = c })).code ≡ status_for_code c
    status c = ap status_for_code (with_trace_code trace (record ee { code = c }))
