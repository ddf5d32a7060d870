-- ===== src/Transport/Tests.antt =====
-- The theorem on errors at a small input.
use thesa.Prelude.{ℕ, ◌≡◌, some, [], All}
use thesa.Prelude.Text.{codes}
use thesa.Errors.{Code, internal_error, ErrorEnvelope, conflict, envelope, plain}
use thesa.Transport.{write_error}
use thesa.Transport.Laws.{http_statuses, write_error_cases}

abbrev taken : ErrorEnvelope
taken = record { code = conflict; message = codes "taken"; details = []; trace_id = [] }

write_error_cases_example :
    All
      (λ (p : Code × ℕ).
        (write_error (some (codes "t1")) (envelope (record taken { code = p.0 }))).status ≡ p.1)
      http_statuses
    × ((write_error (some (codes "t1")) (plain (codes "dial 10.0.0.1"))).status ≡ 500)
    × ((write_error (some (codes "t1")) (plain (codes "dial 10.0.0.1"))).error.code
        ≡ internal_error)
    × (write_error (some (codes "t1")) (plain (codes "dial 10.0.0.1"))
        ≡ write_error (some (codes "t1")) (plain (codes "no such host")))
write_error_cases_example =
    write_error_cases (some (codes "t1")) taken (codes "dial 10.0.0.1") (codes "no such host")
