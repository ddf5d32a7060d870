-- ===== src/Config.antt =====
-- internal/config/config.go: the settings of a backend service, and the check of the port. A
-- time.Duration is a count of nanoseconds, a float64 its bits.
pub mod Load
mod Tests
use thesa.Prelude.{ℕ, Bool, ◌||◌, if◌then◌else◌}
use thesa.Prelude.Int.{ℤ, pos, ltb_ℤ}
use thesa.Prelude.Text.{Text, codes}
use thesa.Errors.{Result, ok, err, plain}

pub record RetryConfig : Type 0 where
  pub max_attempts : ℤ
  pub backoff_initial : ℤ
  pub backoff_multiplier : ℕ
  pub backoff_max : ℤ
  pub idempotent_only : Bool

pub record ServiceConfig : Type 0 where
  pub base_url : Text
  pub timeout : ℤ
  pub retry : RetryConfig
  pub authorization_namespace : Text

-- Config.Validate, which looks at the port alone.
unfoldable pub validate : ℤ → Result (Unit {0})
validate port =
    if ltb_ℤ port (pos 1) || ltb_ℤ (pos 65535) port
    then err (plain (codes "server.port must be between 1 and 65535"))
    else ok tt
