-- ===== src/Invoker/Retry.antt =====
-- internal/invoker/openapi.go: executeWithRetry and what it asks of methods, statuses and errors.
pub mod Laws
pub mod Backoff
use thesa.Prelude.{
  ℕ, zero, suc, Bool, true, false, not, ◌&&◌, ◌||◌, Option, none, some, if◌then◌else◌,
}
use thesa.Prelude.Int.{ℤ, pos, pos_part, leb_ℤ, ltb_ℤ}
use thesa.Prelude.Text.{Text, codes, text_eq}
use thesa.Errors.{Error, envelope, plain, Result, ok, err}
use thesa.Config.{RetryConfig}
use thesa.Context.{InvocationResult, Exec}

unfoldable pub is_idempotent_method : Text → Bool
is_idempotent_method method =
    text_eq method (codes "GET")
    || text_eq method (codes "PUT")
    || text_eq method (codes "DELETE")
    || text_eq method (codes "HEAD")
    || text_eq method (codes "OPTIONS")

abbrev is_status : ℕ → ℤ → Bool
is_status n code = leb_ℤ (pos n) code && leb_ℤ code (pos n)

unfoldable pub is_retryable_status : ℤ → Bool
is_retryable_status code =
    is_status 500 code || is_status 502 code || is_status 503 code || is_status 504 code

-- An *ErrorEnvelope is final.
unfoldable pub is_retryable_error : Error → Bool
is_retryable_error (envelope e) = false
is_retryable_error (plain t) = true

-- `scale` is time.Duration(float64(delay) * multiplier), `positive` the test of a float64.
module _ (scale : ℤ → ℕ → ℤ) (positive : ℕ → Bool) (two : ℕ) where
  abbrev pub or_default : ℤ → ℕ → ℤ
  or_default d n = if leb_ℤ d (pos 0) then pos n else d

  -- The loop from `i` on, `n` rounds before it ends.
  unfoldable pub grow : ℕ → ℤ → ℕ → ℤ → ℤ
  grow zero delay multiplier max = delay
  grow (suc n) delay multiplier max =
      let next = scale delay multiplier in
      let rest = grow n next multiplier max in if ltb_ℤ max next then max else rest

  unfoldable pub calculate_backoff : RetryConfig → ℕ → ℤ
  calculate_backoff cfg zero = or_default cfg.backoff_initial 100000000
  calculate_backoff cfg (suc attempt) =
      grow attempt (or_default cfg.backoff_initial 100000000)
        (if positive cfg.backoff_multiplier then cfg.backoff_multiplier else two)
        (or_default cfg.backoff_max 2000000000)

-- `execute_once` sends the request; `pause` waits before an attempt that is not the first, and gives
-- ctx.Err() if the context ends before the delay.
module _ {W : Type 0} (execute_once : Exec W InvocationResult) (pause : ℕ → W → Option Error × W)
    (can_retry : Bool) where
  abbrev pub finish : Option Error → InvocationResult → Result InvocationResult
  finish none last_result = ok last_result
  finish (some e) last_result = err e

  unfoldable pub paused : ℕ → W → Option Error × W
  paused zero w = (none, w)
  paused (suc attempt) w = pause (suc attempt) w

  abbrev pub has_more : ℕ → Bool
  has_more zero = false
  has_more (suc n) = true

  -- `left` attempts remain, of which the next one is `attempt`.
  unfoldable pub retry_loop : ℕ → ℕ → Option Error → InvocationResult → Exec W InvocationResult
  retry_loop zero attempt last_err last_result w = (finish last_err last_result, w)
  retry_loop (suc left) attempt last_err last_result w =
      let (stopped, w₁) = paused attempt w in
      elim stopped [
        | some e ↦ (err e, w₁)
        | none ↦
            let (answer, w₂) = execute_once w₁ in
            elim answer [
              | err e ↦
                  let again = retry_loop left (suc attempt) (some e) last_result w₂ in
                  if not can_retry || not (is_retryable_error e) then (err e, w₂) else again
              | ok result ↦
                  let again = retry_loop left (suc attempt) last_err result w₂ in
                  if is_retryable_status result.status_code && can_retry && has_more left
                  then again
                  else (ok result, w₂)
            ]
      ]

abbrev pub max_attempts_of : RetryConfig → ℕ
max_attempts_of cfg = if ltb_ℤ cfg.max_attempts (pos 1) then 1 else pos_part cfg.max_attempts

abbrev pub may_retry : Text → RetryConfig → Bool
may_retry method cfg = is_idempotent_method method || not cfg.idempotent_only

-- `no_result` is the zero InvocationResult.
unfoldable pub execute_with_retry :
    {W : Type 0}
    → Exec W InvocationResult
    → (ℕ → W → Option Error × W)
    → InvocationResult
    → RetryConfig
    → Text
    → Exec W InvocationResult
execute_with_retry execute_once pause no_result cfg method =
    retry_loop execute_once pause (may_retry method cfg) (max_attempts_of cfg) 0 none no_result
