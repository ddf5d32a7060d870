-- ===== src/Invoker/Retry/Laws.antt =====
-- How often a request is sent.
use thesa.Prelude.{
  ℕ, zero, suc, ◌+◌, ◌-◌, ◌≤◌, ◌<◌, ◌≡◌, inl, inr, refl, ap, ◌∙◌, arith, Bool, true, false, not,
  ◌&&◌, ◌||◌, Option, none, some, if◌then◌else◌, Bool-cases, Option-cases,
}
use thesa.Prelude.Text.{Text}
use thesa.Errors.{Error, ErrorEnvelope, envelope, Result, ok, err, Result-cases}
use thesa.Config.{RetryConfig}
use thesa.Context.{InvocationResult, Exec}
use thesa.Invoker.Retry.{
  is_idempotent_method, is_retryable_status, is_retryable_error, retry_loop, paused, has_more,
  max_attempts_of, may_retry, execute_with_retry,
}

-- A count of the requests sent: one call adds one, and a pause none.
pub record Counts {W : Type 0} (execute_once : Exec W InvocationResult)
    (pause : ℕ → W → Option Error × W) (sent : W → ℕ) : Type 0 where
  pub once : (w : W) → sent (execute_once w).1 ≡ suc (sent w)
  pub waits : (n : ℕ) (w : W) → sent (pause n w).1 ≡ sent w

module _ {W : Type 0} (execute_once : Exec W InvocationResult)
    (pause : ℕ → W → Option Error × W) where
  abbrev Step :
      Bool
      → ℕ
      → ℕ
      → Option Error
      → InvocationResult
      → W
      → Result InvocationResult
      → Result InvocationResult × W
  Step can_retry left attempt last_err last_result w (err e) =
      if not can_retry || not (is_retryable_error e)
      then (err e, w)
      else retry_loop execute_once pause can_retry left (suc attempt) (some e) last_result w
  Step can_retry left attempt last_err last_result w (ok result) =
      if is_retryable_status result.status_code
        && can_retry
        && has_more execute_once pause can_retry left
      then retry_loop execute_once pause can_retry left (suc attempt) last_err result w
      else (ok result, w)

  next_step :
      (can_retry : Bool) (left attempt : ℕ) (last_err : Option Error)
      (last_result : InvocationResult) (w : W)
      → (paused execute_once pause can_retry attempt w).0 ≡ none
      → retry_loop execute_once pause can_retry (suc left) attempt last_err last_result w
        ≡ Step can_retry left attempt last_err last_result
            (execute_once (paused execute_once pause can_retry attempt w).1).1
            (execute_once (paused execute_once pause can_retry attempt w).1).0
  unfolding retry_loop
  next_step can_retry left attempt last_err last_result w go' =
      elim (Result-cases (execute_once (paused execute_once pause can_retry attempt w).1).0) [
        | inl (res, e) ↦ rw (go', e, retry_loop) refl
        | inr (why, e) ↦ rw (go', e, retry_loop) refl
      ]

  stopped_step :
      (can_retry : Bool) (left attempt : ℕ) (last_err : Option Error)
      (last_result : InvocationResult) (w : W) (e : Error)
      → (paused execute_once pause can_retry attempt w).0 ≡ some e
      → retry_loop execute_once pause can_retry (suc left) attempt last_err last_result w
        ≡ (err e, (paused execute_once pause can_retry attempt w).1)
  unfolding retry_loop
  stopped_step can_retry left attempt last_err last_result w e stop = rw (stop, retry_loop) refl

  step_once :
      (left attempt : ℕ) (last_err : Option Error) (last_result : InvocationResult) (w : W)
      (r : Result InvocationResult)
      → Step false left attempt last_err last_result w r ≡ (r, w)
  step_once left attempt last_err last_result w (err e) = refl
  step_once left attempt last_err last_result w (ok result) =
      elim (Bool-cases (is_retryable_status result.status_code)) [
        | inl again ↦ rw again refl
        | inr final ↦ rw final refl
      ]

  first_runs : (can_retry : Bool) (w : W) → paused execute_once pause can_retry 0 w ≡ (none, w)
  unfolding paused
  first_runs can_retry w = refl

  first_step :
      (can_retry : Bool) (left : ℕ) (last_err : Option Error) (last_result : InvocationResult)
      (w : W)
      → retry_loop execute_once pause can_retry (suc left) 0 last_err last_result w
        ≡ Step can_retry left 0 last_err last_result (execute_once w).1 (execute_once w).0
  first_step can_retry left last_err last_result w =
      next_step can_retry left 0 last_err last_result w
        (ap (λ (x : Option Error × W). x.0) (first_runs can_retry w))
      ∙ ap
          (λ (x : Option Error × W).
            Step can_retry left 0 last_err last_result (execute_once x.1).1 (execute_once x.1).0)
          (first_runs can_retry w)

  attempts_positive : (cfg : RetryConfig) → (n : ℕ) × (max_attempts_of cfg ≡ suc n)
  attempts_positive cfg = (max_attempts_of cfg - 1, ground arith)

  -- If the method is not idempotent and the service retries idempotent methods only, the request is
  -- sent once and its answer is the result, whatever the configured number of attempts is.
  pub execute_with_retry-once :
      (no_result : InvocationResult) (cfg : RetryConfig) (method : Text) (w : W)
      → is_idempotent_method method ≡ false
      → cfg.idempotent_only ≡ true
      → execute_with_retry execute_once pause no_result cfg method w ≡ execute_once w
  unfolding execute_with_retry
  execute_with_retry-once no_result cfg method w h only =
      let (n, e) = attempts_positive cfg in
      rw (h, only, e)
        (first_step false n none no_result w
          ∙ step_once n 0 none no_result (execute_once w).1 (execute_once w).0)

  envelope_step :
      (can_retry : Bool) (left : ℕ) (no_result : InvocationResult) (w : W) (e : ErrorEnvelope)
      → Step can_retry left 0 none no_result w (err (envelope e)) ≡ (err (envelope e), w)
  unfolding is_retryable_error
  envelope_step true left no_result w e = refl
  envelope_step false left no_result w e = refl

  -- A first request that ends in an error envelope, such as BACKEND_UNAVAILABLE or BACKEND_TIMEOUT,
  -- is not repeated: that error is the result, however many attempts are configured.
  pub execute_with_retry-envelope :
      (no_result : InvocationResult) (cfg : RetryConfig) (method : Text) (w w' : W)
      (e : ErrorEnvelope)
      → execute_once w ≡ (err (envelope e), w')
      → execute_with_retry execute_once pause no_result cfg method w ≡ (err (envelope e), w')
  unfolding execute_with_retry
  execute_with_retry-envelope no_result cfg method w w' e h =
      let (n, more) = attempts_positive cfg in
      rw more (
        first_step (may_retry method cfg) n none no_result w
        ∙ ap
            (λ (x : Result InvocationResult × W).
              Step (may_retry method cfg) n 0 none no_result x.1 x.0)
            h
        ∙ envelope_step (may_retry method cfg) n no_result w' e)

  module _ (sent : W → ℕ) (counts : Counts execute_once pause sent) where
    paused_sent :
        (can_retry : Bool) (attempt : ℕ) (w : W)
        → sent (paused execute_once pause can_retry attempt w).1 ≡ sent w
    unfolding paused
    paused_sent can_retry zero w = refl
    paused_sent can_retry (suc attempt) w = counts.waits (suc attempt) w

    Between : ℕ → W → W → Type 0
    Between left w w' = (sent w ≤ sent w') × (sent w' ≤ sent w + left)

    step_sent :
        (can_retry : Bool) (left attempt : ℕ) (last_err : Option Error)
        (last_result : InvocationResult) (w : W) (r : Result InvocationResult)
        → ((le : Option Error) (lr : InvocationResult)
            → Between left w (retry_loop execute_once pause can_retry left (suc attempt) le lr w).1)
        → Between left w (Step can_retry left attempt last_err last_result w r).1
    unfolding Between
    step_sent can_retry left attempt le lr w (err e) again =
        elim (Bool-cases (not can_retry || not (is_retryable_error e))) [
          | inl final ↦ rw final (omega arith, omega arith)
          | inr more ↦ rw more (again (some e) lr)
        ]
    step_sent can_retry left attempt le lr w (ok result) again =
        elim (Bool-cases (
          is_retryable_status result.status_code
          && can_retry
          && has_more execute_once pause can_retry left)) [
            | inl more ↦ rw more (again le result)
            | inr final ↦ rw final (omega arith, omega arith)
          ]

    retry_loop-sent :
        (can_retry : Bool) (left attempt : ℕ) (last_err : Option Error)
        (last_result : InvocationResult) (w : W)
        → Between left w
            (retry_loop execute_once pause can_retry left attempt last_err last_result w).1
    unfolding Between
    retry_loop-sent can_retry zero attempt le lr w = unfold retry_loop in (omega arith, omega arith)
    retry_loop-sent can_retry (suc left) attempt le lr w =
        elim (Option-cases (paused execute_once pause can_retry attempt w).0) [
          | inl runs ↦
              let w₁ = (paused execute_once pause can_retry attempt w).1 in
              let b =
                step_sent can_retry left attempt le lr (execute_once w₁).1 (execute_once w₁).0
                  (λ e r. retry_loop-sent can_retry left (suc attempt) e r (execute_once w₁).1) in
              let c = counts.once w₁ in
              let d = paused_sent can_retry attempt w in
              rw (next_step can_retry left attempt le lr w runs)
                (omega (arith, b.0, c, d), omega (arith, b.1, c, d))
          | inr (e, stop) ↦
              let d = paused_sent can_retry attempt w in
              rw (stopped_step can_retry left attempt le lr w e stop) (omega arith, omega arith)
        ]

    -- For a count that a request raises by one and a pause does not change: a call with retries
    -- sends the request at least once, and at most as often as configured, one time where less is
    -- configured.
    pub execute_with_retry_bounds :
        (no_result : InvocationResult) (cfg : RetryConfig) (method : Text) (w : W)
        → (sent w < sent (execute_with_retry execute_once pause no_result cfg method w).1)
          × (sent (execute_with_retry execute_once pause no_result cfg method w).1
              ≤ sent w + max_attempts_of cfg)
    unfolding execute_with_retry Between
    execute_with_retry_bounds no_result cfg method w =
        let (n, e) = attempts_positive cfg in
        let can_retry = may_retry method cfg in
        let b =
          step_sent can_retry n 0 none no_result (execute_once w).1 (execute_once w).0
            (λ le lr. retry_loop-sent can_retry n 1 le lr (execute_once w).1) in
        let c = counts.once w in
        rw (e, first_step can_retry n none no_result w)
          (omega (arith, b.0, c), omega (arith, b.1, c))
