-- ===== src/Invoker/Retry/Backoff.antt =====
-- The delay before a retry.
use thesa.Prelude.{ℕ, zero, suc, ◌≡◌, inl, inr, refl, arith, Bool, Bool-cases, if◌then◌else◌}
use thesa.Prelude.Int.{ℤ, ◌≤ℤ◌, ltb_ℤ}
use thesa.Config.{RetryConfig}
use thesa.Invoker.Retry.{or_default, grow, calculate_backoff}

module _ (scale : ℤ → ℕ → ℤ) (positive : ℕ → Bool) (two : ℕ) where
  grow_below :
      (n : ℕ) (delay : ℤ) (multiplier : ℕ) (max : ℤ)
      → delay ≤ℤ max
      → grow scale positive two n delay multiplier max ≤ℤ max
  unfolding grow
  grow_below zero delay multiplier max h = h
  grow_below (suc n) delay multiplier max h =
      elim (Bool-cases (ltb_ℤ max (scale delay multiplier))) [
        | inl above ↦ rw above (omega arith)
        | inr below ↦
            rw below (grow_below n (scale delay multiplier) multiplier max (ground (arith, below)))
      ]

  grow_once :
      (n : ℕ) (delay : ℤ) (multiplier : ℕ) (max : ℤ)
      → grow scale positive two (suc n) delay multiplier max ≤ℤ max
  unfolding grow
  grow_once n delay multiplier max = elim (Bool-cases (ltb_ℤ max (scale delay multiplier))) [
    | inl above ↦ rw above (omega arith)
    | inr below ↦
        rw below (grow_below n (scale delay multiplier) multiplier max (ground (arith, below)))
  ]

  -- From the second retry on the delay is at most the configured maximum (two seconds where none is
  -- configured), whatever the multiplier does; the first retry waits for the initial delay, which
  -- the maximum does not cut.
  pub calculate_backoff_bounds :
      (cfg : RetryConfig) (attempt : ℕ)
      → (calculate_backoff scale positive two cfg (suc (suc attempt))
          ≤ℤ or_default scale positive two cfg.backoff_max 2000000000)
        × (calculate_backoff scale positive two cfg 1
            ≡ or_default scale positive two cfg.backoff_initial 100000000)
  unfolding calculate_backoff grow
  calculate_backoff_bounds cfg attempt = (
    grow_once attempt (or_default scale positive two cfg.backoff_initial 100000000)
        (if positive cfg.backoff_multiplier then cfg.backoff_multiplier else two)
        (or_default scale positive two cfg.backoff_max 2000000000),
    refl,
  )
