-- ===== src/Retry/Tests.antt =====
-- Runs of `Do`, and the theorems about it at concrete inputs.
use pred_sx.Base.{
  ℕ, ◌*◌, ◌≤◌, ◌≡◌, refl, Bool, false, Option, none, some, [], ◌∷◌, arith, ltb, ◌==◌, if◌then◌else◌,
  length, All,
}
use pred_sx.Retry.{Options, Verdict, millisecond, default_options, retry, next_interval}
use pred_sx.Retry.Attempts.{backoff, retry-success, retry_bounds, retry-no_attempts}

-- A function that fails with the number of the attempt until attempt `n`.
abbrev succeeds_at : ℕ → ℕ → Option ℕ
succeeds_at n attempt = if ltb attempt n then some attempt else none

abbrev open_context : ℕ → Bool
open_context attempt = false

abbrev closes_at : ℕ → ℕ → Bool
closes_at n attempt = attempt == n

retry-success_example : retry default_options (succeeds_at 3) open_context ≡ record {
  verdict = Verdict.ok;
  calls = 3;
  waits = (500 * millisecond) ∷ (1_000 * millisecond) ∷ [];
}
unfolding default_options backoff next_interval
retry-success_example =
    retry-success default_options (succeeds_at 3) open_context 2
      ((1, refl), refl, ((2, refl), refl, tt)) refl (omega arith)

retry_bounds_example :
    ((retry default_options (succeeds_at 9) open_context).calls ≤ 3)
    × (length (retry default_options (succeeds_at 9) open_context).waits
        ≤ (retry default_options (succeeds_at 9) open_context).calls)
    × All (λ w. w ≤ 5_000 * millisecond) (retry default_options (succeeds_at 9) open_context).waits
unfolding default_options
retry_bounds_example = retry_bounds default_options (succeeds_at 9) open_context (omega arith)

abbrev no_attempts : Options
no_attempts = record { max_attempts = 0; initial_interval = 1; max_interval = 1; scale = λ i. i }

retry-no_attempts_example :
    retry no_attempts (succeeds_at 9) open_context
    ≡ record { verdict = Verdict.ok; calls = 0; waits = [] }
retry-no_attempts_example = retry-no_attempts no_attempts (succeeds_at 9) open_context refl
