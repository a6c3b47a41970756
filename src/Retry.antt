-- ===== src/Retry.antt =====
-- Retries with exponential backoff: predsx/libs/retry-utils/retry.go.
-- The function that is retried is its outcome at each attempt, `none` for a nil error. The context
-- is asked after each failed attempt but the last: `cancelled n` says that its `Done` wins the
-- `select` of attempt `n`. Durations are nanoseconds. The float64 product with `Multiplier` is the
-- function `scale`.
pub mod Attempts
mod Tests
use pred_sx.Base.{
  ℕ, zero, suc, ◌+◌, ◌*◌, Bool, true, false, Option, none, some, List, [], ◌∷◌, ltb, ◌==◌,
  if◌then◌else◌,
}

pub record Options : Type 0 where
  pub max_attempts : ℕ
  pub initial_interval : ℕ
  pub max_interval : ℕ
  pub scale : ℕ → ℕ

abbrev pub millisecond : ℕ
millisecond = 1_000_000

pub default_options : Options
default_options = record {
  max_attempts = 3;
  initial_interval = 500 * millisecond;
  max_interval = 5_000 * millisecond;
  scale = λ interval. interval * 2;
}

pub data Verdict (E : Type 0) : Type 0 where
  ok cancelled : Verdict E
  failed : E → Verdict E

-- What `Do` returned, how often it called the function, and how long it waited in between.
pub record Outcome (E : Type 0) : Type 0 where
  pub verdict : Verdict E
  pub calls : ℕ
  pub waits : List ℕ

module _ (opts : Options) where
  -- The interval after `interval`.
  unfoldable pub next_interval : ℕ → ℕ
  next_interval interval =
      if ltb opts.max_interval (opts.scale interval) then opts.max_interval else opts.scale interval

  module _ {E : Type 0} (fn : ℕ → Option E) (done : ℕ → Bool) where
    -- The loop with `left` attempts to go, at attempt number `attempt`.
    unfoldable pub attempts : (left attempt interval : ℕ) → Outcome E
    unfolding next_interval
    attempts zero attempt interval = record { verdict = Verdict.ok; calls = 0; waits = [] }
    attempts (suc left) attempt interval =
        let rest = attempts left (attempt + 1) (next_interval interval) in
        elim (fn attempt) [
          | none ↦ record { verdict = Verdict.ok; calls = 1; waits = [] }
          | some e ↦
              if left == 0
              then record { verdict = Verdict.failed e; calls = 1; waits = [] }
              else if done attempt
              then record { verdict = Verdict.cancelled; calls = 1; waits = [] }
              else record rest { calls = rest.calls + 1; waits = interval ∷ rest.waits }
        ]

    -- `Do`
    unfoldable pub retry : Outcome E
    unfolding attempts
    retry = attempts opts.max_attempts 1 opts.initial_interval
