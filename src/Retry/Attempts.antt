-- ===== src/Retry/Attempts.antt =====
-- What `Do` returns, how often it calls its function and how long it waits.
use native.Mathlib.Nat.{add-zero}
use pred_sx.Base.{
  ℕ, zero, suc, ◌+◌, ◌≤◌, ◌<◌, ◌≡◌, refl, ap, Bool, true, false, Option, none, some, List, [], ◌∷◌,
  arith, length, All,
}
use pred_sx.Retry.{Options, default_options, Verdict, Outcome, next_interval, attempts, retry}

pub default_options-attempts : default_options.max_attempts ≡ 3
unfolding default_options
default_options-attempts = refl

module _ (opts : Options) where
  -- The first `n` intervals of the backoff.
  unfoldable pub backoff : ℕ → ℕ → List ℕ
  backoff zero interval = []
  backoff (suc n) interval = interval ∷ backoff n (next_interval opts interval)

  module _ {E : Type 0} (fn : ℕ → Option E) (done : ℕ → Bool) where
    -- Attempts `attempt` to `attempt + n - 1` fail and the context stays open after each.
    abbrev pub FailsFor : ℕ → ℕ → Type 0
    FailsFor zero attempt = Unit
    FailsFor (suc n) attempt =
        ((e : E) × (fn attempt ≡ some e)) × (done attempt ≡ false) × FailsFor n (attempt + 1)

    add-suc_left : (a n : ℕ) → a + 1 + n ≡ a + suc n
    add-suc_left a n = omega arith

    attempts-success :
        (n left attempt interval : ℕ)
        → FailsFor n attempt
        → fn (attempt + n) ≡ none
        → n < left
        → attempts opts fn done left attempt interval
          ≡ record { verdict = Verdict.ok; calls = n + 1; waits = backoff n interval }
    unfolding attempts backoff
    attempts-success n zero attempt interval fails hit lt = elim lt [ ]
    attempts-success zero (suc left) attempt interval fails hit lt =
        ground (arith, ap fn (add-zero attempt))
    attempts-success (suc n) (suc left) attempt interval fails hit lt = ground (
      arith,
      fails.0.1,
      ap fn (add-suc_left attempt n),
      attempts-success n left (attempt + 1) (next_interval opts interval) fails.2,
    )

    attempts-failed :
        (n attempt interval : ℕ) (e : E)
        → FailsFor n attempt
        → fn (attempt + n) ≡ some e
        → attempts opts fn done (suc n) attempt interval
          ≡ record { verdict = Verdict.failed e; calls = n + 1; waits = backoff n interval }
    unfolding attempts backoff
    attempts-failed zero attempt interval e fails last = ground (arith, ap fn (add-zero attempt))
    attempts-failed (suc n) attempt interval e fails last = ground (
      arith,
      fails.0.1,
      ap fn (add-suc_left attempt n),
      attempts-failed n (attempt + 1) (next_interval opts interval) e fails.2,
    )

    attempts-cancelled :
        (n left attempt interval : ℕ) (e : E)
        → FailsFor n attempt
        → fn (attempt + n) ≡ some e
        → done (attempt + n) ≡ true
        → n + 1 < left
        → attempts opts fn done left attempt interval
          ≡ record { verdict = Verdict.cancelled; calls = n + 1; waits = backoff n interval }
    unfolding attempts backoff
    attempts-cancelled n zero attempt interval e fails last stop lt = absurd (omega arith)
    attempts-cancelled zero (suc left) attempt interval e fails last stop lt =
        ground (arith, ap fn (add-zero attempt), ap done (add-zero attempt))
    attempts-cancelled (suc n) (suc left) attempt interval e fails last stop lt = ground (
      arith,
      fails.0.1,
      ap fn (add-suc_left attempt n),
      ap done (add-suc_left attempt n),
      attempts-cancelled n left (attempt + 1) (next_interval opts interval) e fails.2,
    )

    abbrev Bounded : ℕ → Outcome E → Type 0
    Bounded left o =
        (o.calls ≤ left) × (length o.waits ≤ o.calls) × All (λ w. w ≤ opts.max_interval) o.waits

    next_interval-le : (interval : ℕ) → next_interval opts interval ≤ opts.max_interval
    unfolding next_interval
    next_interval-le interval = ground arith

    attempts-Bounded :
        (left attempt interval : ℕ)
        → interval ≤ opts.max_interval
        → Bounded left (attempts opts fn done left attempt interval)
    unfolding attempts
    attempts-Bounded zero attempt interval h = (omega arith, omega arith, tt)
    attempts-Bounded (suc left) attempt interval h = ground (
      arith,
      attempts-Bounded left (attempt + 1) (next_interval opts interval) (next_interval-le interval),
    )

    -- If the first `n` attempts fail with the context open and the next one succeeds, within the
    -- allowed number of attempts, `Do` returns nil after `n + 1` calls, having waited the first
    -- `n` intervals of the backoff.
    pub retry-success :
        (n : ℕ)
        → FailsFor n 1
        → fn (1 + n) ≡ none
        → n < opts.max_attempts
        → retry opts fn done
          ≡ record { verdict = Verdict.ok; calls = n + 1; waits = backoff n opts.initial_interval }
    unfolding retry
    retry-success n fails hit lt =
        attempts-success n opts.max_attempts 1 opts.initial_interval fails hit lt

    -- If every allowed attempt fails and the context stays open, `Do` returns the error of the
    -- last attempt, after exactly the allowed number of calls.
    pub retry-failed :
        (n : ℕ) (e : E)
        → opts.max_attempts ≡ n + 1
        → FailsFor n 1
        → fn (1 + n) ≡ some e
        → retry opts fn done ≡ record {
          verdict = Verdict.failed e;
          calls = n + 1;
          waits = backoff n opts.initial_interval;
        }
    unfolding retry
    retry-failed n e h fails last =
        let h' : opts.max_attempts ≡ suc n = omega arith in
        simp h' (attempts-failed n 1 opts.initial_interval e fails last)

    -- If the context is cancelled in the wait after the failed attempt `n + 1`, and attempts are
    -- left, `Do` makes no further call and returns the context's error.
    pub retry-cancelled :
        (n : ℕ) (e : E)
        → FailsFor n 1
        → fn (1 + n) ≡ some e
        → done (1 + n) ≡ true
        → n + 1 < opts.max_attempts
        → retry opts fn done ≡ record {
          verdict = Verdict.cancelled;
          calls = n + 1;
          waits = backoff n opts.initial_interval;
        }
    unfolding retry
    retry-cancelled n e fails last stop lt =
        attempts-cancelled n opts.max_attempts 1 opts.initial_interval e fails last stop lt

    -- Whatever the function and the context do, `Do` makes at most the allowed number of calls,
    -- and waits at most once for each call and never longer than the maximal interval, where the
    -- first interval is no longer than that.
    pub retry_bounds :
        opts.initial_interval ≤ opts.max_interval
        → ((retry opts fn done).calls ≤ opts.max_attempts)
          × (length (retry opts fn done).waits ≤ (retry opts fn done).calls)
          × All (λ w. w ≤ opts.max_interval) (retry opts fn done).waits
    unfolding retry
    retry_bounds h = attempts-Bounded opts.max_attempts 1 opts.initial_interval h

    -- With no attempt allowed, `Do` returns nil although it never called the function.
    pub retry-no_attempts :
        opts.max_attempts ≡ 0
        → retry opts fn done ≡ record { verdict = Verdict.ok; calls = 0; waits = [] }
    unfolding retry attempts
    retry-no_attempts h = ground arith
