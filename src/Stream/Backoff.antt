-- ===== src/Stream/Backoff.antt =====
-- How long a worker waits before it connects again.
use Prim.Native.Nat.{min}
use native.Mathlib.Nat.{pow-suc}
use pred_sx.Base.{ℕ, suc, ◌*◌, ◌^◌, ◌≡◌, refl, ap, ◌∙◌, Bool, true, false, List, [], ◌∷◌, arith}
use pred_sx.Stream.{second, max_backoff, next_backoff, backoff_after}

-- The failures since the last connection that succeeded, `n` before the first result.
pub failures : ℕ → List Bool → ℕ
failures n [] = n
failures n (true ∷ results) = failures 0 results
failures n (false ∷ results) = failures (suc n) results

abbrev pub doubled : ℕ → ℕ
doubled n = min (second * 2 ^ n) max_backoff

next_backoff-doubled : (n : ℕ) → next_backoff (doubled n) ≡ doubled (suc n)
unfolding next_backoff
next_backoff-doubled n = omega (arith, pow-suc 2 n)

backoff_after-from :
    (n : ℕ) (results : List Bool) → backoff_after (doubled n) results ≡ doubled (failures n results)
unfolding backoff_after failures
backoff_after-from n [] = refl
backoff_after-from n (true ∷ results) = backoff_after-from 0 results
backoff_after-from n (false ∷ results) =
    ap (λ b. backoff_after b results) (next_backoff-doubled n) ∙ backoff_after-from (suc n) results

-- Whatever the results of its connections so far, the backoff of a worker is one second, doubled
-- for each failure since the last success, and at most 60 seconds.
pub backoff_after-doubled :
    (results : List Bool)
    → backoff_after second results ≡ min (second * 2 ^ failures 0 results) max_backoff
backoff_after-doubled results = backoff_after-from 0 results
