-- ===== src/Discovery/Cycle.antt =====
-- A cycle of predsx/services/discovery/main.go: `runBoth` of `main`. The two crawls run at once, so
-- what they do is one list of effects in which each has its own in order.
pub mod Effects
pub mod Market
pub mod Resolved
use pred_sx.Base.{List, [], ◌∷◌}
use pred_sx.Discovery.{Effect, Verdict}

pub data Interleaved {A : Type 0} : List A → List A → List A → Type 0 where
  neither : Interleaved [] [] []
  left : (x : A) {xs ys zs : List A} → Interleaved xs ys zs → Interleaved (x ∷ xs) ys (x ∷ zs)
  right : (y : A) {xs ys zs : List A} → Interleaved xs ys zs → Interleaved xs (y ∷ ys) (y ∷ zs)

-- `runBoth`: the effects, whether or not a crawl ends with an error, which is logged.
abbrev pub RunBoth : List Effect × Verdict → List Effect × Verdict → List Effect → Type 0
RunBoth (markets, verdict) (events, verdict') effects = Interleaved markets events effects
