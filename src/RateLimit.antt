-- ===== src/RateLimit.antt =====
-- `RateLimit` of predsx/services/api/middleware/ratelimit.go, for a request whose client address is
-- known. Redis is a parameter: a state with `Incr`, which answers `none` for an error, and `Expire`.
pub mod Window
pub mod Client
mod Tests
use Prim.Native.Nat.{min}
use pred_sx.Base.{
  ℕ, zero, suc, ◌-◌, Bool, true, false, Option, none, some, List, [], ◌∷◌, String, if◌then◌else◌,
  ltb, ◌==◌, append_text,
}

abbrev pub default_rpm : ℕ
default_rpm = 60

-- `rl:%s`
pub limit_key : String → String
limit_key ip = append_text "rl:" ip

-- What becomes of a request: passed on without headers, or with the number in
-- X-RateLimit-Remaining, or refused.
pub data Answer : Type 0 where
  failed_open : Answer
  passed : ℕ → Answer
  refused : Answer

pub on_count : Option ℕ → Answer
on_count none = failed_open
on_count (some count) = if ltb default_rpm count then refused else passed (default_rpm - count)

module _ {R : Type 0} (incr : String → R → Option ℕ × R) (expire : String → R → R) where
  pub rate_limit : String → R → Answer × R
  unfolding limit_key on_count
  rate_limit ip r =
      let (count, r') = incr (limit_key ip) r in
      (
        on_count count,
        elim count [ none ↦ r' | some n ↦ if n == 1 then expire (limit_key ip) r' else r' ],
      )

  -- The answers to requests, one after another.
  pub rate_limits : List String → R → List (String × Answer)
  unfolding rate_limit
  rate_limits [] r = []
  rate_limits (ip ∷ ips) r =
      let (answer, r') = rate_limit ip r in (limit_key ip, answer) ∷ rate_limits ips r'
