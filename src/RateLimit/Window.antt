-- ===== src/RateLimit/Window.antt =====
-- How many requests of a client pass in one window.
use Prim.Native.Nat.{min}
use pred_sx.Base.{
  ℕ, suc, ◌-◌, ◌≡◌, refl, Bool, true, false, Option, some, List, [], ◌∷◌, String, arith,
  if◌then◌else◌, ltb, str_eq, eq_iff, Bool-cases, inl, inr, ap, ◌∙◌,
}
use pred_sx.RateLimit.{
  default_rpm, limit_key, Answer, failed_open, passed, refused, on_count, rate_limit, rate_limits,
}

module _ {R : Type 0} (incr : String → R → Option ℕ × R) (expire : String → R → R)
    (value : String → R → ℕ) where
  -- Redis within a window: `Incr` counts each key on its own, and `Expire` leaves the counts.
  pub record IsCounter : Type 0 where
    pub answer : (k : String) (r : R) → (incr k r).0 ≡ some (suc (value k r))
    pub counted :
        (j k : String) (r : R)
        → value j (incr k r).1 ≡ (if str_eq k j then suc (value j r) else value j r)
    pub kept : (j k : String) (r : R) → value j (expire k r) ≡ value j r

  value-rate_limit :
      (k ip : String) (r : R)
      → IsCounter
      → value k (rate_limit incr expire ip r).1
        ≡ (if str_eq (limit_key ip) k then suc (value k r) else value k r)
  unfolding rate_limit
  value-rate_limit k ip r law =
      let key = limit_key ip in
      ground (arith, law.answer key r, law.counted k key r, law.kept k key (incr key r).1)

  answer-rate_limit :
      (ip : String) (r : R)
      → IsCounter
      → (rate_limit incr expire ip r).0 ≡ on_count (some (suc (value (limit_key ip) r)))
  unfolding rate_limit
  answer-rate_limit ip r law = rw (law.answer (limit_key ip) r) refl

pub is_passed : Answer → Bool
is_passed failed_open = true
is_passed (passed n) = true
is_passed refused = false

-- The requests with a key, and those of them that pass.
unfoldable pub asked : String → List String → ℕ
asked k [] = 0
asked k (ip ∷ ips) = let rest = asked k ips in if str_eq (limit_key ip) k then suc rest else rest

pub passes : String → List (String × Answer) → ℕ
passes k [] = 0
passes k ((key, answer) ∷ answers) =
    let rest = passes k answers in
    if str_eq key k then (if is_passed answer then suc rest else rest) else rest

step :
    (b : Bool) (rest v n : ℕ)
    → b ≡ ltb v default_rpm
    → rest ≡ min (default_rpm - suc v) n
    → (if b then suc rest else rest) ≡ min (default_rpm - v) (suc n)
step true rest v n under eq = grind arith
step false rest v n over eq = grind arith

on_count-passed : (n : ℕ) → is_passed (on_count (some (suc n))) ≡ ltb n default_rpm
unfolding is_passed on_count
on_count-passed n = elim (Bool-cases (ltb default_rpm (suc n))) [
  | inl over ↦ rw over (grind arith)
  | inr under ↦ rw under (grind arith)
]

module _ {R : Type 0} (incr : String → R → Option ℕ × R) (expire : String → R → R)
    (value : String → R → ℕ) where
  -- In one window of a Redis that answers, with the requests of any clients in any order: of the
  -- requests that have a client's key, 60 less those counted before pass, or all if they are
  -- fewer; the others are refused.
  pub passes-rate_limits :
      (k : String) (ips : List String) (r : R)
      → IsCounter incr expire value
      → passes k (rate_limits incr expire ips r) ≡ min (default_rpm - value k r) (asked k ips)
  unfolding passes rate_limits asked
  passes-rate_limits k [] r law = omega arith
  passes-rate_limits k (ip ∷ ips) r law =
      let key = limit_key ip in
      let later = passes-rate_limits k ips (rate_limit incr expire ip r).1 law in
      let count = value-rate_limit incr expire value k ip r law in
      let answer = ap is_passed (answer-rate_limit incr expire value ip r law) in
      elim (Bool-cases (str_eq key k)) [
        | inr other ↦
            let v = count ∙ ap (λ b. if b then suc (value k r) else value k r) other in
            rw other (later ∙ ap (λ n. min (default_rpm - n) (asked k ips)) v)
        | inl same ↦
            let v = count ∙ ap (λ b. if b then suc (value k r) else value k r) same in
            let at = ap (λ j. ltb (value j r) default_rpm) ((eq_iff key k).0 same) in
            rw same (
              step (is_passed (rate_limit incr expire ip r).0) _ (value k r) (asked k ips)
                (answer ∙ on_count-passed (value key r) ∙ at)
                (later ∙ ap (λ n. min (default_rpm - n) (asked k ips)) v))
      ]
