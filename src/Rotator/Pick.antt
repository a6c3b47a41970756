-- ===== src/Rotator/Pick.antt =====
-- Which endpoint `pick` returns.
use native.Mathlib.Nat.{mod-lt, mod-eq_of_lt, mod-add-mod, add-mod, mod_self}
use pred_sx.Base.{
  ℕ, zero, suc, ◌+◌, ◌%◌, ◌<◌, ◌≡◌, refl, sym, ap, ◌∙◌, subst, ◌⊎◌, true, false, inl, inr, none,
  some, String, arith, length, get_elem?, get_elem?-some, Bool-cases,
}
use pred_sx.Rotator.{RpcRotator, is_available, advance, pick_loop, pick_result, pick}

-- The rotator after `n` rounds, and the endpoint in line.
pub after : ℕ → RpcRotator → RpcRotator
unfolding advance
after zero r = r
after (suc n) r = after n (advance r)

abbrev pub InLine : RpcRotator → String → Type 0
InLine r u = get_elem? r.urls r.idx ≡ some u

-- The endpoints in line in the first `n` rounds are all benched.
abbrev pub Benched : ℕ → ℕ → RpcRotator → Type 0
Benched now zero r = Unit
Benched now (suc n) r =
    ((u : String) × InLine r u × (is_available now r.benched u ≡ false)) × Benched now n (advance r)

-- Either round `n` came first upon an endpoint that is not benched, or all are and the turn is
-- where it was.
pub data Picked (now : ℕ) (r : RpcRotator) (u : String) (r' : RpcRotator) : Type 0 where
  healthy :
      (n : ℕ)
      → n < length r.urls
      → Benched now n r
      → InLine (after n r) u
      → is_available now r.benched u ≡ true
      → r' ≡ after (suc n) r
      → Picked now r u r'
  exhausted : Benched now (length r.urls) r → InLine r u → r' ≡ r → Picked now r u r'

-- A pool with a turn in it.
pub record IsPool (r : RpcRotator) : Type 0 where
  pub within : r.idx < length r.urls

advance-IsPool : (r : RpcRotator) → IsPool r → IsPool (advance r)
unfolding advance
advance-IsPool r p = record { within = mod-lt (r.idx + 1) (omega arith) }

next : (n i : ℕ) → (i + 1) + n ≡ i + suc n
next n i = omega arith

turn : RpcRotator → ℕ → RpcRotator
turn r i = record r { idx = i % length r.urls }

plus_zero : (n : ℕ) → n + 0 ≡ n
plus_zero n = omega arith

zero_turn : (r : RpcRotator) → IsPool r → (r.idx + 0) % length r.urls ≡ r.idx
zero_turn r p = ap (λ i. i % length r.urls) (plus_zero r.idx) ∙ mod-eq_of_lt p.within

after_lem : (n : ℕ) (r : RpcRotator) → IsPool r → after n r ≡ turn r (r.idx + n)
unfolding after advance turn
after_lem zero r p = ap (λ i. record r { idx = i }) (sym (zero_turn r p))
after_lem (suc n) r p =
    after_lem n (advance r) (advance-IsPool r p)
    ∙ ap (λ i. record r { idx = i }) (mod-add-mod (r.idx + 1) (length r.urls) n)
    ∙ ap (turn r) (next n r.idx)

mod-add_self : (i m : ℕ) → i < m → (i + m) % m ≡ i
mod-add_self i m h =
    add-mod i m m
    ∙ ap (λ k. (i % m + k) % m) (mod_self m)
    ∙ ap (λ k. k % m) (plus_zero (i % m))
    ∙ ap (λ k. k % m) (mod-eq_of_lt h)
    ∙ mod-eq_of_lt h

-- After as many rounds as the pool has endpoints, the turn is where it was.
after-length : (r : RpcRotator) → IsPool r → after (length r.urls) r ≡ r
unfolding turn
after-length r p =
    after_lem (length r.urls) r p
    ∙ ap (λ i. record r { idx = i }) (mod-add_self r.idx (length r.urls) p.within)

data Looped (now rounds : ℕ) (r : RpcRotator) : Type 0 where
  found :
      (n : ℕ) (u : String)
      → n < rounds
      → Benched now n r
      → InLine (after n r) u
      → is_available now r.benched u ≡ true
      → pick_loop rounds now r ≡ some (some u, after (suc n) r)
      → Looped now rounds r
  all_benched :
      Benched now rounds r
      → pick_loop rounds now r ≡ some (none, after rounds r)
      → Looped now rounds r

in_line : (r : RpcRotator) → IsPool r → (u : String) × InLine r u
in_line r p = get_elem?-some r.urls r.idx p.within

later :
    {now rounds : ℕ} {r : RpcRotator} {u : String}
    → InLine r u
    → is_available now r.benched u ≡ false
    → Looped now rounds (advance r)
    → Looped now (suc rounds) r
unfolding after pick_loop advance
later {now} {rounds} {r} {u} at closed (found n v lt past at' free eq) =
    found (suc n) v (omega arith) ((u, at, closed), past) at' free (rw (pick_loop, at, closed) eq)
later {now} {rounds} {r} {u} at closed (all_benched past eq) =
    all_benched ((u, at, closed), past) (rw (pick_loop, at, closed) eq)

pick_loop-Looped : (now rounds : ℕ) (r : RpcRotator) → IsPool r → Looped now rounds r
unfolding after pick_loop
pick_loop-Looped now zero r p = all_benched tt refl
pick_loop-Looped now (suc rounds) r p =
    let (u, at) = in_line r p in
    let rest = pick_loop-Looped now rounds (advance r) (advance-IsPool r p) in
    elim (Bool-cases (is_available now r.benched u)) [
      | inl free ↦ found 0 u (omega arith) tt at free (rw (pick_loop, at, free) refl)
      | inr closed ↦ later at closed rest
    ]

-- `pick` of a pool that is not empty returns an endpoint, and it returns the first one in line,
-- starting from the turn, that is not benched; then it is the turn of the endpoint after it. When
-- every endpoint is benched, it returns the one whose turn it is, and the pool is as before.
pub pick-Picked :
    (now : ℕ) (r : RpcRotator)
    → IsPool r
    → (u : String) × (r' : RpcRotator) × (pick now r ≡ some (u, r')) × Picked now r u r'
unfolding pick pick_result
pick-Picked now r p = elim (pick_loop-Looped now (length r.urls) r p) [
  | found n u lt past at free eq ↦ (u, after (suc n) r, rw eq refl, healthy n lt past at free refl)
  | all_benched past eq ↦
      let (u, at) = in_line r p in
      let back = eq ∙ ap (λ q. some (none, q)) (after-length r p) in
      let out : pick_result (some (none, r)) ≡ some (u, r) = simp (pick_result, at) in
      (u, r, ap pick_result back ∙ out, exhausted past at refl)
]

after-IsPool : (n : ℕ) (r : RpcRotator) → IsPool r → IsPool (after n r)
unfolding after
after-IsPool zero r p = p
after-IsPool (suc n) r p = after-IsPool n (advance r) (advance-IsPool r p)

pub Picked-IsPool :
    (now : ℕ) (r r' : RpcRotator) (u : String) → IsPool r → Picked now r u r' → IsPool r'
Picked-IsPool now r r' u p (healthy n lt past at free same) =
    subst IsPool (sym same) (after-IsPool (suc n) r p)
Picked-IsPool now r r' u p (exhausted past at same) = subst IsPool (sym same) p

-- An endpoint that is picked is not benched, or all are.
pub Picked-available :
    (now : ℕ) (r r' : RpcRotator) (u : String)
    → Picked now r u r'
    → (is_available now r.benched u ≡ true) ⊎ Benched now (length r.urls) r
Picked-available now r r' u (healthy n lt past at free same) = inl free
Picked-available now r r' u (exhausted past at same) = inr past
