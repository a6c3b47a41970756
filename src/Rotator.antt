-- ===== src/Rotator.antt =====
-- The pool of RPC endpoints: `rpcRotator` of predsx/services/ingestion/main.go.
-- `none` is a panic of the Go runtime: an index out of range in an empty pool. The clock is an
-- argument; the mutex makes each call one step.
pub mod Pick
pub mod Pool
mod Tests
use pred_sx.Base.{
  ℕ, zero, suc, ◌+◌, ◌%◌, Bool, true, false, Option, none, some, List, [], ◌∷◌, String,
  if◌then◌else◌, ltb, length, get_elem?,
}
use pred_sx.Base.Dict.{Dict, lookup, insert}

pub record RpcRotator : Type 0 where
  pub urls : List String
  pub idx : ℕ
  pub benched : Dict ℕ

pub new_rpc_rotator : List String → RpcRotator
new_rpc_rotator urls = record { urls = urls; idx = 0; benched = [] }

-- `until, ok := r.benched[u]; !ok || now.After(until)`
unfoldable pub is_available : ℕ → Dict ℕ → String → Bool
is_available now benched u = elim (lookup u benched) [ none ↦ true | some until ↦ ltb until now ]

-- `r.idx = (r.idx + 1) % len(r.urls)`
pub advance : RpcRotator → RpcRotator
advance r = record r { idx = (r.idx + 1) % length r.urls }

-- The loop of `pick` with some rounds to go: the endpoint it returns, if it returns one.
pub pick_loop : ℕ → ℕ → RpcRotator → Option (Option String × RpcRotator)
unfolding advance is_available
pick_loop zero now r = some (none, r)
pick_loop (suc rounds) now r =
    let rest = pick_loop rounds now (advance r) in
    elim (get_elem? r.urls r.idx) [
      | none ↦ none
      | some u ↦ if is_available now r.benched u then some (some u, advance r) else rest
    ]

-- `pick`: the endpoint that the loop found, or the next one in line.
pub pick_result : Option (Option String × RpcRotator) → Option (String × RpcRotator)
pick_result none = none
pick_result (some (some u, r)) = some (u, r)
pick_result (some (none, r)) = elim (get_elem? r.urls r.idx) [ none ↦ none | some u ↦ some (u, r) ]

pub pick : ℕ → RpcRotator → Option (String × RpcRotator)
unfolding pick_loop pick_result
pick now r = pick_result (pick_loop (length r.urls) now r)

unfoldable pub bench : ℕ → String → ℕ → RpcRotator → RpcRotator
bench now url cooldown r = record r { benched = insert url (now + cooldown) r.benched }
