-- ===== src/Rotator/Tests.antt =====
-- A pool of three endpoints, and the theorem about `pick` at it.
use pred_sx.Base.{ℕ, ◌<◌, ◌≡◌, arith, refl, some, List, [], ◌∷◌, String, if◌then◌else◌, str_eq}
use pred_sx.Base.Dict.{Dict}
use pred_sx.Rotator.{RpcRotator, new_rpc_rotator, pick, bench}
use pred_sx.Rotator.Pick.{Picked, pick-Picked}

abbrev pool : RpcRotator
pool = bench 100 "a" 120 (new_rpc_rotator ("a" ∷ "b" ∷ "c" ∷ []))

pick-pool : pick 150 pool ≡ some ("b", record pool { idx = 2 })
unfolding pick bench new_rpc_rotator pred_sx.Base.Dict.lookup pred_sx.Base.Dict.insert
pick-pool = refl

pick-Picked_example :
    (u : String) × (r' : RpcRotator) × (pick 150 pool ≡ some (u, r')) × Picked 150 pool u r'
unfolding bench new_rpc_rotator
pick-Picked_example = pick-Picked 150 pool (record { within = omega arith })
