-- ===== src/Stream/Manager.antt =====
-- The writes of the goroutines of `startStreamComponent` of predsx/services/ingestion/main.go to the
-- connections of the workers: that of the manager, by `AddToken`, and those of each worker.
-- gorilla/websocket allows one writer at a time: a write that meets another one panics. `none` is
-- the panic.
use pred_sx.Base.{
  ℕ, zero, suc, Bool, true, false, not, ◌&&◌, Option, none, some, List, [], ◌∷◌, String, length,
  if◌then◌else◌,
}
use pred_sx.Event.{TokenExtracted}
use pred_sx.Stream.{
  StreamWorker, has_token, add_token, send_initial, set_client, clear_subscribed, write_ping,
  get_worker_id,
}

-- How a write goes: whether it meets another one, and whether it succeeds.
pub record Write : Type 0 where
  pub collides : Bool
  pub ok : Bool

abbrev is_some : {A : Type 0} → Option A → Bool
is_some none = false
is_some (some x) = true

-- What the goroutines of a worker do: the assignments of `connect`, its first subscription, and
-- the PING of the ticker, which does not take the lock.
pub data Work : Type 0 where
  connecting clearing : Work
  subscribing pinging : Write → Work

-- A write to a connection, where there is one, and what it leaves.
unfoldable pub guarded : Bool → Write → StreamWorker → Option StreamWorker
guarded is_written write w = if is_written && write.collides then none else some w

module _ (visit : List String → List String) where
  -- `AddToken` writes for a token that is new, where there is a connection.
  unfoldable pub add_token_to : String → Write → StreamWorker → Option StreamWorker
  unfolding guarded add_token has_token
  add_token_to token write w =
      guarded (not (has_token token w.tokens) && is_some w.client) write
        (add_token visit token write.ok w)

  unfoldable pub work_of : Work → StreamWorker → Option StreamWorker
  unfolding guarded send_initial set_client clear_subscribed write_ping
  work_of connecting w = some (set_client w)
  work_of clearing w = some (clear_subscribed w)
  work_of (subscribing write) w = guarded (is_some w.client) write (send_initial visit write.ok w)
  work_of (pinging write) w = guarded (is_some w.client) write (write_ping write.ok w)

  -- What the goroutines of worker `id` do, if there is one.
  unfoldable pub work_at : ℕ → Work → List StreamWorker → Option (List StreamWorker)
  unfolding work_of
  work_at id work [] = some []
  work_at zero work (w ∷ ws) = elim (work_of work w) [ none ↦ none | some w' ↦ some (w' ∷ ws) ]
  work_at (suc id) work (w ∷ ws) = elim (work_at id work ws) [
    | none ↦ none
    | some ws' ↦ some (w ∷ ws')
  ]

  unfoldable pub work_all : List (ℕ × Work) → List StreamWorker → Option (List StreamWorker)
  unfolding work_at
  work_all [] ws = some ws
  work_all ((id, work) ∷ works) ws = elim (work_at id work ws) [
    | none ↦ none
    | some ws' ↦ work_all works ws'
  ]

  -- `m.workers[id].AddToken(token)`
  unfoldable pub add_at : String → Write → ℕ → List StreamWorker → Option (List StreamWorker)
  unfolding add_token_to
  add_at token write id [] = none
  add_at token write zero (w ∷ ws) = elim (add_token_to token write w) [
    | none ↦ none
    | some w' ↦ some (w' ∷ ws)
  ]
  add_at token write (suc id) (w ∷ ws) = elim (add_at token write id ws) [
    | none ↦ none
    | some ws' ↦ some (w ∷ ws')
  ]

-- A message that the manager's loop fetches, with the writes for its tokens and with what the
-- workers do between the two.
pub record TokenMessage : Type 0 where
  pub event : TokenExtracted
  pub first : Write
  pub between : List (ℕ × Work)
  pub second : Write

-- The body of the manager's loop, for a message.
unfoldable pub on_token :
    (List String → List String)
    → (String → ℕ)
    → TokenMessage
    → List StreamWorker
    → Option (List StreamWorker)
unfolding get_worker_id add_at work_all
on_token visit sum32 m ws = elim (get_worker_id sum32 (length ws) m.event.token_yes) [
  | none ↦ none
  | some id ↦ elim (add_at visit m.event.token_yes m.first id ws) [
    | none ↦ none
    | some ws1 ↦ elim (work_all visit m.between ws1) [
      | none ↦ none
      | some ws2 ↦ add_at visit m.event.token_no m.second id ws2
    ]
  ]
]
