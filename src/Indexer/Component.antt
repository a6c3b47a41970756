-- ===== src/Indexer/Component.antt =====
-- `startIndexerComponent` with the two ways that `runIndexerCycle` gets its logs
-- (predsx/services/ingestion/main.go). What happens to an endpoint while it is in use is an attempt.
pub mod Rotates
use pred_sx.Base.{
  ℕ, ◌+◌, ◌*◌, Bool, true, false, not, Option, none, some, List, [], ◌∷◌, ◌++◌, String,
  if◌then◌else◌,
}
use pred_sx.Event.{OnChainTradeEvent}
use pred_sx.Rotator.{RpcRotator, pick, bench}
use pred_sx.Indexer.{Log, Poll, new_poll, Cycle, run, process_log}

-- The endpoint cannot be dialed; or it has a subscription, with its logs, that ends with an error or
-- with the process; or it is polled.
pub data Attempt : Type 0 where
  no_dial : Attempt
  subscribed : List Log → Bool → Attempt
  polled : List (Option ℕ × (ℕ → ℕ → Option (List Log))) → Attempt

-- The logs that a cycle handles, and whether it ends with an error.
unfoldable pub cycle : Attempt → List Log × Bool
cycle no_dial = ([], true)
cycle (subscribed logs is_broken) = (logs, is_broken)
cycle (polled ticks) = ((run ticks new_poll).logs, not (run ticks new_poll).is_healthy)

-- Two minutes, in nanoseconds.
abbrev pub cooldown : ℕ
cooldown = 2 * 60_000_000_000

module _ (hash_hex address_hex : ℕ → String) (sig : ℕ) where
  -- What is published for some logs at a time.
  pub published : ℕ → List Log → List OnChainTradeEvent
  published now [] = []
  published now (l ∷ ls) = elim (process_log hash_hex address_hex sig now l) [
    | none ↦ published now ls
    | some e ↦ e ∷ published now ls
  ]

  -- One round of the loop: the endpoint, what is published, and the rotator after it; the cycle
  -- starts at the one time and ends at the other.
  pub round : ℕ → ℕ → Attempt → RpcRotator → Option (String × List OnChainTradeEvent × RpcRotator)
  unfolding cycle published
  round now later attempt r = elim (pick now r) [
    | none ↦ none
    | some (url, r') ↦ some (
      url,
      published later (cycle attempt).0,
      if (cycle attempt).1 then bench later url cooldown r' else r',
    )
  ]

  -- The rounds of the loop; `none` is a panic.
  pub rounds : List (ℕ × ℕ × Attempt) → RpcRotator → Option (List (String × List OnChainTradeEvent))
  unfolding round
  rounds [] r = some []
  rounds ((now, later, attempt) ∷ rest) r = elim (round now later attempt r) [
    | none ↦ none
    | some (url, events, r') ↦ elim (rounds rest r') [
      | none ↦ none
      | some others ↦ some ((url, events) ∷ others)
    ]
  ]
