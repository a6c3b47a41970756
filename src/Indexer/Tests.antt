-- ===== src/Indexer/Tests.antt =====
-- A poll of three ticks and a log, and the theorems about the indexer at them.
use pred_sx.Base.{
  ℕ, ◌+◌, ◌-◌, ◌≡◌, ◌≢◌, ◌⊎◌, length, refl, true, inl, inr, Option, none, some, List, [], ◌∷◌,
  String, arith,
}
use pred_sx.Base.Decimal.{itoa}
use pred_sx.Indexer.{Log, Poll, new_poll, run, process_log}
use pred_sx.Indexer.Chain.{IsHonest, IsComplete, run-IsComplete}
use pred_sx.Indexer.Blocks.{between}
use pred_sx.Event.{OnChainTradeEvent}
use pred_sx.Rotator.{RpcRotator, pick}
use pred_sx.Rotator.Pick.{Benched}
use pred_sx.Indexer.Component.{cycle, no_dial, round}
use pred_sx.Indexer.Component.Rotates.{round-Rotates}
use pred_sx.Indexer.CatchUp.{run-newest}
use pred_sx.Indexer.Decode.{transfer_data, process_log-transfer}

abbrev blocks : ℕ → List Log
blocks n = record { topics = []; log_data = []; tx_hash = n } ∷ []

abbrev answers : ℕ → ℕ → Option (List Log)
answers from to = some (between blocks from (to + 1 - from))

abbrev fails : ℕ → ℕ → Option (List Log)
fails from to = none

abbrev ticks : List (Option ℕ × (ℕ → ℕ → Option (List Log)))
ticks =
    (some 100, fails)
    ∷ (none, answers)
    ∷ (some 140, answers)
    ∷ (some 140, answers)
    ∷ (some 141, answers)
    ∷ []

answers-IsHonest : IsHonest blocks answers
answers-IsHonest from to le = inr refl

run-ticks : (run ticks new_poll).ranges ≡ (96, 136) ∷ (137, 140) ∷ (141, 141) ∷ []
unfolding run new_poll
run-ticks = refl

run-IsComplete_example : IsComplete blocks new_poll (run ticks new_poll)
unfolding new_poll
run-IsComplete_example =
    run-IsComplete blocks ticks new_poll
      (
        λ from to le. inl refl,
        (answers-IsHonest, (answers-IsHonest, (answers-IsHonest, (answers-IsHonest, tt)))),
      )
      (omega arith)

abbrev behind : Poll
behind = record { last_block = 40; header_errors = 0; log_errors = 1 }

abbrev same_block : List (Option ℕ × (ℕ → ℕ → Option (List Log)))
same_block = (some 100, answers) ∷ (some 100, answers) ∷ []

run-newest_example :
    ((run same_block behind).poll.last_block ≡ 100) × ((run same_block behind).is_healthy ≡ true)
run-newest_example =
    run-newest same_block 100 behind
      (
        (refl, λ from to. (between blocks from (to + 1 - from), refl)),
        ((refl, λ from to. (between blocks from (to + 1 - from), refl)), tt),
      )
      (omega arith) (omega arith) (omega arith) (omega arith)

abbrev hex : ℕ → String
hex n = itoa n

process_log-transfer_example :
    process_log hex hex 7 1000
      (record { topics = 7 ∷ 1 ∷ 2 ∷ 3 ∷ []; log_data = transfer_data 300 70000; tx_hash = 9 })
    ≡ some (record {
      tx_hash = hex 9;
      maker = hex 2;
      taker = hex 3;
      token_id = itoa 300;
      amount = itoa 70000;
      timestamp = 1000;
    })
process_log-transfer_example =
    process_log-transfer hex hex 7 1000 1 2 3 300 70000 9 (omega arith) (omega arith)

abbrev pool : RpcRotator
pool = record { urls = "a" ∷ "b" ∷ []; idx = 0; benched = [] }

round-Rotates_example :
    (url next : String) × (events : List OnChainTradeEvent) × (r' r'' : RpcRotator) × (round hex hex
        7 10 20 no_dial pool
      ≡ some (url, events, r'))
    × (pick 30 r' ≡ some (next, r''))
    × ((next ≢ url) ⊎ Benched 30 (length r'.urls) r')
unfolding cycle
round-Rotates_example =
    round-Rotates hex hex 7 10 20 30 no_dial pool (record { within = omega arith }) refl
      (omega arith)
