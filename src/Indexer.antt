-- ===== src/Indexer.antt =====
-- The on-chain indexer: `runIndexerCycle`, where it polls, and `processLog`
-- (predsx/services/ingestion/main.go). Block numbers are 64-bit and wrap. The node is a function
-- from a range of blocks to its logs, `none` for an error; an address in hexadecimal with its
-- checksum (go-ethereum) and a hash in hexadecimal are parameters.
pub mod Blocks
pub mod Chain
pub mod CatchUp
pub mod Component
pub mod Decode
mod Tests
use pred_sx.Base.{
  ℕ, zero, suc, ◌+◌, ◌*◌, ◌-◌, ◌^◌, ◌%◌, Bool, true, false, Option, none, some, List, [], ◌∷◌, ◌++◌,
  String, if◌then◌else◌, ltb, leb, ◌==◌, length, take, drop,
}
use pred_sx.Base.Decimal.{itoa}
use pred_sx.Event.{OnChainTradeEvent}

pub record Log : Type 0 where
  pub topics : List ℕ
  pub log_data : List ℕ
  pub tx_hash : ℕ

-- `big.Int.SetBytes`
abbrev pub set_bytes_from : ℕ → List ℕ → ℕ
set_bytes_from n [] = n
set_bytes_from n (b ∷ bs) = set_bytes_from (n * 256 + b) bs

abbrev pub set_bytes : List ℕ → ℕ
set_bytes bs = set_bytes_from 0 bs

module _ (hash_hex address_hex : ℕ → String) where
  unfoldable pub trade_of : List ℕ → ℕ → ℕ → Log → ℕ → OnChainTradeEvent
  trade_of bytes from to l now = record {
    tx_hash = hash_hex l.tx_hash;
    maker = address_hex from;
    taker = address_hex to;
    token_id = itoa (set_bytes (take 32 bytes));
    amount = itoa (set_bytes (drop 32 bytes));
    timestamp = now;
  }

  -- `processLog`: the event that it publishes.
  unfoldable pub process_log : ℕ → ℕ → Log → Option OnChainTradeEvent
  unfolding trade_of
  process_log sig now l = elim l.topics [
    | t0 ∷ t1 ∷ t2 ∷ t3 ∷ rest ↦
        if t0 == sig
        then (if leb 64 (length l.log_data) then some (trade_of l.log_data t2 t3 l now) else none)
        else none
    | _ ↦ none
  ]

-- `lastBlock`, `headerErrors` and `logErrors` of the loop.
pub record Poll : Type 0 where
  pub last_block : ℕ
  pub header_errors : ℕ
  pub log_errors : ℕ

pub new_poll : Poll
new_poll = record { last_block = 0; header_errors = 0; log_errors = 0 }

abbrev pub max_consecutive_errors : ℕ
max_consecutive_errors = 3

-- `currentBlock - 5`, on 64 bits.
pub five_back : ℕ → ℕ
five_back n = (n + 2 ^ 64 - 5) % 2 ^ 64

pub start_block : ℕ → ℕ → ℕ
unfolding five_back
start_block last current = if last == 0 then five_back current else last

-- The end of the range: `if to-from > 40 { to = from + 40 }`
pub range_end : ℕ → ℕ → ℕ
range_end from current =
    if ltb 40 ((current + 2 ^ 64 - from) % 2 ^ 64) then (from + 40) % 2 ^ 64 else current

-- One tick: nothing was fetched, a range was fetched, or the cycle ends with an error.
pub data Tick : Type 0 where
  idle : Poll → Tick
  fetched : ℕ → ℕ → List Log → Poll → Tick
  unhealthy : Tick

pub header_failed : Poll → Tick
header_failed p =
    if leb max_consecutive_errors (p.header_errors + 1)
    then unhealthy
    else idle (record p { header_errors = p.header_errors + 1 })

-- The answer of `FilterLogs`, for a poll whose `lastBlock` is set.
pub on_logs : ℕ → ℕ → Option (List Log) → Poll → Tick
on_logs from to none p =
    if leb max_consecutive_errors (p.log_errors + 1)
    then unhealthy
    else idle (record p { log_errors = p.log_errors + 1 })
on_logs from to (some logs) p = fetched from to logs (record p { last_block = to; log_errors = 0 })

pub fetch : (ℕ → ℕ → Option (List Log)) → ℕ → Poll → Tick
unfolding on_logs range_end
fetch filter_logs current p =
    let from = (p.last_block + 1) % 2 ^ 64 in
    let to = range_end from current in on_logs from to (filter_logs from to) p

pub on_header : (ℕ → ℕ → Option (List Log)) → ℕ → Poll → Tick
unfolding fetch start_block
on_header filter_logs current p =
    let p' = record p { header_errors = 0; last_block = start_block p.last_block current } in
    if leb current p'.last_block then idle p' else fetch filter_logs current p'

-- A tick: the number of the newest block, if the header came, and the node.
pub tick : Option ℕ → (ℕ → ℕ → Option (List Log)) → Poll → Tick
unfolding header_failed on_header
tick none filter_logs p = header_failed p
tick (some number) filter_logs p = on_header filter_logs (number % 2 ^ 64) p

-- What a cycle did: the ranges it fetched, their logs, and the poll unless it gave up.
pub record Cycle : Type 0 where
  pub ranges : List (ℕ × ℕ)
  pub logs : List Log
  pub poll : Poll
  pub is_healthy : Bool

abbrev pub then_fetched : ℕ → ℕ → List Log → Cycle → Cycle
then_fetched from to logs c = record c { ranges = (from, to) ∷ c.ranges; logs = logs ++ c.logs }

abbrev pub after_tick : Poll → (Poll → Cycle) → Tick → Cycle
after_tick p rest (idle p') = rest p'
after_tick p rest (fetched from to logs p') = then_fetched from to logs (rest p')
after_tick p rest unhealthy = record { ranges = []; logs = []; poll = p; is_healthy = false }

pub run : List (Option ℕ × (ℕ → ℕ → Option (List Log))) → Poll → Cycle
unfolding tick
run [] p = record { ranges = []; logs = []; poll = p; is_healthy = true }
run ((header, filter_logs) ∷ ticks) p = after_tick p (run ticks) (tick header filter_logs p)
