-- ===== src/Storage/Normalizer.antt =====
-- The loops of `startNormalizerComponent` of predsx/services/storage/main.go, and the start of the
-- service in `main`.
-- A loop drops the error of `Fetch` and goes on with the zero value, so `none` is a failed fetch.
-- The goroutines take turns: the messages of all topics are one list, in the order in which they
-- are handled. Parameters as in Storage, and the JSON reader of a payload, where an error leaves an
-- empty map.
pub mod Mirrored
mod Tests
use pred_sx.Base.{ℕ, suc, Bool, true, false, Option, none, some, List, [], ◌∷◌, ◌++◌, String, map}
use pred_sx.Number.{Arith}
use pred_sx.Json.{Json, Members}
use pred_sx.Event.{
  RawWebsocketEvent, TradeEvent, NormalizedEvent, HistoricalEvent, OrderbookUpdate,
  MarketDiscovered, OnChainTradeEvent, PriceLevel,
}
use pred_sx.Storage.{
  Effect, publish, insert_trade, normalized, process_websocket_event, normalize_backfill,
  orderbook_row, Store, empty_store, append, tick,
}
use pred_sx.Storage.Schema.{Database, ensure_schemas}
use pred_sx.Storage.Schema.Insert.{Written, trade, event, snapshot, market, on_chain_trade}

-- The start of `main`: the errors of the client and of `Ping`, or the tables.
pub data Started (E : Type 0) : Type 0 where
  connect_failed ping_failed : E → Started E
  started : Database → Started E

-- The tables are made by `main` and again by the normalizer.
pub start_storage : {E : Type 0} → Option E → Option E → Database → Started E
start_storage connect ping db = elim connect [
  | some e ↦ connect_failed e
  | none ↦ elim ping [
    | some e ↦ ping_failed e
    | none ↦ started (ensure_schemas (ensure_schemas db))
  ]
]

abbrev zero_raw : RawWebsocketEvent
zero_raw = record { event_type = ""; token = ""; payload = ""; timestamp = 0 }

abbrev zero_historical : HistoricalEvent
zero_historical = record {
  market_id = "";
  source = "";
  event_type = "";
  payload = "";
  timestamp = 0;
  version = "";
}

abbrev zero_orderbook : OrderbookUpdate
zero_orderbook = record {
  token = "";
  market_id = "";
  bids = [];
  asks = [];
  best_bid = "";
  best_ask = "";
  timestamp = 0;
  version = "";
}

abbrev zero_market : MarketDiscovered
zero_market = record {
  id = "";
  slug = "";
  title = "";
  question = "";
  condition_id = "";
  clob_token_ids = [];
  exchange = "";
  event_id = "";
  raw = "";
  start_time = 0;
  end_time = 0;
  outcomes = [];
  status = "";
  created_at = 0;
  version = "";
}

abbrev zero_on_chain : OnChainTradeEvent
zero_on_chain = record {
  tx_hash = "";
  maker = "";
  taker = "";
  token_id = "";
  amount = "";
  timestamp = 0;
}

-- `evt, _ := consumer.Fetch(ctx)`
abbrev pub fetched : {T : Type 0} → T → Option T → T
fetched zero_value none = zero_value
fetched zero_value (some value) = value

-- Whether the writes of a message succeed, in their order: the errors of `Publish` and of `Exec`
-- are dropped.
abbrev pub Answers : Type 0
Answers = ℕ → Bool

-- What the loops get, each with the time and with how its writes go; `flushed ok` is the ticker of
-- the buffer.
pub data NormalizerInput : Type 0 where
  websocket : ℕ → Answers → Option RawWebsocketEvent → NormalizerInput
  backfill : ℕ → Option HistoricalEvent → NormalizerInput
  orderbook : ℕ → Bool → Option OrderbookUpdate → NormalizerInput
  discovered : Bool → Option MarketDiscovered → NormalizerInput
  on_chain : Bool → Option OnChainTradeEvent → NormalizerInput
  flushed : Bool → NormalizerInput

-- The buffer with the rows of its batches, the trades whose `Publish` succeeded, and the rows whose
-- `Exec` did, one by one.
pub record Normalizer (F : Type 0) : Type 0 where
  pub store : Store
  pub published : List (TradeEvent F)
  pub written : List (Written F)

pub new_normalizer : {F : Type 0} → Normalizer F
unfolding empty_store
new_normalizer = record { store = empty_store; published = []; written = [] }

module _ {F : Type 0} where
  abbrev pub write : Bool → Written F → Normalizer F → Normalizer F
  write true w n = record n { written = n.written ++ w ∷ [] }
  write false w n = n

  -- An effect, by whether its write succeeds; an event for the buffer is no write.
  pub apply_effect : Bool → Effect F → Normalizer F → Normalizer F
  unfolding append
  apply_effect true (publish key t) n = record n { published = n.published ++ t ∷ [] }
  apply_effect false (publish key t) n = n
  apply_effect ok (insert_trade t) n = write ok (trade t) n
  apply_effect ok (normalized e) n = record n { store = append e n.store }

  pub apply_effects : Answers → List (Effect F) → Normalizer F → Normalizer F
  unfolding apply_effect
  apply_effects oks [] n = n
  apply_effects oks (e ∷ es) n = apply_effects (λ i. oks (suc i)) es (apply_effect (oks 0) e n)

module _ {F : Type 0} (a : Arith F) (get : String → Option String) (hash : String → String)
    (to_lower : String → String) (to_json : TradeEvent F → String) (timestamp : Json F → ℕ)
    (decode : String → Members F) (levels_json : List PriceLevel → String) where
  -- What the loop of a topic does with what it fetched.
  pub handle_input : NormalizerInput → Normalizer F → Normalizer F
  unfolding apply_effects process_websocket_event append normalize_backfill orderbook_row tick
  handle_input (websocket now oks r) n =
      let raw = fetched zero_raw r in
      apply_effects oks
        (process_websocket_event a get hash to_lower to_json timestamp now (decode raw.payload)
          raw.payload)
        n
  handle_input (backfill now r) n = record n {
    store = append (normalize_backfill hash now (fetched zero_historical r)) n.store;
  }
  handle_input (orderbook now ok r) n =
      write ok (snapshot (orderbook_row a levels_json now (fetched zero_orderbook r))) n
  handle_input (discovered ok r) n = write ok (market (fetched zero_market r)) n
  handle_input (on_chain ok r) n = write ok (on_chain_trade (fetched zero_on_chain r)) n
  handle_input (flushed ok) n = record n { store = tick ok n.store }

  pub handle_inputs : List NormalizerInput → Normalizer F → Normalizer F
  unfolding handle_input
  handle_inputs [] n = n
  handle_inputs (i ∷ is) n = handle_inputs is (handle_input i n)
