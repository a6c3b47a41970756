-- ===== src/Storage/Schema/Insert.antt =====
-- The statements that fill the tables: the insertions of predsx/services/storage/main.go and those
-- of `flushMetrics` of predsx/services/ingestion/main.go.
-- A statement is its table, its columns and the values of a row; a batch is one for each of its
-- rows. Parameters: the JSON of a list of texts, and the clock.
pub mod Accepted
mod Tests
use pred_sx.Base.{ℕ, Bool, true, false, ◌&&◌, Option, none, some, List, [], ◌∷◌, String}
use pred_sx.Base.Dict.{Dict, lookup}
use pred_sx.Event.{TradeEvent, NormalizedEvent, OnChainTradeEvent, MarketDiscovered}
use pred_sx.Aggregator.Flush.{Row, candle, metric}
use pred_sx.Storage.{OrderbookRow, stored_title}
use pred_sx.Storage.Schema.{
  ColumnType, text_type, low_cardinality, float64, uint32, date_time, date_time64, Database,
}

-- A Go value that is bound to a column.
pub data Value (F : Type 0) : Type 0 where
  text : String → Value F
  float : F → Value F
  count : ℕ → Value F
  time : ℕ → Value F

pub record Statement (F : Type 0) : Type 0 where
  pub table : String
  pub columns : List String
  pub values : List (Value F)

-- The specification of a statement that is well typed: the kind of value that goes with a type.
pub admits : {F : Type 0} → ColumnType → Value F → Bool
admits text_type (text s) = true
admits low_cardinality (text s) = true
admits float64 (float x) = true
admits uint32 (count n) = true
admits date_time (time t) = true
admits date_time64 (time t) = true
admits _ _ = false

pub admits_at : {F : Type 0} → Option ColumnType → Value F → Bool
unfolding admits
admits_at none v = false
admits_at (some type) v = admits type v

-- Each column is one of the table, and has a value of its type.
pub fits : {F : Type 0} → Dict ColumnType → List String → List (Value F) → Bool
unfolding admits_at
fits columns [] [] = true
fits columns (name ∷ names) (v ∷ vs) = admits_at (lookup name columns) v && fits columns names vs
fits columns _ _ = false

-- The table is there, and the statement fits it.
pub admits_statement : {F : Type 0} → Database → Statement F → Bool
unfolding fits
admits_statement db s = elim (lookup s.table db) [
  | none ↦ false
  | some columns ↦ fits columns s.columns s.values
]

-- What the services write.
pub data Written (F : Type 0) : Type 0 where
  trade : TradeEvent F → Written F
  event : NormalizedEvent → Written F
  snapshot : OrderbookRow F → Written F
  market : MarketDiscovered → Written F
  on_chain_trade : OnChainTradeEvent → Written F
  aggregate : Row F → Written F

module _ {F : Type 0} where
  -- The insertion of `processWebsocketEvent`.
  pub insert_trade : TradeEvent F → Statement F
  insert_trade t = record {
    table = "trades";
    columns = "trade_id" ∷ "market_id" ∷ "token" ∷ "price" ∷ "size" ∷ "side" ∷ "timestamp" ∷ [];
    values =
        text t.trade_id
        ∷ text t.market_id
        ∷ text t.token
        ∷ float t.price
        ∷ float t.size
        ∷ text t.side
        ∷ time t.timestamp
        ∷ [];
  }

  -- A row of the batch of `flushBatch`.
  pub insert_event : NormalizedEvent → Statement F
  insert_event e = record {
    table = "events_raw";
    columns = "event_id" ∷ "type" ∷ "market_id" ∷ "data" ∷ "timestamp" ∷ [];
    values =
        text e.event_id
        ∷ text e.event_type
        ∷ text e.market_id
        ∷ text e.payload
        ∷ time e.timestamp
        ∷ [];
  }

  -- The insertion of `insertOrderbookSnapshot`.
  pub insert_snapshot : OrderbookRow F → Statement F
  insert_snapshot r = record {
    table = "orderbook_history";
    columns =
        "market_id" ∷ "token" ∷ "timestamp" ∷ "best_bid" ∷ "best_ask" ∷ "mid" ∷ "spread" ∷ "bids"
        ∷ "asks" ∷ [];
    values =
        text r.market_id
        ∷ text r.token
        ∷ time r.timestamp
        ∷ float r.best_bid
        ∷ float r.best_ask
        ∷ float r.mid
        ∷ float r.spread
        ∷ text r.bids
        ∷ text r.asks
        ∷ [];
  }

  -- The insertion of `persistMarketMetadata`.
  pub insert_market : (List String → String) → ℕ → MarketDiscovered → Statement F
  unfolding stored_title
  insert_market strings_json now e = record {
    table = "market_metadata";
    columns =
        "market_id" ∷ "slug" ∷ "title" ∷ "question" ∷ "condition_id" ∷ "status" ∷ "exchange"
        ∷ "event_id" ∷ "start_time" ∷ "end_time" ∷ "outcomes" ∷ "created_at" ∷ "raw" ∷ [];
    values =
        text e.id
        ∷ text e.slug
        ∷ text (stored_title e)
        ∷ text e.question
        ∷ text e.condition_id
        ∷ text e.status
        ∷ text e.exchange
        ∷ text e.event_id
        ∷ time e.start_time
        ∷ time e.end_time
        ∷ text (strings_json e.outcomes)
        ∷ time now
        ∷ text e.raw
        ∷ [];
  }

  -- The insertion of the last loop of `startNormalizerComponent`.
  pub insert_on_chain_trade : OnChainTradeEvent → Statement F
  insert_on_chain_trade e = record {
    table = "onchain_trades";
    columns = "tx_hash" ∷ "maker" ∷ "taker" ∷ "token_id" ∷ "amount" ∷ "timestamp" ∷ [];
    values =
        text e.tx_hash
        ∷ text e.maker
        ∷ text e.taker
        ∷ text e.token_id
        ∷ text e.amount
        ∷ time e.timestamp
        ∷ [];
  }

  -- A row of the batch of `flushMetrics`, for the table that its loop names.
  pub insert_aggregate : Row F → Statement F
  insert_aggregate (candle market_id window opening high low close volume trade_count) = record {
    table = "price_history_1m";
    columns =
        "market_id" ∷ "timestamp" ∷ "open" ∷ "high" ∷ "low" ∷ "close" ∷ "volume" ∷ "trade_count"
        ∷ [];
    values =
        text market_id
        ∷ time window
        ∷ float opening
        ∷ float high
        ∷ float low
        ∷ float close
        ∷ float volume
        ∷ count trade_count
        ∷ [];
  }
  insert_aggregate (metric market_id window trade_count volume avg) = record {
    table = "market_metrics";
    columns = "market_id" ∷ "timestamp" ∷ "trade_count" ∷ "volume" ∷ "avg_price" ∷ [];
    values = text market_id ∷ time window ∷ count trade_count ∷ float volume ∷ float avg ∷ [];
  }

  pub statement : (List String → String) → ℕ → Written F → Statement F
  unfolding insert_trade insert_event insert_snapshot insert_market insert_on_chain_trade
      insert_aggregate
  statement strings_json now (trade t) = insert_trade t
  statement strings_json now (event e) = insert_event e
  statement strings_json now (snapshot r) = insert_snapshot r
  statement strings_json now (market e) = insert_market strings_json now e
  statement strings_json now (on_chain_trade e) = insert_on_chain_trade e
  statement strings_json now (aggregate r) = insert_aggregate r
