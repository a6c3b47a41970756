-- ===== src/Storage/Schema.antt =====
-- The tables of ClickHouse: `ensureSchemas` of predsx/services/storage/main.go.
-- A statement is its table and its columns; the texts of the SQL, the two views, and what
-- ClickHouse does with the rows later (engines, partitions, TTL) are left out.
pub mod Insert
use pred_sx.Base.{Option, none, some, List, [], ◌∷◌, String}
use pred_sx.Base.Dict.{Dict, lookup, insert}

pub data ColumnType : Type 0 where
  text_type low_cardinality float64 uint32 date_time date_time64 : ColumnType

pub record Table : Type 0 where
  pub name : String
  pub columns : Dict ColumnType

-- The tables by their names.
abbrev pub Database : Type 0
Database = Dict (Dict ColumnType)

abbrev events_raw : Table
events_raw = record {
  name = "events_raw";
  columns =
      ("event_id", text_type)
      ∷ ("type", low_cardinality)
      ∷ ("market_id", text_type)
      ∷ ("timestamp", date_time64)
      ∷ ("data", text_type)
      ∷ ("metadata", text_type)
      ∷ [];
}

abbrev trades : Table
trades = record {
  name = "trades";
  columns =
      ("trade_id", text_type)
      ∷ ("market_id", text_type)
      ∷ ("token", text_type)
      ∷ ("price", float64)
      ∷ ("size", float64)
      ∷ ("side", low_cardinality)
      ∷ ("timestamp", date_time64)
      ∷ [];
}

abbrev market_metadata : Table
market_metadata = record {
  name = "market_metadata";
  columns =
      ("market_id", text_type)
      ∷ ("slug", text_type)
      ∷ ("title", text_type)
      ∷ ("question", text_type)
      ∷ ("condition_id", text_type)
      ∷ ("status", text_type)
      ∷ ("exchange", text_type)
      ∷ ("event_id", text_type)
      ∷ ("start_time", date_time64)
      ∷ ("end_time", date_time64)
      ∷ ("outcomes", text_type)
      ∷ ("created_at", date_time64)
      ∷ ("raw", text_type)
      ∷ [];
}

abbrev orderbook_history : Table
orderbook_history = record {
  name = "orderbook_history";
  columns =
      ("market_id", text_type)
      ∷ ("token", text_type)
      ∷ ("timestamp", date_time64)
      ∷ ("best_bid", float64)
      ∷ ("best_ask", float64)
      ∷ ("mid", float64)
      ∷ ("spread", float64)
      ∷ ("bids", text_type)
      ∷ ("asks", text_type)
      ∷ [];
}

abbrev onchain_trades : Table
onchain_trades = record {
  name = "onchain_trades";
  columns =
      ("tx_hash", text_type)
      ∷ ("maker", text_type)
      ∷ ("taker", text_type)
      ∷ ("token_id", text_type)
      ∷ ("amount", text_type)
      ∷ ("timestamp", date_time64)
      ∷ [];
}

abbrev market_metrics : Table
market_metrics = record {
  name = "market_metrics";
  columns =
      ("market_id", text_type)
      ∷ ("timestamp", date_time)
      ∷ ("trade_count", uint32)
      ∷ ("volume", float64)
      ∷ ("avg_price", float64)
      ∷ [];
}

-- The columns of `price_history_1m` and of `price_history_1h`.
abbrev candle_columns : Dict ColumnType
candle_columns =
    ("market_id", text_type)
    ∷ ("timestamp", date_time)
    ∷ ("open", float64)
    ∷ ("high", float64)
    ∷ ("low", float64)
    ∷ ("close", float64)
    ∷ ("volume", float64)
    ∷ ("trade_count", uint32)
    ∷ []

abbrev price_history_1m : Table
price_history_1m = record { name = "price_history_1m"; columns = candle_columns }

abbrev price_history_1h : Table
price_history_1h = record { name = "price_history_1h"; columns = candle_columns }

pub tables : List Table
tables =
    events_raw ∷ trades ∷ market_metadata ∷ orderbook_history ∷ onchain_trades ∷ market_metrics
    ∷ price_history_1m ∷ price_history_1h ∷ []

-- `CREATE TABLE IF NOT EXISTS`
pub create : Table → Database → Database
create t db = elim (lookup t.name db) [ some columns ↦ db | none ↦ insert t.name t.columns db ]

pub create_all : List Table → Database → Database
unfolding create
create_all [] db = db
create_all (t ∷ ts) db = create_all ts (create t db)

-- `ensureSchemas`
pub ensure_schemas : Database → Database
unfolding create_all tables
ensure_schemas db = create_all tables db
