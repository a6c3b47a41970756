-- ===== src/Rest/Query.antt =====
-- The queries that the handlers of predsx/services/api/handlers/rest.go send to ClickHouse, each on
-- one line, in the pieces that the handlers append, and the arguments that go with them.
pub mod Placeholders
use pred_sx.Base.{
  ℕ, Bool, true, false, not, Option, none, some, List, [], ◌∷◌, ◌++◌, String, if◌then◌else◌, str_eq,
  is_empty,
}
use pred_sx.Rest.Backend.{Arg, word, number, instant}
use pred_sx.Rest.Params.{Instant}

-- The conditions on the time, where it is given.
pub since : Option Instant → List String
since none = []
since (some t) = " AND timestamp >= ?" ∷ []

pub until : Option Instant → List String
until none = []
until (some t) = " AND timestamp <= ?" ∷ []

abbrev pub time_arg : Option Instant → List Arg
time_arg none = []
time_arg (some t) = instant t ∷ []

abbrev newest_first : List String
newest_first = " ORDER BY timestamp DESC LIMIT ?" ∷ []

-- `GetMarketTrades`
pub trades_query : Option Instant → Option Instant → List String
unfolding since until
trades_query from to =
    "SELECT trade_id, price, size, side, token, timestamp FROM trades WHERE market_id IN (?, ?)"
    ∷ (since from ++ (until to ++ newest_first))

pub range_args : String → String → Option Instant → Option Instant → ℕ → List Arg
range_args id condition_id from to limit =
    word id ∷ word condition_id ∷ (time_arg from ++ (time_arg to ++ number limit ∷ []))

-- The table for the resolution of `GetMarketPriceHistory`.
pub history_table : String → String
history_table resolution =
    if str_eq resolution "5m"
    then "price_history_5m"
    else (if str_eq resolution "1h"
        then "price_history_1h"
        else (if str_eq resolution "1s" then "market_metrics" else "price_history_1m"))

pub history_query : String → Option Instant → Option Instant → List String
unfolding since until history_table
history_query resolution from to =
    "SELECT timestamp, trade_count, volume, close FROM "
    ∷ history_table resolution
    ∷ " WHERE market_id IN (?, ?)"
    ∷ (since from ++ (until to ++ newest_first))

-- `GetCandles`
abbrev pub is_hourly : String → Bool
is_hourly resolution = if str_eq resolution "60" then true else str_eq resolution "1h"

pub candles_query : Bool → List String
candles_query hourly =
    "SELECT timestamp, open, high, low, close, volume FROM "
    ∷ (if hourly then "price_history_1h" else "price_history_1m")
    ∷ " WHERE market_id IN (?, ?) AND timestamp >= ? AND timestamp <= ? ORDER BY timestamp ASC LIMIT ?"
    ∷ []

pub candles_args : String → String → Instant → Instant → ℕ → List Arg
candles_args id condition_id from to limit =
    word id ∷ word condition_id ∷ instant from ∷ instant to ∷ number limit ∷ []

-- `SearchMarkets`
pub search_query : String → String → List String
search_query exchange status =
    "SELECT market_id, slug, title, question, condition_id, status, exchange, event_id, start_time, end_time, outcomes FROM market_metadata WHERE (positionCaseInsensitive(title, ?) > 0 OR positionCaseInsensitive(question, ?) > 0)"
    ∷ ((if is_empty exchange then [] else " AND lower(exchange) = lower(?)" ∷ [])
        ++ ((if is_empty status then [] else " AND upper(status) = upper(?)" ∷ [])
            ++ " ORDER BY created_at DESC LIMIT ?" ∷ []))

pub search_args : String → String → String → ℕ → List Arg
search_args q exchange status limit =
    word q
    ∷ word q
    ∷ ((if is_empty exchange then [] else word exchange ∷ [])
        ++ ((if is_empty status then [] else word status ∷ []) ++ number limit ∷ []))

-- `GetTopMarkets`
pub top_query : String → List String
top_query by =
    "SELECT market_id, sum(volume) AS total_volume, sum(trade_count) AS total_trades FROM price_history_1m WHERE timestamp >= ? GROUP BY market_id ORDER BY "
    ∷ (if str_eq by "trades" then "total_trades" else "total_volume")
    ∷ " DESC LIMIT ?"
    ∷ []

-- `GetRelatedMarkets`
pub related_query : List String
related_query =
    "SELECT market_id, slug, title, question, condition_id, status, exchange, event_id, start_time, end_time, outcomes FROM market_metadata WHERE event_id = ? AND market_id != ? ORDER BY created_at DESC LIMIT ?"
    ∷ []

-- `fetchMarketStats`
pub stats_query : List String
stats_query =
    "SELECT sum(volume) AS volume_24h, sum(trade_count) AS trades_24h, argMin(close, timestamp) AS open_price, argMax(close, timestamp) AS close_price, min(close) AS low_24h, max(close) AS high_24h FROM price_history_1m WHERE market_id IN (?, ?) AND timestamp >= ?"
    ∷ []

-- `GetMarketSummary`
pub signals_query : List String
signals_query =
    "SELECT type, value, severity, timestamp FROM events_raw WHERE type LIKE 'predsx.signal.%' AND market_id = ? ORDER BY timestamp DESC LIMIT 5"
    ∷ []
