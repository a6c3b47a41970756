-- ===== src/Rest/Backend.antt =====
-- What the handlers of predsx/services/api/handlers/rest.go call: Redis, ClickHouse, the decoders
-- of encoding/json and the functions of strings and time, as one record of parameters. `none` is
-- an error, or a key or row that is missing. A row that cannot be scanned is `none`.
use pred_sx.Base.{ℕ, Bool, Option, List, String}
use pred_sx.Json.{Json, Members}
use pred_sx.Rest.Params.{Instant}

-- A row of `market_metadata`; a time is in nanoseconds, 0 the zero time.
pub record MetadataRow : Type 0 where
  pub market_id : String
  pub slug : String
  pub title : String
  pub question : String
  pub condition_id : String
  pub status : String
  pub exchange : String
  pub event_id : String
  pub outcomes : String
  pub raw : String
  pub start_time : ℕ
  pub end_time : ℕ

pub record TradeRow (F : Type 0) : Type 0 where
  pub trade_id : String
  pub market_id : String
  pub price : F
  pub size : F
  pub side : String
  pub token : String
  pub unix_milli : ℕ

pub record HistoryRow (F : Type 0) : Type 0 where
  pub time : ℕ
  pub trade_count : ℕ
  pub volume : F
  pub close : F

pub record CandleRow (F : Type 0) : Type 0 where
  pub unix : ℕ
  pub opened : F
  pub high : F
  pub low : F
  pub close : F
  pub volume : F

pub record StatsRow (F : Type 0) : Type 0 where
  pub volume : F
  pub trades : ℕ
  pub open_price : F
  pub close_price : F
  pub low : F
  pub high : F

pub record TopRow (F : Type 0) : Type 0 where
  pub market_id : String
  pub total_volume : F
  pub total_trades : ℕ

pub record SignalRow (F : Type 0) : Type 0 where
  pub kind : String
  pub value : F
  pub severity : String
  pub unix_milli : ℕ

-- What a placeholder of a query stands for.
pub data Arg : Type 0 where
  word : String → Arg
  number : ℕ → Arg
  instant : Instant → Arg

-- What a query gives: an error, or rows; a row that cannot be scanned is `none`.
abbrev pub Rows : Type 0 → Type 0
Rows R = List String → List Arg → Option (List (Option R))

pub record Backend (F : Type 0) : Type 0 where
  pub get : String → Option String
  -- `SISMEMBER predsx:markets id`
  pub is_member : String → Option Bool
  -- `EXISTS key`
  pub exists_key : String → Option Bool
  -- `SCAN cursor MATCH pattern COUNT count`: some keys and the next cursor.
  pub scan : String → ℕ → ℕ → Option (List String × ℕ)
  -- `json.Unmarshal` to a map, which is nil for null, and to a list of texts.
  pub decode_object : String → Option (Option (Members F))
  pub decode_strings : String → Option (List String)
  -- `json.Unmarshal` to any value, and `json.Marshal`.
  pub decode_json : String → Option (Json F)
  pub marshal : Json F → Option String
  -- The rows of the last activity of each market, newest first, at most as many as the argument.
  pub activity_rows : ℕ → Option (List (Option String))
  pub metadata_rows : Rows MetadataRow
  pub trade_rows : Rows (TradeRow F)
  pub history_rows : Rows (HistoryRow F)
  pub candle_rows : Rows (CandleRow F)
  pub stats_rows : Rows (StatsRow F)
  pub top_rows : Rows (TopRow F)
  pub signal_rows : Rows (SignalRow F)
  pub data_rows : Rows String
  pub equal_fold : String → String → Bool
  pub to_lower : String → String
  pub to_upper : String → String
  -- A time as RFC 3339 text, without and with the part of a second, and a number at the start of a
  -- text, as `fmt.Sscanf` reads it.
  pub format_time : ℕ → String
  pub format_nano : ℕ → String
  pub scan_float : String → F
