-- ===== src/Event.antt =====
-- The events of the system: predsx/libs/schemas/events.go. Times are nanoseconds since 1970, and 0
-- stands for the zero time. `Validate` returns an error: false stands for it.
use pred_sx.Base.{ℕ, Bool, not, ◌||◌, List, String, is_empty, append_text}
use pred_sx.Base.Dict.{Dict}
use pred_sx.Number.{Arith}
use pred_sx.Json.{Json}

abbrev pub version_v1 : String
version_v1 = "v1.0.0"

pub record RawWebsocketEvent : Type 0 where
  pub event_type : String
  pub token : String
  pub payload : String
  pub timestamp : ℕ

pub record MarketDiscovered : Type 0 where
  pub id : String
  pub slug : String
  pub title : String
  pub question : String
  pub condition_id : String
  pub clob_token_ids : List String
  pub exchange : String
  pub event_id : String
  pub raw : String
  pub start_time : ℕ
  pub end_time : ℕ
  pub outcomes : List String
  pub status : String
  pub created_at : ℕ
  pub version : String

pub record TokenExtracted : Type 0 where
  pub market_id : String
  pub token_yes : String
  pub token_no : String
  pub exchange : String
  pub version : String

pub record TradeEvent (F : Type 0) : Type 0 where
  pub trade_id : String
  pub token : String
  pub market_id : String
  pub price : F
  pub size : F
  pub side : String
  pub timestamp : ℕ
  pub version : String

pub record PriceLevel : Type 0 where
  pub price : String
  pub size : String

pub record OrderbookUpdate : Type 0 where
  pub token : String
  pub market_id : String
  pub bids : List PriceLevel
  pub asks : List PriceLevel
  pub best_bid : String
  pub best_ask : String
  pub timestamp : ℕ
  pub version : String

pub record PriceUpdate (F : Type 0) : Type 0 where
  pub market_id : String
  pub token : String
  pub price : F
  pub mid_price : F
  pub best_bid : F
  pub best_ask : F
  pub spread : F
  pub last_trade_price : F
  pub volume_24h : F
  pub timestamp : ℕ
  pub version : String

pub record SignalEvent (F : Type 0) : Type 0 where
  pub signal_id : String
  pub market_id : String
  pub token : String
  pub signal_type : String
  pub value : F
  pub threshold : F
  pub severity : String
  pub details : Dict (Json F)
  pub timestamp : ℕ
  pub version : String

pub record NormalizedEvent : Type 0 where
  pub event_id : String
  pub event_type : String
  pub market_id : String
  pub payload : String
  pub metadata : Dict String
  pub timestamp : ℕ
  pub version : String

pub record HistoricalEvent : Type 0 where
  pub market_id : String
  pub source : String
  pub event_type : String
  pub payload : String
  pub timestamp : ℕ
  pub version : String

pub record OnChainTradeEvent : Type 0 where
  pub tx_hash : String
  pub maker : String
  pub taker : String
  pub token_id : String
  pub amount : String
  pub timestamp : ℕ

-- The `Validate` methods.
unfoldable pub raw_is_valid : RawWebsocketEvent → Bool
raw_is_valid e = not (is_empty e.token || is_empty e.payload)

unfoldable pub market_is_valid : MarketDiscovered → Bool
market_is_valid e = not (is_empty e.id || is_empty e.slug)

unfoldable pub token_is_valid : TokenExtracted → Bool
token_is_valid e = not (is_empty e.market_id || is_empty e.token_yes || is_empty e.token_no)

unfoldable pub trade_is_valid : {F : Type 0} → Arith F → TradeEvent F → Bool
trade_is_valid a e = not (is_empty e.trade_id || is_empty e.market_id || a.le e.price (a.lit 0 0))

unfoldable pub orderbook_is_valid : OrderbookUpdate → Bool
orderbook_is_valid e = not (is_empty e.market_id)

unfoldable pub price_is_valid : {F : Type 0} → Arith F → PriceUpdate F → Bool
price_is_valid a e = not (is_empty e.market_id || a.le e.price (a.lit 0 0))

unfoldable pub signal_is_valid : {F : Type 0} → SignalEvent F → Bool
signal_is_valid e = not (is_empty e.signal_id || is_empty e.market_id || is_empty e.signal_type)

unfoldable pub normalized_is_valid : NormalizedEvent → Bool
normalized_is_valid e = not (is_empty e.event_type || is_empty e.market_id)

unfoldable pub historical_is_valid : HistoricalEvent → Bool
historical_is_valid e = not (is_empty e.market_id)

unfoldable pub on_chain_is_valid : OnChainTradeEvent → Bool
on_chain_is_valid e = not (is_empty e.tx_hash || is_empty e.maker || is_empty e.taker)

-- `GenerateEventID` (predsx/libs/crypto/identity.go). SHA-1 in hexadecimal is the parameter `hash`.
unfoldable pub generate_event_id :
    (String → String) → String → String → String → String → String → String
generate_event_id hash market_id timestamp price size side =
    hash (append_text market_id (append_text timestamp (append_text price (append_text size side))))
