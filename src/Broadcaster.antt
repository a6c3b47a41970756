-- ===== src/Broadcaster.antt =====
-- `StartKafkaBroadcaster` with `marshal` of predsx/services/api/ws/broadcaster.go, and
-- `BroadcastToMarket` of hub.go: the four consumers as functions from what they fetch to what they
-- hand to the hub. JSON encoding is a parameter.
use pred_sx.Base.{Option, none, some, List, [], ◌∷◌, String}
use pred_sx.Base.Dict.{Dict}
use pred_sx.Config.{get_env}
use pred_sx.Event.{TradeEvent, OrderbookUpdate, PriceUpdate, SignalEvent}
use pred_sx.Hub.{BroadcastMsg}

pub data Fetched (F : Type 0) : Type 0 where
  trade : TradeEvent F → Fetched F
  orderbook : OrderbookUpdate → Fetched F
  price : PriceUpdate F → Fetched F
  signal : SignalEvent F → Fetched F

-- An event with its type and the time, as text.
pub record Envelope (F : Type 0) : Type 0 where
  pub kind : String
  pub content : Fetched F
  pub timestamp : String

-- The topics of the four consumers.
pub topics : Dict String → List String
topics env =
    get_env env "TRADES_LIVE_TOPIC" "predsx.trades.live"
    ∷ get_env env "ORDERBOOK_UPDATES_TOPIC" "predsx.orderbook.updates"
    ∷ get_env env "PRICES_TOPIC" "predsx.prices"
    ∷ get_env env "SIGNALS_TOPIC" "predsx.signals.live"
    ∷ []

abbrev kind_of : {F : Type 0} → Fetched F → String
kind_of (trade e) = "trade"
kind_of (orderbook e) = "orderbook"
kind_of (price e) = "price"
kind_of (signal e) = "signal"

abbrev market_of : {F : Type 0} → Fetched F → String
market_of (trade e) = e.market_id
market_of (orderbook e) = e.market_id
market_of (price e) = e.market_id
market_of (signal e) = e.market_id

module _ {F : Type 0} (encode : Envelope F → String) where
  pub marshal : Fetched F → String → String
  marshal e now = encode (record { kind = kind_of e; content = e; timestamp = now })

  -- `BroadcastToMarket`
  pub broadcast_to_market : String → String → BroadcastMsg
  broadcast_to_market bytes market = record { payload = bytes; market_id = market }

  -- The loop of a consumer: what it fetches, or an error, and the time.
  pub consume : List (Option (Fetched F) × String) → List BroadcastMsg
  unfolding marshal broadcast_to_market
  consume [] = []
  consume ((none, now) ∷ rest) = consume rest
  consume ((some e, now) ∷ rest) = broadcast_to_market (marshal e now) (market_of e) ∷ consume rest
