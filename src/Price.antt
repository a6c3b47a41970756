-- ===== src/Price.antt =====
-- The price engine: `MarketPriceState`, `tradePoint` and `startPriceEngine` of
-- predsx/services/processor/main.go.
-- Two consumers share the map of states. Each takes a state's lock for its whole update, so a
-- history is a sequence of such updates; what is published is made from values read under the lock.
-- Times are nanoseconds since 1970.
pub mod Since
pub mod Window
mod Tests
use pred_sx.Base.{
  ℕ, ◌-◌, ◌*◌, Bool, true, false, ◌&&◌, Option, none, some, List, [], ◌∷◌, ◌++◌, String,
  if◌then◌else◌, ltb,
}
use pred_sx.Base.Dict.{Dict, lookup, insert}
use pred_sx.Number.{Arith}
use pred_sx.Event.{TradeEvent, OrderbookUpdate, PriceUpdate, version_v1}

pub record TradePoint (F : Type 0) : Type 0 where
  pub ts : ℕ
  pub val : F

pub record MarketPriceState (F : Type 0) : Type 0 where
  pub volume_24h : F
  pub last_trade_price : F
  pub best_bid : F
  pub best_ask : F
  pub trades : List (TradePoint F)

-- 24 hours
abbrev pub day : ℕ
day = 86_400_000_000_000

module _ {F : Type 0} (a : Arith F) where
  abbrev pub new_state : MarketPriceState F
  new_state = record {
    volume_24h = a.lit 0 0;
    last_trade_price = a.lit 0 0;
    best_bid = a.lit 0 0;
    best_ask = a.lit 0 0;
    trades = [];
  }

  abbrev pub state_of : Option (MarketPriceState F) → MarketPriceState F
  state_of none = new_state
  state_of (some s) = s

  abbrev pub is_positive : F → Bool
  is_positive x = a.lt (a.lit 0 0) x

  -- `for len(s.trades) > 0 && s.trades[0].ts.Before(cutoff)`: the volume and the trades left.
  pub evict : ℕ → F → List (TradePoint F) → F × List (TradePoint F)
  evict cutoff volume [] = (volume, [])
  evict cutoff volume (p ∷ points) =
      let rest = evict cutoff (a.sub volume p.val) points in
      if ltb p.ts cutoff then rest else (volume, p ∷ points)

  -- The section under the lock for a trade: `now` is read twice, for the point and for the cutoff.
  pub add_trade : ℕ → ℕ → TradeEvent F → MarketPriceState F → MarketPriceState F
  unfolding evict
  add_trade now later trade s =
      let notional = a.mul trade.price trade.size in
      let (volume, points) =
        evict (later - day) (a.add s.volume_24h notional)
          (s.trades ++ record { ts = now; val = notional } ∷ []) in
      record s { volume_24h = volume; last_trade_price = trade.price; trades = points }

  -- What a trade publishes and caches.
  pub trade_update : TradeEvent F → MarketPriceState F → PriceUpdate F
  trade_update trade s =
      let both = is_positive s.best_bid && is_positive s.best_ask in
      let mid = a.div (a.add s.best_bid s.best_ask) (a.lit 2 0) in
      record {
        market_id = trade.market_id;
        token = trade.token;
        price = if both then mid else trade.price;
        mid_price = if both then mid else trade.price;
        best_bid = s.best_bid;
        best_ask = s.best_ask;
        spread = if both then a.sub s.best_ask s.best_bid else a.lit 0 0;
        last_trade_price = trade.price;
        volume_24h = s.volume_24h;
        timestamp = trade.timestamp;
        version = version_v1;
      }

  -- What an order book publishes and caches; its version is left empty.
  pub book_price : ℕ → F → F → OrderbookUpdate → MarketPriceState F → PriceUpdate F
  book_price now bid ask ob s = record {
    market_id = ob.market_id;
    token = ob.token;
    price = a.div (a.add bid ask) (a.lit 2 0);
    mid_price = a.div (a.add bid ask) (a.lit 2 0);
    best_bid = bid;
    best_ask = ask;
    spread = a.sub ask bid;
    last_trade_price = s.last_trade_price;
    volume_24h = s.volume_24h;
    timestamp = now;
    version = "";
  }

  pub on_trade :
      ℕ
      → ℕ
      → TradeEvent F
      → Dict (MarketPriceState F)
      → Dict (MarketPriceState F) × List (PriceUpdate F)
  unfolding add_trade trade_update
  on_trade now later trade states =
      let s = add_trade now later trade (state_of (lookup trade.market_id states)) in
      (insert trade.market_id s states, trade_update trade s ∷ [])

  pub on_orderbook :
      ℕ
      → OrderbookUpdate
      → Dict (MarketPriceState F)
      → Dict (MarketPriceState F) × List (PriceUpdate F)
  unfolding book_price
  on_orderbook now ob states =
      let bid = a.parse ob.best_bid in
      let ask = a.parse ob.best_ask in
      let s = state_of (lookup ob.market_id states) in
      if is_positive bid && is_positive ask
      then (
        insert ob.market_id (record s { best_bid = bid; best_ask = ask }) states,
        book_price now bid ask ob s ∷ [],
      )
      else (states, [])

-- What the two consumers fetch; a failed fetch changes nothing and is left out.
pub data Event (F : Type 0) : Type 0 where
  trade : ℕ → ℕ → TradeEvent F → Event F
  orderbook : ℕ → OrderbookUpdate → Event F

module _ {F : Type 0} (a : Arith F) where
  pub handle :
      Event F → Dict (MarketPriceState F) → Dict (MarketPriceState F) × List (PriceUpdate F)
  unfolding on_trade on_orderbook
  handle (trade now later t) states = on_trade a now later t states
  handle (orderbook now ob) states = on_orderbook a now ob states

  pub run :
      List (Event F) → Dict (MarketPriceState F) → Dict (MarketPriceState F) × List (PriceUpdate F)
  unfolding handle
  run [] states = (states, [])
  run (e ∷ es) states =
      let (states', updates) = handle e states in
      let (states'', updates') = run es states' in (states'', updates ++ updates')
