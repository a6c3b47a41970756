-- ===== src/Aggregator.antt =====
-- The stream aggregator: `MetricBucket`, `updateBucket`, `startAggregatorComponent` and
-- `flushMetrics` of predsx/services/ingestion/main.go.
-- Times are nanoseconds since 1970; `Truncate` rounds down, since the second and the minute divide
-- the distance between 1970 and Go's zero time.
pub mod Candle
pub mod Flush
mod Tests
use pred_sx.Base.{
  ℕ, zero, suc, ◌+◌, ◌*◌, ◌/◌, ◌%◌, ◌^◌, Bool, true, false, Option, none, some, List, [], ◌∷◌, ◌++◌,
  map, String, if◌then◌else◌, str_eq, append_text, ltb, length,
}
use pred_sx.Base.Dict.{Dict, lookup, insert}
use pred_sx.Base.Decimal.{itoa}
use pred_sx.Number.{Arith}
use pred_sx.Event.{TradeEvent}

abbrev pub second : ℕ
second = 1_000_000_000

abbrev pub minute : ℕ
minute = 60_000_000_000

-- `open` is a word of the language: the opening price is `open_price`.
pub record MetricBucket (F : Type 0) : Type 0 where
  pub market_id : String
  pub window : ℕ
  pub trade_count : ℕ
  pub volume : F
  pub price_sum_wt : F
  pub open_price : F
  pub high : F
  pub low : F
  pub close : F

pub window_of : ℕ → ℕ → ℕ
window_of d timestamp = timestamp / d * d

module _ {F : Type 0} (a : Arith F) where
  -- `fmt.Sprintf("%s:%d", trade.MarketID, window.Unix())`
  pub bucket_key : ℕ → TradeEvent F → String
  unfolding window_of
  bucket_key d trade =
      append_text trade.market_id (append_text ":" (itoa (window_of d trade.timestamp / second)))

  pub new_bucket : ℕ → TradeEvent F → MetricBucket F
  unfolding window_of
  new_bucket d trade = record {
    market_id = trade.market_id;
    window = window_of d trade.timestamp;
    trade_count = 0;
    volume = a.lit 0 0;
    price_sum_wt = a.lit 0 0;
    open_price = trade.price;
    high = trade.price;
    low = trade.price;
    close = a.lit 0 0;
  }

  -- The statements after the bucket is found. `TradeCount` is a uint32.
  pub absorb : MetricBucket F → TradeEvent F → MetricBucket F
  absorb b trade = record b {
    trade_count = (b.trade_count + 1) % 2 ^ 32;
    volume = a.add b.volume trade.size;
    price_sum_wt = a.add b.price_sum_wt (a.mul trade.price trade.size);
    high = if a.lt b.high trade.price then trade.price else b.high;
    low = if a.lt trade.price b.low then trade.price else b.low;
    close = trade.price;
  }

  pub found_or_new : ℕ → TradeEvent F → Option (MetricBucket F) → MetricBucket F
  unfolding new_bucket
  found_or_new d trade none = new_bucket d trade
  found_or_new d trade (some b) = b

  -- `updateBucket`
  pub update_bucket : ℕ → Dict (MetricBucket F) → TradeEvent F → Dict (MetricBucket F)
  unfolding absorb found_or_new
  update_bucket d m trade =
      insert (bucket_key d trade)
        (absorb (found_or_new d trade (lookup (bucket_key d trade) m)) trade) m

  -- The trades that the consumer fetched since a flush, in order.
  pub update_buckets : ℕ → Dict (MetricBucket F) → List (TradeEvent F) → Dict (MetricBucket F)
  unfolding update_bucket
  update_buckets d m [] = m
  update_buckets d m (trade ∷ trades) = update_buckets d (update_bucket d m trade) trades
