-- ===== src/Aggregator/Flush.antt =====
-- The flush loops: a tick takes the buckets away and writes them as rows, with retries.
-- ClickHouse is the parameter `send`: its answer to each attempt at a batch. `none` in place of it
-- is the client that could not be built at the start.
use pred_sx.Base.{
  ℕ, Bool, true, false, ◌||◌, ◌&&◌, Option, none, some, List, [], map, String, if◌then◌else◌,
  str_eq, ltb, length,
}
use pred_sx.Base.Dict.{Dict}
use pred_sx.Number.{Arith}
use pred_sx.Event.{TradeEvent}
use pred_sx.Retry.{Outcome, default_options, retry}
use pred_sx.Aggregator.{MetricBucket, second, minute, update_bucket}

-- The columns of `price_history_1m` and of `market_metrics`.
pub data Row (F : Type 0) : Type 0 where
  candle : String → ℕ → F → F → F → F → F → ℕ → Row F
  metric : String → ℕ → ℕ → F → F → Row F

pub record State (F : Type 0) : Type 0 where
  pub buckets : Dict (MetricBucket F)
  pub agg1m : Dict (MetricBucket F)

module _ {F : Type 0} (a : Arith F) where
  pub average : MetricBucket F → F
  average b = if a.lt (a.lit 0 0) b.volume then a.div b.price_sum_wt b.volume else a.lit 0 0

  pub row : Bool → MetricBucket F → Row F
  unfolding average
  row true b =
      Row.candle b.market_id b.window b.open_price b.high b.low b.close b.volume b.trade_count
  row false b = Row.metric b.market_id b.window b.trade_count b.volume (average b)

  pub is_candle_table : String → Bool
  is_candle_table table = str_eq table "price_history_1m" || str_eq table "price_history_1h"

  -- One row for each bucket that the loop over the map visits.
  pub rows : Bool → Dict (MetricBucket F) → List (Row F)
  unfolding row
  rows is_candle m = map (λ e. row is_candle e.1) m

  module _ {E : Type 0} (send : ℕ → String → List (Row F) → Option E) (done : ℕ → Bool) where
    -- `flushMetrics`: the outcome that it logs if it is an error.
    pub flush_metrics : Dict (MetricBucket F) → String → Outcome E
    unfolding rows is_candle_table
    flush_metrics m table =
        retry default_options (λ attempt. send attempt table (rows (is_candle_table table) m)) done

    -- `case <-ticker.C` of the two flush loops; `has_client` is `ch != nil`.
    pub tick_second : Bool → State F → State F × Option (Outcome E)
    tick_second has_client s = (
      record s { buckets = [] },
      (if ltb 0 (length s.buckets) && has_client
          then some (flush_metrics s.buckets "market_metrics")
          else none),
    )

    pub tick_minute : Bool → State F → State F × Option (Outcome E)
    tick_minute has_client s = (
      record s { agg1m = [] },
      (if ltb 0 (length s.agg1m) && has_client
          then some (flush_metrics s.agg1m "price_history_1m")
          else none),
    )

  -- A trade from the consumer; `none` is a failed fetch.
  pub on_trade : Option (TradeEvent F) → State F → State F
  on_trade none s = s
  on_trade (some trade) s = record s {
    buckets = update_bucket a second s.buckets trade;
    agg1m = update_bucket a minute s.agg1m trade;
  }
