-- ===== src/Aggregator/Tests.antt =====
-- Runs of the aggregator, and the theorems about it at concrete inputs.
use pred_sx.Base.{ℕ, ◌≡◌, refl, some, List, [], ◌∷◌, String}
use pred_sx.Base.Dict.{lookup, insert}
use pred_sx.Base.Decimal.{itoa}
use pred_sx.Number.Integers.{ℤ, pos, integers, integers-IsOrdered}
use pred_sx.Event.{TradeEvent}
use pred_sx.Aggregator.{minute, bucket_key, update_buckets}
use pred_sx.Aggregator.Candle.{Summary, trades_at, update_buckets-Summary}

abbrev trade : String → ℕ → ℕ → TradeEvent ℤ
trade market price timestamp = record {
  trade_id = "id";
  token = "t";
  market_id = market;
  price = pos price;
  size = pos 2;
  side = "buy";
  timestamp = timestamp;
  version = "";
}

abbrev trades : List (TradeEvent ℤ)
trades = trade "m" 5 1 ∷ trade "n" 9 2 ∷ trade "m" 3 7 ∷ trade "m" 4 8 ∷ []

update_buckets-Summary_example :
    Summary integers minute
      (lookup "m:0" (update_buckets integers minute [] trades))
      (trades_at integers minute "m:0" trades)
update_buckets-Summary_example =
    update_buckets-Summary integers integers-IsOrdered minute "m:0" trades

candle :
    lookup "m:0" (update_buckets integers minute [] trades)
    ≡ some (record {
      market_id = "m";
      window = 0;
      trade_count = 3;
      volume = pos 6;
      price_sum_wt = pos 24;
      open_price = pos 5;
      high = pos 5;
      low = pos 3;
      close = pos 4;
    })
unfolding update_buckets lookup insert itoa bucket_key
candle = refl
