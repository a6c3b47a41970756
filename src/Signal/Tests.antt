-- ===== src/Signal/Tests.antt =====
-- Trades and signals, and the theorems about the trade engine and the analyzer at them.
use pred_sx.Base.{
  ℕ, ◌+◌, ◌≡◌, refl, ap, Bool, true, arith, eq_iff, List, [], ◌∷◌, String, if◌then◌else◌, leb,
  str_eq,
}
use pred_sx.Number.Integers.{ℤ, pos, integers}
use pred_sx.Event.{TradeEvent, OrderbookUpdate, SignalEvent}
use pred_sx.Signal.{process_trades}
use pred_sx.Signal.Dedup.{IsSetNx, times, times-process_trades}
use pred_sx.Signal.Alert.{Input, AllAlerts, handle, handle-AllAlerts}

-- The time until which a key is there.
abbrev until : String → List (String × ℕ) → ℕ
until k [] = 0
until k ((j, time) ∷ r) = let rest = until k r in if str_eq j k then time else rest

abbrev set_nx : ℕ → String → ℕ → List (String × ℕ) → Bool × List (String × ℕ)
set_nx now k time r =
    (leb (until k r) now, (k, if leb (until k r) now then now + time else until k r) ∷ r)

same_key : (r : List (String × ℕ)) (k j : String) → str_eq k j ≡ true → until k r ≡ until j r
same_key r k j e = ap (λ i. until i r) ((eq_iff k j).0 e)

set_nx-IsSetNx : IsSetNx set_nx until
set_nx-IsSetNx = record {
  answer = λ now time k r. refl;
  state = λ now time j k r. ground (arith, same_key r k j);
}

abbrev trade_of : String → TradeEvent ℤ
trade_of id = record {
  trade_id = id;
  token = "t";
  market_id = "m";
  price = pos 5;
  size = pos 2;
  side = "buy";
  timestamp = 0;
  version = "";
}

-- The last one comes a day and 7 nanoseconds after the first.
abbrev trades : List (ℕ × TradeEvent ℤ)
trades =
    (5, trade_of "1")
    ∷ (6, trade_of "2")
    ∷ (9, trade_of "1")
    ∷ (86_400_000_000_012, trade_of "1")
    ∷ []

times-process_trades_example :
    times "trade:dedup:1" (process_trades set_nx trades []) ≡ 5 ∷ 86_400_000_000_012 ∷ []
times-process_trades_example =
    times-process_trades set_nx until "trade:dedup:1" trades [] set_nx-IsSetNx

abbrev lopsided : OrderbookUpdate
lopsided = record {
  token = "t";
  market_id = "m";
  bids = record { price = "4"; size = "9" } ∷ [];
  asks = [];
  best_bid = "4";
  best_ask = "";
  timestamp = 0;
  version = "";
}

abbrev digest : String → String
digest text = "0f"

abbrev json_of : SignalEvent ℤ → String
json_of s = s.signal_id

abbrev nothing_stored : String → String
nothing_stored key = ""

handle-AllAlerts_example :
    AllAlerts integers
      (handle integers digest json_of nothing_stored 7 8 (Input.orderbook lopsided))
handle-AllAlerts_example =
    handle-AllAlerts integers digest json_of nothing_stored 7 8 (Input.orderbook lopsided)
      (λ text. refl) refl
