-- ===== src/Price/Tests.antt =====
-- Runs of the price engine, and the theorems about it at concrete inputs.
use pred_sx.Base.{ℕ, ◌+◌, ◌≡◌, List, [], ◌∷◌, String, arith}
use pred_sx.Base.Dict.{lookup}
use pred_sx.Number.Integers.{ℤ, pos, integers}
use pred_sx.Event.{TradeEvent, OrderbookUpdate}
use pred_sx.Price.{Event, day, state_of, run}
use pred_sx.Price.Since.{IsExact, since}
use pred_sx.Price.Window.{history, last_trade, run-since}

abbrev trade_of : String → ℕ → TradeEvent ℤ
trade_of market price = record {
  trade_id = "id";
  token = "t";
  market_id = market;
  price = pos price;
  size = pos 2;
  side = "buy";
  timestamp = 0;
  version = "";
}

abbrev quotes : OrderbookUpdate
quotes = record {
  token = "t";
  market_id = "m";
  bids = [];
  asks = [];
  best_bid = "40";
  best_ask = "60";
  timestamp = 0;
  version = "";
}

-- The first trade is older than a day when the third comes.
abbrev events : List (Event ℤ)
events =
    Event.trade 1 1 (trade_of "m" 5)
    ∷ Event.trade 9 9 (trade_of "n" 7)
    ∷ Event.orderbook 10 quotes
    ∷ Event.trade (day + 5) (day + 5) (trade_of "m" 6)
    ∷ []

integers-IsExact : IsExact integers
integers-IsExact = record {
  add_assoc = λ x y z. ground arith;
  zero-add = λ x. ground arith;
  add-zero = λ x. ground arith;
  sub-add = λ x y. ground arith;
}

run-since_example :
    (state_of integers (lookup "m" (run integers events []).0)).trades
    ≡ record { ts = day + 5; val = pos 12 } ∷ []
unfolding since history last_trade
run-since_example = run-since integers "m" events (omega arith)
