-- ===== src/Backtester.antt =====
-- The backtester of predsx/services/processor/main.go: `startBacktesterAPI`, one route with a
-- constant answer.
use pred_sx.Base.{Option, none, some, [], ◌∷◌, String, append_text, str_eq, ◌&&◌, if◌then◌else◌}
use pred_sx.Base.Dict.{Dict}
use pred_sx.Base.Names.{contains}
use pred_sx.Config.{get_env}

pub record BacktestAnswer : Type 0 where
  pub content_type : String
  pub body : String

pub backtest_addr : Dict String → String
backtest_addr env = append_text ":" (get_env env "BACKTEST_PORT" "8082")

-- The handler of the route.
pub run_backtest : BacktestAnswer
run_backtest = record {
  content_type = "application/json";
  body = "{\"status\":\"active\",\"engine\":\"processor-hub\"}";
}

-- The answer to a request, where the route has its path and method.
pub answer_backtest : String → String → Option BacktestAnswer
unfolding run_backtest
answer_backtest path method =
    if str_eq path "/api/v1/backtest/run" && contains method ("POST" ∷ "OPTIONS" ∷ [])
    then some run_backtest
    else none
