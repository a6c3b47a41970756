-- ===== src/Router.antt =====
-- The routes of predsx/services/api/main.go, each with the middleware of its subrouter, and how a
-- request goes through the middleware of gorilla/mux: that of the router first, then that of the
-- subrouter, and none where no route matches. Which route a request matches is mux's choice.
pub mod Guarded
pub mod Server
mod Tests
use pred_sx.Base.{
  ℕ, Bool, true, false, Option, none, some, List, [], ◌∷◌, ◌++◌, String, if◌then◌else◌,
}
use pred_sx.Base.Dict.{Dict}
use pred_sx.Http.{Request}
use pred_sx.Middleware.{Verdict, passed_on, answered, cors, security_headers, debug_auth}
use pred_sx.RateLimit.{Answer, failed_open, passed, refused}

pub data Handler : Type 0 where
  health : Handler
  metrics : Handler
  stream : Handler
  graphql : Handler
  debug_markets : Handler
  debug_market : Handler
  debug_trades : Handler
  debug_orderbook : Handler
  debug_signals : Handler
  debug_signals_by_market : Handler
  markets : Handler
  search_markets : Handler
  top_markets : Handler
  batch_prices : Handler
  events : Handler
  market : Handler
  orderbook : Handler
  price : Handler
  price_history : Handler
  market_trades : Handler
  market_summary : Handler
  market_stats : Handler
  candles : Handler
  market_positions : Handler
  related_markets : Handler
  positions : Handler
  closed_positions : Handler
  signals_by_market : Handler

-- The middleware that a route has besides that of the router.
pub data Gate : Type 0 where
  token_gate : Gate
  rate_gate : Gate

pub record Route : Type 0 where
  pub path : String
  pub method : Option String
  pub gates : List Gate
  pub handler : Handler

abbrev get_only : String → List Gate → Handler → Route
get_only p gs h = record { path = p; method = some "GET"; gates = gs; handler = h }

abbrev any_method : String → List Gate → Handler → Route
any_method p gs h = record { path = p; method = none; gates = gs; handler = h }

abbrev debug : String → Handler → Route
debug p h = get_only p (token_gate ∷ []) h

abbrev api : String → Handler → Route
api p h = get_only p (rate_gate ∷ []) h

-- The routes in the order in which they are registered.
pub routes : List Route
routes =
    get_only "/health" [] health
    ∷ any_method "/metrics" (token_gate ∷ []) metrics
    ∷ any_method "/stream" [] stream
    ∷ debug "/debug/markets" debug_markets
    ∷ debug "/debug/markets/{id}" debug_market
    ∷ debug "/debug/trades" debug_trades
    ∷ debug "/debug/orderbook/{id}" debug_orderbook
    ∷ debug "/debug/signals" debug_signals
    ∷ debug "/debug/signals/{id}" debug_signals_by_market
    ∷ api "/v1/markets" markets
    ∷ api "/v1/markets/search" search_markets
    ∷ api "/v1/markets/top" top_markets
    ∷ api "/v1/prices" batch_prices
    ∷ api "/v1/events" events
    ∷ api "/v1/markets/{id}" market
    ∷ api "/v1/markets/{id}/orderbook" orderbook
    ∷ api "/v1/markets/{id}/price" price
    ∷ api "/v1/markets/{id}/price-history" price_history
    ∷ api "/v1/markets/{id}/trades" market_trades
    ∷ api "/v1/markets/{id}/summary" market_summary
    ∷ api "/v1/markets/{id}/stats" market_stats
    ∷ api "/v1/markets/{id}/candles" candles
    ∷ api "/v1/markets/{id}/positions" market_positions
    ∷ api "/v1/markets/{id}/related" related_markets
    ∷ api "/v1/positions" positions
    ∷ api "/v1/positions/closed" closed_positions
    ∷ api "/v1/markets/{id}/signals" signals_by_market
    ∷ record { path = "/graphql"; method = some "POST"; gates = []; handler = graphql }
    ∷ []

-- What comes of a request: no route, an answer of some middleware, or a handler is called.
pub data Result : Type 0 where
  unmatched : Result
  replied : ℕ → String → Result
  called : Handler → Result

abbrev on_answer : Answer → Verdict
on_answer failed_open = passed_on
on_answer (passed remaining) = passed_on
on_answer refused = answered 429 "{\"error\":\"rate limit exceeded\",\"retry_after\":\"60s\"}"

module _ (origins token : String) (limit : Answer) (r : Request) where
  pub gate : Gate → Verdict
  gate token_gate = debug_auth token r
  gate rate_gate = on_answer limit

  pub through : List Gate → Handler → Result
  unfolding gate
  through [] h = called h
  through (g ∷ gs) h = elim (gate g) [
    | answered status text ↦ replied status text
    | passed_on ↦ through gs h
  ]

  -- The headers that the middleware of the router sets, and what comes of the request.
  pub serve : Option Route → Dict String × Result
  unfolding through
  serve none = ([], unmatched)
  serve (some route) = elim (cors origins r).1 [
    | answered status text ↦ ((cors origins r).0, replied status text)
    | passed_on ↦ ((cors origins r).0 ++ security_headers, through route.gates route.handler)
  ]
