-- ===== src/Router/Tests.antt =====
-- A request with the token, and the theorem about the routes at it.
use pred_sx.Base.{refl, some, [], ◌∷◌}
use pred_sx.Base.Dict.{lookup}
use pred_sx.Http.{Request}
use pred_sx.RateLimit.{passed}
use pred_sx.Middleware.{cors, debug_auth}
use pred_sx.Router.{Route, debug_trades, token_gate, routes, gate, through, serve}
use pred_sx.Router.Guarded.{Guarded, serve-Guarded}

abbrev with_token : Request
with_token = record {
  method = "GET";
  headers = ("X-Debug-Token", "secret") ∷ [];
  query = [];
  remote_addr = "1.2.3.4:5";
}

abbrev trades_route : Route
trades_route = record {
  path = "/debug/trades";
  method = some "GET";
  gates = token_gate ∷ [];
  handler = debug_trades;
}

serve-Guarded_example : Guarded "" "secret" (passed 3) with_token debug_trades
unfolding routes serve through gate debug_auth cors lookup
serve-Guarded_example =
    serve-Guarded "" "secret" (passed 3) with_token 5 trades_route debug_trades refl refl
