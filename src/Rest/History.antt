-- ===== src/Rest/History.antt =====
-- Trades, prices and candles over time: `GetMarketTrades`, `GetMarketPriceHistory` and `GetCandles`
-- of predsx/services/api/handlers/rest.go. The clock is an argument, in nanoseconds.
use pred_sx.Base.{
  ℕ, ◌-◌, ◌*◌, Bool, not, Option, none, some, List, [], ◌∷◌, String, if◌then◌else◌, ◌==◌, str_eq,
  is_empty, map,
}
use pred_sx.Base.Dict.{Dict}
use pred_sx.Base.Text.{codes, Parsed, positive, negative, above, below, malformed, atoi}
use pred_sx.Number.{Arith}
use pred_sx.Json.{Json, num, str, arr, Members, obj, end}
use pred_sx.Rest.Backend.{Backend, TradeRow, HistoryRow, CandleRow}
use pred_sx.Rest.Params.{
  Instant, seconds, seconds_before, clock, get_query, parse_limit, parse_time_param,
}
use pred_sx.Rest.Market.{value_at, with_members, get_market_metadata}
use pred_sx.Rest.Reply.{Reply, sent, internal_error, items_of, object, scanned, whole}
use pred_sx.Rest.Query.{
  trades_query, range_args, history_query, is_hourly, candles_query, candles_args,
}
use pred_sx.Rest.Proxy.{Upstream, proxy_get, is_supported, unsupported, market_extra}

abbrev pub day : ℕ
day = 24 * 3_600_000_000_000

-- The time that a number of seconds stands for, if it is not the zero time of Go.
pub unix_time : Parsed → Option Instant
unix_time (positive n) = some (seconds n)
unix_time (negative n) = if n == 62_135_596_800 then none else some (seconds_before n)
unix_time above = none
unix_time below = none
unix_time malformed = none

pub candle_time : Dict String → String → ℕ → Instant
unfolding unix_time
candle_time query key default_time = elim (unix_time (atoi (codes (get_query query key "")))) [
  | none ↦ clock default_time
  | some t ↦ t
]

module _ {F : Type 0} (a : Arith F) (b : Backend F) (u : Upstream) where
  -- The two readers of RFC 3339 times.
  module _ (rfc3339 rfc3339_nano : String → Option ℕ) where
    abbrev time_in : Dict String → String → Option Instant
    time_in query key = parse_time_param rfc3339 rfc3339_nano (get_query query key "")

    unfoldable pub trade_members : String → TradeRow F → Members F
    trade_members id r =
        with_members
          (("trade_id", str r.trade_id)
            ∷ ("market_id", str id)
            ∷ ("price", num r.price)
            ∷ ("size", num r.size)
            ∷ ("side", str r.side)
            ∷ ("token", str r.token)
            ∷ ("timestamp", whole a r.unix_milli)
            ∷ [])
          end

    unfoldable pub trade_json : String → TradeRow F → Json F
    unfolding trade_members
    trade_json id r = obj (trade_members id r)

    pub local_trades : String → Dict String → Reply F
    unfolding trade_json
    local_trades id query =
        let limit = parse_limit (get_query query "limit" "") 100 5000 in
        let from = time_in query "from" in
        let to = time_in query "to" in
        let condition_id = value_at "condition_id" (get_market_metadata a b id) in
        elim (b.trade_rows (trades_query from to) (range_args id condition_id from to limit)) [
          | none ↦ internal_error
          | some rows ↦ sent (arr (items_of (map (trade_json id) (scanned rows))))
        ]

    -- `GetMarketTrades`
    pub get_market_trades : String → Dict String → Reply F
    unfolding local_trades
    get_market_trades id query =
        let source = b.to_lower (get_query query "source" "local") in
        let wallet = get_query query "wallet" "" in
        let from =
          if is_empty source then (if is_empty wallet then source else "data-api") else source in
        if not (is_supported query)
        then unsupported
        else (if str_eq from "data-api"
            then proxy_get u u.data_url "/trades" (market_extra id query) query
            else local_trades id query)

    pub history_json : HistoryRow F → Json F
    history_json r = object (
        ("timestamp", str (b.format_nano r.time))
        ∷ ("trade_count", whole a r.trade_count)
        ∷ ("volume", num r.volume)
        ∷ ("avg_price", num r.close)
        ∷ [])

    -- `GetMarketPriceHistory`
    pub get_market_price_history : String → Dict String → Reply F
    unfolding history_json
    get_market_price_history id query =
        let limit = parse_limit (get_query query "limit" "") 500 20000 in
        let from = time_in query "from" in
        let to = time_in query "to" in
        let resolution = b.to_lower (get_query query "resolution" "1m") in
        let condition_id = value_at "condition_id" (get_market_metadata a b id) in
        if not (is_supported query)
        then unsupported
        else (elim (b.history_rows (history_query resolution from to)
            (range_args id condition_id from to limit)) [
              | none ↦ internal_error
              | some rows ↦ sent (arr (items_of (map history_json (scanned rows))))
            ])

  -- The columns of the candles.
  pub candles_json : Bool → List (CandleRow F) → Json F
  candles_json hourly rows =
      let column = λ (f : CandleRow F → Json F). arr (items_of (map f rows)) in
      object (
        ("s", str "ok")
        ∷ ("t", column (λ r. whole a r.unix))
        ∷ ("o", column (λ r. num r.opened))
        ∷ ("h", column (λ r. num r.high))
        ∷ ("l", column (λ r. num r.low))
        ∷ ("c", column (λ r. num r.close))
        ∷ ("v", column (λ r. num r.volume))
        ∷ ("resolution", str (if hourly then "60" else "1"))
        ∷ [])

  -- `GetCandles`, with the text of an error of ClickHouse.
  pub get_candles : String → ℕ → String → Dict String → Reply F
  unfolding candle_time candles_json
  get_candles problem now id query =
      let hourly = is_hourly (get_query query "resolution" "1") in
      let from = candle_time query "from" (now - day) in
      let to = candle_time query "to" now in
      let limit = parse_limit (get_query query "limit" "") 1000 5000 in
      let condition_id = value_at "condition_id" (get_market_metadata a b id) in
      elim (b.candle_rows (candles_query hourly) (candles_args id condition_id from to limit)) [
        | none ↦ sent (object (("s", str "error") ∷ ("errmsg", str problem) ∷ []))
        | some rows ↦ sent (candles_json hourly (scanned rows))
      ]
