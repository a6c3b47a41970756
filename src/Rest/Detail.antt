-- ===== src/Rest/Detail.antt =====
-- One market: `fetchMarketStats`, `buildMarketDetail`, `GetMarket`, `GetMarketStats`,
-- `GetMarketSummary`, `GetOrderbook`, `GetPrice` and the handlers of signals of
-- predsx/services/api/handlers/rest.go. The clock is an argument, in nanoseconds.
use pred_sx.Base.{
  ℕ, ◌-◌, ◌/◌, true, false, not, Option, none, some, List, [], ◌∷◌, ◌++◌, String, if◌then◌else◌,
  str_eq, append_text, map,
}
use pred_sx.Base.Dict.{Dict}
use pred_sx.Number.{Arith}
use pred_sx.Json.{Json, Members, num, str, arr, obj, field, to_float}
use pred_sx.Rest.Backend.{Backend, word, instant, StatsRow, SignalRow}
use pred_sx.Rest.Params.{clock, get_query}
use pred_sx.Rest.Market.{
  value_at, with_members, first_row, get_text, get_object, get_market_metadata,
  build_market_summary,
}
use pred_sx.Rest.Reply.{
  Reply, failed, sent, verbatim, Outcome, of_map, items_of, object, scanned, whole, cached,
}
use pred_sx.Rest.Scan.{collect_signals}
use pred_sx.Rest.Query.{stats_query, signals_query}
use pred_sx.Rest.History.{day}
use pred_sx.Rest.Proxy.{Upstream, proxy_get, is_supported, unsupported}

module _ {F : Type 0} (a : Arith F) (b : Backend F) where
  -- What the variables hold before a row is scanned.
  abbrev no_stats : StatsRow F
  no_stats = record {
    volume = a.lit 0 0;
    trades = 0;
    open_price = a.lit 0 0;
    close_price = a.lit 0 0;
    low = a.lit 0 0;
    high = a.lit 0 0;
  }

  pub price_change_pct : StatsRow F → F
  price_change_pct r =
      if a.lt (a.lit 0 0) r.open_price
      then a.mul (a.div (a.sub r.close_price r.open_price) r.open_price) (a.lit 100 0)
      else a.lit 0 0

  pub stats_members : StatsRow F → List (String × Json F)
  unfolding price_change_pct
  stats_members r =
      ("volume_24h", num r.volume)
      ∷ ("trades_24h", whole a r.trades)
      ∷ ("open_price", num r.open_price)
      ∷ ("close_price", num r.close_price)
      ∷ ("low_24h", num r.low)
      ∷ ("high_24h", num r.high)
      ∷ ("price_change_pct", num (price_change_pct r))
      ∷ []

  -- `fetchMarketStats`
  pub fetch_market_stats : ℕ → String → String → Option (List (String × Json F))
  unfolding stats_members
  fetch_market_stats now market_id condition_id =
      let rows =
        b.stats_rows stats_query
          (word market_id ∷ word condition_id ∷ instant (clock (now - day)) ∷ []) in
      elim rows [
        | none ↦ none
        | some found ↦
            some (stats_members (elim (first_row (some found)) [ none ↦ no_stats | some r ↦ r ]))
      ]

  -- `buildMarketDetail`; `none` where the scan for signals is out of fuel.
  pub build_market_detail : ℕ → String → Dict String → Option (Members F)
  build_market_detail fuel market_id meta = elim (collect_signals a b fuel market_id "") [
    | none ↦ none
    | some signals ↦
        let raw : List (String × Json F) =
          elim (get_object a b (append_text "market:" (append_text market_id ":metadata_raw"))) [
            | none ↦ []
            | some ms ↦ ("metadata_raw", of_map ms) ∷ []
          ] in
        some (
          with_members (raw ++ ("signals", arr (items_of signals)) ∷ [])
            (build_market_summary a b market_id meta))
  ]

  -- `GetMarket` for a market that is known.
  pub known_market : ℕ → ℕ → String → Option (Reply F)
  unfolding build_market_detail fetch_market_stats
  known_market fuel now id =
      let meta = get_market_metadata a b id in
      elim (build_market_detail fuel id meta) [
        | none ↦ none
        | some resp ↦
            let stats : List (String × Json F) =
              elim (fetch_market_stats now id (value_at "condition_id" meta)) [
                | none ↦ []
                | some fields ↦ ("stats_24h", object fields) ∷ []
              ] in
            some (sent (obj (with_members stats resp)))
      ]

  -- `GetMarket`
  pub get_market : Upstream → ℕ → ℕ → String → Dict String → Option (Reply F)
  unfolding known_market
  get_market u fuel now id query =
      let found = known_market fuel now id in
      let gamma = str_eq (b.to_lower (get_query query "source" "local")) "gamma" in
      if not (is_supported query) then some unsupported else (elim (b.is_member id) [
        | none ↦ some (failed 500 "redis error")
        | some true ↦ found
        | some false ↦ some (
            if gamma
            then proxy_get u u.gamma_url "/markets" (("id", id) ∷ []) query
            else failed 404 "market not found")
      ])

  -- `GetOrderbook` and `GetPrice`: what Redis holds, as it is.
  pub get_orderbook : String → Reply F
  get_orderbook id = elim (b.get (append_text "predsx:orderbook:" id)) [
    | none ↦ failed 404 "orderbook not found"
    | some body ↦ verbatim body
  ]

  pub get_price : String → Reply F
  get_price id = elim (b.get (append_text "live:price:" id)) [
    | none ↦ failed 404 "price not found"
    | some body ↦ verbatim body
  ]

  -- `GetMarketStats`
  pub get_market_stats : ℕ → String → Outcome F
  unfolding fetch_market_stats
  get_market_stats now id =
      let meta = get_market_metadata a b id in
      let stats : List (String × Json F) =
        elim (fetch_market_stats now id (value_at "condition_id" meta)) [
          | none ↦ []
          | some fields ↦ fields
        ] in
      cached a b (append_text "cache:stats:" id) 30
        (some (object (("market_id", str id) ∷ ("timestamp", whole a (now / 1_000_000)) ∷ stats)))

  pub summary_signal : SignalRow F → Json F
  summary_signal r = object (
      ("type", str r.kind)
      ∷ ("value", num r.value)
      ∷ ("severity", str r.severity)
      ∷ ("timestamp", whole a r.unix_milli)
      ∷ [])

  -- The best prices in the text of an order book.
  pub book_price : String → String → F
  book_price id key = elim (get_object a b (append_text "orderbook:" id)) [
    | none ↦ a.lit 0 0
    | some none ↦ a.lit 0 0
    | some (some ob) ↦ to_float a (field key ob)
  ]

  -- `GetMarketSummary`
  pub get_market_summary : ℕ → String → Outcome F
  unfolding summary_signal book_price
  get_market_summary now id =
      let meta = get_market_metadata a b id in
      let price : F = elim (get_text a b (append_text "price:" id)) [
        | none ↦ a.lit 0 0
        | some text ↦ b.scan_float text
      ] in
      let best_bid = book_price id "best_bid" in
      let best_ask = book_price id "best_ask" in
      let signals : List (Json F) = elim (b.signal_rows signals_query (word id ∷ [])) [
        | none ↦ []
        | some rows ↦ map summary_signal (scanned rows)
      ] in
      cached a b (append_text "cache:summary:" id) 10 (
        some (
          object (
            ("market_id", str id)
            ∷ ("condition_id", str (value_at "condition_id" meta))
            ∷ ("title", str (value_at "title" meta))
            ∷ ("price", num price)
            ∷ ("best_bid", num best_bid)
            ∷ ("best_ask", num best_ask)
            ∷ ("spread", num (a.sub best_ask best_bid))
            ∷ ("signals", arr (items_of signals))
            ∷ ("status", str (value_at "status" meta))
            ∷ ("timestamp", whole a (now / 1_000_000))
            ∷ [])))

  -- `GetDebugSignals` for the empty id, `GetDebugSignalsByMarket` and `GetSignalsByMarket`.
  pub get_signals : ℕ → String → Dict String → Option (Reply F)
  get_signals fuel id query = elim (collect_signals a b fuel id (get_query query "type" "")) [
    | none ↦ none
    | some signals ↦ some (sent (arr (items_of signals)))
  ]
