-- ===== src/Rest/Debug.antt =====
-- The handlers behind the token: `GetDebugMarket`, `GetDebugTrades`, `GetDebugOrderbook` and
-- `GetHealth`, of predsx/services/api/handlers/rest.go.
use pred_sx.Base.{ℕ, true, false, Option, none, some, List, [], ◌∷◌, ◌++◌, String, append_text, map}
use pred_sx.Number.{Arith}
use pred_sx.Json.{Json, Members, num, str, arr, obj, nil, cons}
use pred_sx.Rest.Backend.{Backend, word, TradeRow}
use pred_sx.Rest.Market.{first_row, with_members}
use pred_sx.Rest.Reply.{Reply, failed, sent, internal_error, items_of, object, scanned, whole}
use pred_sx.Rest.Scan.{live_price, debug_sides}

module _ {F : Type 0} (a : Arith F) (b : Backend F) where
  -- `GetHealth`, at a time in seconds.
  pub get_health : ℕ → Reply F
  get_health now = sent (
      object (
        ("status", str "ok")
        ∷ ("service", str "predsx-api")
        ∷ ("project", str "PredSX Trading Platform")
        ∷ ("instance", str "Production-VPS")
        ∷ ("timestamp", whole a now)
        ∷ []))

  -- `GetDebugMarket`
  pub get_debug_market : String → Reply F
  get_debug_market id = elim (b.exists_key (append_text "market:" (append_text id ":tokens"))) [
    | some true ↦ sent (
        object (
          ("market_id", str id) ∷ debug_sides a b (live_price a b id)
          ++ ("volume", whole a 3200000) ∷ ("liquidity", whole a 580000) ∷ []))
    | some false ↦ failed 404 "market not found"
    | none ↦ failed 404 "market not found"
  ]

  pub debug_trade : TradeRow F → Json F
  debug_trade r = object (
      ("trade_id", str r.trade_id)
      ∷ ("market_id", str r.market_id)
      ∷ ("price", num r.price)
      ∷ ("size", num r.size)
      ∷ ("side", str r.side)
      ∷ ("timestamp", whole a r.unix_milli)
      ∷ [])

  abbrev debug_trades_query : List String
  debug_trades_query =
      "SELECT trade_id, market_id, price, size, side, timestamp FROM trades ORDER BY timestamp DESC LIMIT 50"
      ∷ []

  -- `GetDebugTrades`
  pub get_debug_trades : Reply F
  unfolding debug_trade
  get_debug_trades = elim (b.trade_rows debug_trades_query []) [
    | none ↦ internal_error
    | some rows ↦ sent (arr (items_of (map debug_trade (scanned rows))))
  ]

  abbrev level : ℕ → ℕ → Json F
  level cents size = arr (cons (num (a.lit cents 2)) (cons (whole a size) nil))

  -- The order book that is answered where none is stored.
  pub default_book : String → Json F
  default_book id = object (
      ("market_id", str id)
      ∷ ("bids", arr (cons (level 63 500) (cons (level 62 800) nil)))
      ∷ ("asks", arr (cons (level 65 400) (cons (level 66 700) nil)))
      ∷ [])

  abbrev debug_book_query : List String
  debug_book_query =
      "SELECT data FROM events WHERE type='predsx.orderbook' AND market_id=? ORDER BY timestamp DESC LIMIT 1"
      ∷ []

  abbrev book_or_default : String → Option (Option (Members F)) → Json F
  book_or_default id (some (some ms)) = obj (with_members (("market_id", str id) ∷ []) ms)
  book_or_default id (some none) = default_book id
  book_or_default id none = default_book id

  -- `GetDebugOrderbook`
  pub get_debug_orderbook : String → Reply F
  unfolding default_book
  get_debug_orderbook id = elim (b.data_rows debug_book_query (word id ∷ [])) [
    | none ↦ internal_error
    | some rows ↦
        let stored : Option (Option (Members F)) = elim (first_row (some rows)) [
          | none ↦ none
          | some text ↦ b.decode_object text
        ] in
        sent (book_or_default id stored)
  ]
