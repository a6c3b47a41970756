-- ===== src/Signal.antt =====
-- The trade engine and the analyzer of predsx/services/processor/main.go: `startTradeEngine`,
-- `startAnalyzerEngine`, `calculateImbalance` and `emitSignal`.
-- Redis is a parameter: a state with its `SetNX`, which takes the time and the expiration, and the
-- reads of the analyzer. Times are numbers of nanoseconds. SHA-1 and the JSON of a signal are parameters. `emitSignal` reads the clock twice.
pub mod Dedup
pub mod Alert
mod Tests
use pred_sx.Base.{
  ℕ, zero, suc, Bool, true, false, not, Option, none, some, List, [], ◌∷◌, ◌++◌, String,
  if◌then◌else◌, take, append_text,
}
use pred_sx.Base.Dict.{Dict}
use pred_sx.Base.Decimal.{itoa}
use pred_sx.Number.{Arith}
use pred_sx.Json.{Json, num, str}
use pred_sx.Event.{
  TradeEvent, PriceLevel, OrderbookUpdate, OnChainTradeEvent, SignalEvent, generate_event_id,
}

-- `trade:dedup:%s`
pub dedup_key : String → String
dedup_key trade_id = append_text "trade:dedup:" trade_id

-- `24*time.Hour`
abbrev dedup_time : ℕ
dedup_time = 86_400_000_000_000

-- The trades that get past the check for duplicates, of those fetched, each with the time of its
-- check. `set_nx now key expiration` is `SetNX`, whose dropped error leaves `false`.
pub process_trades :
    {F R : Type 0}
    → (ℕ → String → ℕ → R → Bool × R)
    → List (ℕ × TradeEvent F)
    → R
    → List (ℕ × TradeEvent F)
unfolding dedup_key
process_trades set_nx [] r = []
process_trades set_nx ((now, t) ∷ ts) r =
    let (set, r') = set_nx now (dedup_key t.trade_id) dedup_time r in
    let rest = process_trades set_nx ts r' in if not set then rest else (now, t) ∷ rest

-- What the analyzer does: `p.Publish` and `rdb.Set`.
pub data Effect (F : Type 0) : Type 0 where
  publish : String → SignalEvent F → Effect F
  set : String → String → Effect F

module _ {F : Type 0} (a : Arith F) where
  -- The sum of the sizes of the first 5 levels.
  pub sum_sizes : F → List PriceLevel → F
  sum_sizes volume [] = volume
  sum_sizes volume (level ∷ levels) = sum_sizes (a.add volume (a.parse level.size)) levels

  pub calculate_imbalance : List PriceLevel → List PriceLevel → F
  unfolding sum_sizes
  calculate_imbalance bids asks =
      let bid = sum_sizes (a.lit 0 0) (take 5 bids) in
      let ask = sum_sizes (a.lit 0 0) (take 5 asks) in
      if a.eq (a.add bid ask) (a.lit 0 0) then a.lit 0 0 else a.div (a.sub bid ask) (a.add bid ask)

  module _ (hash : String → String) (to_json : SignalEvent F → String) (now later : ℕ) where
    pub signal_of : String → String → String → F → F → String → Dict (Json F) → SignalEvent F
    signal_of market token signal_type value threshold severity details = record {
      signal_id =
          generate_event_id hash market (itoa now) (a.show_f value) (a.show_f threshold)
            signal_type;
      market_id = market;
      token = token;
      signal_type = signal_type;
      value = value;
      threshold = threshold;
      severity = severity;
      details = details;
      timestamp = later;
      version = "";
    }

    pub emit_signal : String → String → String → F → F → String → Dict (Json F) → List (Effect F)
    unfolding signal_of
    emit_signal market token signal_type value threshold severity details =
        let s = signal_of market token signal_type value threshold severity details in
        publish market s
        ∷ set (append_text "signal:latest:" (append_text market (append_text ":" signal_type)))
            (to_json s)
        ∷ []

    abbrev pub ema_key : String → String
    ema_key market = append_text "signal:ema:" (append_text market ":price")

    pub next_ema : F → F → F
    next_ema price prev =
        let prev' = if a.eq prev (a.lit 0 0) then price else prev in
        let alpha = a.lit 2 1 in a.add (a.mul alpha price) (a.mul (a.sub (a.lit 1 0) alpha) prev')

    -- A trade; `get` reads Redis, the empty text for a key that is missing.
    pub on_trade : (String → String) → TradeEvent F → List (Effect F)
    unfolding next_ema emit_signal
    on_trade get trade =
        let ema = next_ema trade.price (a.parse (get (ema_key trade.market_id))) in
        let momentum = a.div (a.sub trade.price ema) ema in
        let signal =
          emit_signal trade.market_id trade.token "momentum" (a.abs momentum) (a.lit 5 2) "medium"
            (("price", num trade.price) ∷ ("ema", num ema) ∷ ("momentum", num momentum) ∷ []) in
        set (ema_key trade.market_id) (a.show_f ema)
        ∷ (if a.lt (a.lit 5 2) (a.abs momentum) then signal else [])

    pub on_orderbook : OrderbookUpdate → List (Effect F)
    unfolding calculate_imbalance emit_signal
    on_orderbook ob =
        let imbalance = calculate_imbalance ob.bids ob.asks in
        let signal =
          emit_signal ob.market_id ob.token "orderbook_imbalance" imbalance (a.lit 35 2) "medium"
            (("imbalance", num imbalance) ∷ []) in
        if a.lt (a.lit 35 2) (a.abs imbalance) then signal else []

    pub on_chain_trade : OnChainTradeEvent → List (Effect F)
    unfolding emit_signal
    on_chain_trade e =
        let amount = a.div (a.parse e.amount) (a.lit 1_000_000 0) in
        let signal = emit_signal "ONCHAIN" e.token_id "whale_alert" amount (a.lit 10_000 0) "high" (
          ("tx", str e.tx_hash)
          ∷ ("maker", str e.maker)
          ∷ ("taker", str e.taker)
          ∷ ("amount", num amount)
          ∷ []) in
        if a.lt (a.lit 10_000 0) amount then signal else []
