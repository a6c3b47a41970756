-- ===== src/Signal/Alert.antt =====
-- The signals that the analyzer publishes.
use pred_sx.Base.{
  ℕ, ◌≡◌, refl, Bool, true, false, ◌⊎◌, inl, inr, List, [], ◌∷◌, String, if◌then◌else◌, is_empty,
}
use pred_sx.Base.Dict.{Dict}
use pred_sx.Number.{Arith}
use pred_sx.Json.{Json}
use pred_sx.Event.{
  TradeEvent, OrderbookUpdate, OnChainTradeEvent, SignalEvent, signal_is_valid, generate_event_id,
}
use pred_sx.Signal.{
  Effect, publish, set, signal_of, emit_signal, on_trade, on_orderbook, on_chain_trade,
}

module _ {F : Type 0} (a : Arith F) where
  -- A signal that the schema accepts, under the key of its market, past its threshold.
  pub record IsAlert (key : String) (s : SignalEvent F) : Type 0 where
    pub own_market : key ≡ s.market_id
    pub accepted : signal_is_valid s ≡ true
    pub exceeds : (a.lt s.threshold s.value ≡ true) ⊎ (a.lt s.threshold (a.abs s.value) ≡ true)

  abbrev pub AllAlerts : List (Effect F) → Type 0
  AllAlerts [] = Unit
  AllAlerts (publish key s ∷ es) = IsAlert key s × AllAlerts es
  AllAlerts (set key value ∷ es) = AllAlerts es

  -- What the three consumers fetch.
  pub data Input : Type 0 where
    trade : TradeEvent F → Input
    orderbook : OrderbookUpdate → Input
    on_chain : OnChainTradeEvent → Input

  abbrev pub HasMarket : Input → Type 0
  HasMarket (trade t) = is_empty t.market_id ≡ false
  HasMarket (orderbook ob) = is_empty ob.market_id ≡ false
  HasMarket (on_chain e) = Unit

  module _ (hash : String → String) (to_json : SignalEvent F → String) (get : String → String)
      (now later : ℕ) where
    pub handle : Input → List (Effect F)
    unfolding on_trade on_orderbook on_chain_trade
    handle (trade t) = on_trade a hash to_json now later get t
    handle (orderbook ob) = on_orderbook a hash to_json now later ob
    handle (on_chain e) = on_chain_trade a hash to_json now later e

    abbrev pub IsDigest : Type 0
    IsDigest = (text : String) → is_empty (hash text) ≡ false

    guarded-AllAlerts :
        (test : Bool) (market token signal_type : String) (value threshold : F) (severity : String)
        (details : Dict (Json F))
        → IsDigest
        → is_empty market ≡ false
        → is_empty signal_type ≡ false
        → (test ≡ true → (a.lt threshold value ≡ true) ⊎ (a.lt threshold (a.abs value) ≡ true))
        → AllAlerts (
            if test
            then emit_signal a hash to_json now later market token signal_type value threshold
                severity details
            else [])
    unfolding emit_signal signal_of signal_is_valid generate_event_id
    guarded-AllAlerts false market token signal_type value threshold severity details d known named
          past =
        tt
    guarded-AllAlerts true market token signal_type value threshold severity details d known named
          past =
        (
          record { own_market = refl; accepted = rw (d _, known, named) refl; exceeds = past refl },
          tt,
        )

    -- Whatever the analyzer fetches, with a market where it is a trade or an order book: each
    -- signal that it publishes is one that the schema accepts, its key is its market, and its
    -- value, or the value without its sign, is past the threshold that it names.
    pub handle-AllAlerts : (i : Input) → IsDigest → HasMarket i → AllAlerts (handle i)
    unfolding handle on_trade on_orderbook on_chain_trade
    handle-AllAlerts (trade t) d known =
        guarded-AllAlerts _ _ _ "momentum" _ _ _ _ d known refl (λ h. inl h)
    handle-AllAlerts (orderbook ob) d known =
        guarded-AllAlerts _ _ _ "orderbook_imbalance" _ _ _ _ d known refl (λ h. inr h)
    handle-AllAlerts (on_chain e) d known =
        guarded-AllAlerts _ "ONCHAIN" _ "whale_alert" _ _ _ _ d refl refl (λ h. inl h)
