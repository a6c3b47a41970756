-- ===== src/Storage/Normalize.antt =====
-- What `processWebsocketEvent` does for a message with price changes.
use pred_sx.Base.{
  ℕ, ◌≡◌, Bool, true, false, ◌||◌, Option, none, some, List, [], ◌∷◌, String, if◌then◌else◌, ◌==◌,
  is_empty, str_eq,
}
use pred_sx.Number.{Arith}
use pred_sx.Json.{Json, Members, get_string, field, to_float, as_object}
use pred_sx.Event.{TradeEvent, trade_is_valid}
use pred_sx.Orderbook.{resolve_canonical_market_id}
use pred_sx.Storage.{Effect, publish, insert_trade, normalized, change_trade}

module _ {F : Type 0} (a : Arith F) where
  -- The message is about trades.
  abbrev pub is_about_trades : Members F → Bool
  is_about_trades payload =
      let event_type = get_string payload ("event_type" ∷ "type" ∷ []) in
      str_eq event_type "last_trade_price" || str_eq event_type "price_change"

  -- The size of a change, or its amount where the size is 0.
  abbrev pub traded_size : Members F → F
  traded_size change =
      if a.eq (to_float a (field "size" change)) (a.lit 0 0)
      then to_float a (field "amount" change)
      else to_float a (field "size" change)

  -- A change whose price or size is 0 or below is idle: it is no trade.
  abbrev pub is_idle : Members F → Bool
  is_idle change =
      a.le (to_float a (field "price" change)) (a.lit 0 0) || a.le (traded_size change) (a.lit 0 0)

  module _ (get : String → Option String) (hash : String → String) (to_lower : String → String)
      (to_json : TradeEvent F → String) where
    -- The trade of a change in a market: the schema accepts it, and its time is the one of the
    -- message, or that of its arrival where the message has none.
    pub record IsTrade (event_time now : ℕ) (change : Members F) (market_id : String)
        (t : TradeEvent F) : Type 0 where
      pub accepted : trade_is_valid a t ≡ true
      pub market : t.market_id ≡ market_id
      pub token : t.token ≡ get_string change ("asset_id" ∷ "asset" ∷ "token" ∷ [])
      pub price : t.price ≡ to_float a (field "price" change)
      pub size : t.size ≡ traded_size change
      pub side : t.side ≡ to_lower (get_string change ("side" ∷ []))
      pub at : t.timestamp ≡ (if event_time == 0 then now else event_time)

    -- The market of a change: the one that is known, or else what Redis knows of the market of the
    -- message and the token of the change.
    abbrev pub market_for : Members F → Members F → String → String
    market_for payload change market_id =
        if is_empty market_id
        then resolve_canonical_market_id get
            (get_string payload ("market_id" ∷ "market" ∷ "condition_id" ∷ []))
            (get_string change ("asset_id" ∷ "asset" ∷ "token" ∷ []))
        else market_id

    -- What is done for some changes, from a market that is known or empty: for each one that is an
    -- object, has a market, and is not idle, its trade is published, inserted into the table of
    -- trades and handed on as an event; for any other one, nothing. A market that one finds is kept
    -- for those after it.
    pub data Recorded (payload : Members F) (event_time now : ℕ)
        : String → List (Json F) → List (Effect F) → Type 0 where
      done : {market_id : String} → Recorded payload event_time now market_id [] []
      no_object :
          {market_id : String} {item : Json F} {items : List (Json F)} {es : List (Effect F)}
          → as_object item ≡ none
          → Recorded payload event_time now market_id items es
          → Recorded payload event_time now market_id (item ∷ items) es
      passed :
          {market_id : String} {item : Json F} {items : List (Json F)} {es : List (Effect F)}
          → (change : Members F) → as_object item ≡ some change
          → (is_empty (market_for payload change market_id) || is_idle change) ≡ true
          → Recorded payload event_time now (market_for payload change market_id) items es
          → Recorded payload event_time now market_id (item ∷ items) es
      traded :
          {market_id : String} {item : Json F} {items : List (Json F)} {es : List (Effect F)}
          → (change : Members F) → as_object item ≡ some change
          → (is_empty (market_for payload change market_id) || is_idle change) ≡ false
          → (t : TradeEvent F)
          → IsTrade event_time now change (market_for payload change market_id) t
          → Recorded payload event_time now (market_for payload change market_id) items es
          → Recorded payload event_time now market_id (item ∷ items) (
              publish t.market_id t
              ∷ insert_trade t
              ∷ normalized (record {
                event_id = t.trade_id;
                market_id = t.market_id;
                event_type = "predsx.trades";
                payload = to_json t;
                metadata = [];
                timestamp = t.timestamp;
                version = "";
              })
              ∷ es)

    -- A digest is a text that is not empty.
    abbrev pub IsDigest : Type 0
    IsDigest = (text : String) → is_empty (hash text) ≡ false

    -- The trade that the round for a change makes.
    abbrev trade_at : ℕ → ℕ → Members F → String → TradeEvent F
    trade_at event_time now change market_id =
        change_trade a get hash to_lower to_json change market_id
          (get_string change ("asset_id" ∷ "asset" ∷ "token" ∷ []))
          (to_float a (field "price" change)) (traded_size change)
          (if event_time == 0 then now else event_time)
