-- ===== src/Storage.antt =====
-- The normalizer of predsx/services/storage/main.go: `processWebsocketEvent`, `normalizeBackfill`,
-- the buffer with its flush, `insertOrderbookSnapshot`, `persistMarketMetadata` and
-- `parsePayloadTimestamp`.
-- A time is a number of nanoseconds, 0 the zero time; the clock is read once for a message. Parameters: Redis, SHA-1 in hexadecimal,
-- `strings.ToLower`, the JSON of a trade, the text of a composite value, and the readers of a
-- decimal and of an RFC 3339 time.
pub mod Normalize
pub mod Buffer
pub mod Schema
pub mod Normalizer
mod Tests
use pred_sx.Base.{
  ℕ, zero, suc, ◌+◌, ◌*◌, Bool, true, false, ◌||◌, ◌&&◌, not, Option, none, some, List, [], ◌∷◌,
  ◌++◌, String, if◌then◌else◌, ltb, ◌==◌, str_eq, is_empty,
}
use pred_sx.Base.Decimal.{itoa}
use pred_sx.Number.{Arith}
use pred_sx.Json.{Json, Members, find, field, as_array, as_object, get_string, to_float, sprint}
use pred_sx.Event.{
  RawWebsocketEvent, TradeEvent, NormalizedEvent, HistoricalEvent, OrderbookUpdate,
  MarketDiscovered, PriceLevel, generate_event_id, version_v1,
}
use pred_sx.Orderbook.{resolve_canonical_market_id, market_keys, asset_keys}

-- What the handler of a message does, in order: `p.Publish`, the insertion into the table of
-- trades, and `onNormalized`.
pub data Effect (F : Type 0) : Type 0 where
  publish : String → TradeEvent F → Effect F
  insert_trade : TradeEvent F → Effect F
  normalized : NormalizedEvent → Effect F

-- `parsePayloadTimestamp`. `parse_int` is `strconv.ParseInt(raw, 10, 64)` of a number that is not
-- negative, in seconds or milliseconds.
pub parse_timestamp : (String → Option ℕ) → (String → Option ℕ) → (String → Option ℕ) → String → ℕ
parse_timestamp parse_int rfc3339_nano rfc3339 raw =
    if is_empty raw || str_eq raw "<nil>" then 0 else (elim (parse_int raw) [
      | some n ↦ if ltb 1_000_000_000_000 n then n * 1_000_000 else n * 1_000_000_000
      | none ↦ elim (rfc3339_nano raw) [
        | some ts ↦ ts
        | none ↦ elim (rfc3339 raw) [ some ts ↦ ts | none ↦ 0 ]
      ]
    ])

module _ {F : Type 0} (a : Arith F) where
  -- `size`, or `amount` where the size is 0.
  pub size_of : Members F → F
  size_of ms =
      let size = to_float a (field "size" ms) in
      if a.eq size (a.lit 0 0) then to_float a (field "amount" ms) else size

  abbrev pub is_positive : F → Bool
  is_positive x = a.lt (a.lit 0 0) x

  module _ (get : String → Option String) (hash : String → String) (to_lower : String → String)
      (to_json : TradeEvent F → String) where
    -- The effects for one trade.
    pub record_trade : TradeEvent F → String → List (Effect F)
    record_trade t payload =
        publish t.market_id t
        ∷ insert_trade t
        ∷ normalized (record {
          event_id = t.trade_id;
          market_id = t.market_id;
          event_type = "predsx.trades";
          payload = payload;
          metadata = [];
          timestamp = t.timestamp;
          version = "";
        })
        ∷ []

    abbrev pub or_resolved : Members F → String → String → String
    or_resolved payload token market_id =
        if is_empty market_id
        then resolve_canonical_market_id get (get_string payload market_keys) token
        else market_id

    -- A trade of a change with a price and a size, at a time.
    pub change_trade : Members F → String → String → F → F → ℕ → TradeEvent F
    change_trade change market_id token price size trade_time =
        let id = get_string change ("hash" ∷ "trade_id" ∷ []) in
        record {
          trade_id =
              if is_empty id
              then generate_event_id hash market_id (itoa trade_time) (a.show price) (a.show size)
                  token
              else id;
          token = token;
          market_id = market_id;
          price = price;
          size = size;
          side = to_lower (get_string change ("side" ∷ []));
          timestamp = trade_time;
          version = version_v1;
        }

    -- The rest of the round for a change, whose market is known or empty.
    pub on_change : ℕ → ℕ → Members F → String → String → List (Effect F)
    unfolding size_of change_trade record_trade
    on_change event_time now change market_id token =
        let price = to_float a (field "price" change) in
        let size = size_of change in
        let trade_time = if event_time == 0 then now else event_time in
        let t = change_trade change market_id token price size trade_time in
        if is_empty market_id
        then []
        else (if a.le price (a.lit 0 0) || a.le size (a.lit 0 0)
            then []
            else record_trade t (to_json t))

    -- The loop over the changes: the market that one change finds is kept for those after it.
    pub on_changes : ℕ → ℕ → Members F → String → List (Json F) → List (Effect F)
    unfolding on_change
    on_changes event_time now payload market_id [] = []
    on_changes event_time now payload market_id (item ∷ items) = elim (as_object item) [
      | none ↦ on_changes event_time now payload market_id items
      | some change ↦
          let token = get_string change asset_keys in
          let market_id' = or_resolved payload token market_id in
          on_change event_time now change market_id' token
          ++ on_changes event_time now payload market_id' items
    ]

    -- The branch for a single trade.
    pub on_single : ℕ → String → Members F → String → List (Effect F)
    unfolding size_of record_trade
    on_single now market_id payload bytes =
        let price = to_float a (field "price" payload) in
        let size = size_of payload in
        if is_positive price && is_positive size
        then record_trade
            (record {
              trade_id =
                  generate_event_id hash market_id (itoa now) (a.show price) (a.show size) "ws";
              token = get_string payload ("asset_id" ∷ "asset" ∷ []);
              market_id = market_id;
              price = price;
              size = size;
              side = to_lower (get_string payload ("side" ∷ []));
              timestamp = now;
              version = version_v1;
            })
            bytes
        else []

    pub on_trades : ℕ → ℕ → String → Members F → String → Option (List (Json F)) → List (Effect F)
    unfolding on_changes on_single
    on_trades event_time now market_id payload bytes (some (item ∷ items)) =
        on_changes event_time now payload market_id (item ∷ items)
    on_trades event_time now market_id payload bytes _ = on_single now market_id payload bytes

    -- `processWebsocketEvent` for a decoded payload. `timestamp` reads the member of that name.
    pub process_websocket_event : (Json F → ℕ) → ℕ → Members F → String → List (Effect F)
    unfolding on_trades
    process_websocket_event timestamp now payload bytes =
        let event_type = get_string payload ("event_type" ∷ "type" ∷ []) in
        let market_id = resolve_canonical_market_id get (get_string payload market_keys) "" in
        if not (str_eq event_type "last_trade_price") && not (str_eq event_type "price_change")
        then []
        else on_trades (timestamp (field "timestamp" payload)) now market_id payload bytes
            (as_array (field "price_changes" payload))

-- `normalizeBackfill`
pub normalize_backfill : (String → String) → ℕ → HistoricalEvent → NormalizedEvent
normalize_backfill hash now e =
    let ts = if e.timestamp == 0 then now else e.timestamp in
    record {
      event_id = generate_event_id hash e.market_id (itoa ts) "0" "0" "backfill";
      market_id = e.market_id;
      event_type = "predsx.trades.backfill";
      payload = e.payload;
      metadata = [];
      timestamp = ts;
      version = "";
    }

-- A row of the table `orderbook_history`.
pub record OrderbookRow (F : Type 0) : Type 0 where
  pub market_id : String
  pub token : String
  pub timestamp : ℕ
  pub best_bid : F
  pub best_ask : F
  pub mid : F
  pub spread : F
  pub bids : String
  pub asks : String

-- `insertOrderbookSnapshot`
pub orderbook_row :
    {F : Type 0} → Arith F → (List PriceLevel → String) → ℕ → OrderbookUpdate → OrderbookRow F
orderbook_row a levels_json now e =
    let bid = a.parse e.best_bid in
    let ask = a.parse e.best_ask in
    record {
      market_id = e.market_id;
      token = e.token;
      timestamp = now;
      best_bid = bid;
      best_ask = ask;
      mid =
          if a.lt (a.lit 0 0) bid && a.lt (a.lit 0 0) ask
          then a.div (a.add bid ask) (a.lit 2 0)
          else a.lit 0 0;
      spread = a.sub ask bid;
      bids = levels_json e.bids;
      asks = levels_json e.asks;
    }

-- The title that `persistMarketMetadata` stores.
pub stored_title : MarketDiscovered → String
stored_title e = if is_empty e.title then e.question else e.title

-- The buffer of events and the rows of `events_raw`.
pub record Store : Type 0 where
  pub buffer : List NormalizedEvent
  pub events_raw : List NormalizedEvent

pub empty_store : Store
empty_store = record { buffer = []; events_raw = [] }

pub append : NormalizedEvent → Store → Store
append e s = record s { buffer = s.buffer ++ e ∷ [] }

-- `flushBatch`, by whether `retry.Do` got the batch through.
pub flush_batch : Bool → List NormalizedEvent → List NormalizedEvent → List NormalizedEvent
flush_batch true batch rows = rows ++ batch
flush_batch false batch rows = rows

-- The ticker's case: a buffer with something in it is flushed, and dropped whatever came of it.
pub tick : Bool → Store → Store
unfolding flush_batch
tick ok s = elim s.buffer [
  | [] ↦ s
  | e ∷ es ↦ record { buffer = []; events_raw = flush_batch ok s.buffer s.events_raw }
]

-- What happens to the store: the goroutines append under the lock that the ticker takes.
pub data Event : Type 0 where
  appended : NormalizedEvent → Event
  ticked : Bool → Event

pub run : List Event → Store → Store
unfolding append tick
run [] s = s
run (appended e ∷ events) s = run events (append e s)
run (ticked ok ∷ events) s = run events (tick ok s)
