-- ===== src/Orderbook.antt =====
-- The order book engine: `Orderbook`, `startOrderbookEngine`, `applyLevels`, `getTopLevels`,
-- `getString` and `resolveCanonicalMarketID` of predsx/services/processor/main.go.
-- The books are a map from "market:token"; Redis reads are the function `get`, `none` for an error
-- or a missing key. A message that does not decode is `none`. The engine's own goroutine is the
-- only one that holds a book, so its two mutexes change nothing.
pub mod Levels
pub mod Sort
pub mod Top
pub mod Engine
mod Tests
use pred_sx.Base.{
  ℕ, zero, suc, ◌≡◌, Bool, true, false, not, ◌&&◌, ◌||◌, Option, none, some, List, [], ◌∷◌, ◌++◌,
  map, String, if◌then◌else◌, str_eq, is_empty, append_text, take, ltb, length,
}
use pred_sx.Base.Dict.{Dict, lookup, insert, delete, keys}
use pred_sx.Number.{Arith}
use pred_sx.Json.{Json, Members, find, field, to_list, get_string, as_array, as_object, sprint}
use pred_sx.Event.{PriceLevel, OrderbookUpdate, version_v1}

pub record Orderbook : Type 0 where
  pub market_id : String
  pub token : String
  pub bids : Dict String
  pub asks : Dict String

-- What the engine sends out: `Publish` to Kafka, and `Set` of a Redis key for two hours.
pub data Effect : Type 0 where
  publish : String → OrderbookUpdate → Effect
  cache : String → OrderbookUpdate → Effect

abbrev pub market_keys : List String
market_keys = "market_id" ∷ "market" ∷ "condition_id" ∷ []

abbrev pub asset_keys : List String
asset_keys = "asset_id" ∷ "asset" ∷ "token" ∷ []

abbrev pub non_empty : Option String → Option String
non_empty none = none
non_empty (some id) = if is_empty id then none else some id

-- `resolveCanonicalMarketID`; predsx/services/storage/main.go has the same text.
unfoldable pub resolve_canonical_market_id : (String → Option String) → String → String → String
resolve_canonical_market_id get market_ref token =
    let by_condition =
      if is_empty market_ref
      then none
      else non_empty (get (append_text "condition:" (append_text market_ref ":market_id"))) in
    let by_token =
      if is_empty token
      then none
      else non_empty (get (append_text "token:" (append_text token ":market_id"))) in
    elim by_condition [ some id ↦ id | none ↦ elim by_token [ some id ↦ id | none ↦ market_ref ] ]

-- A size that removes its level.
abbrev pub is_zero_size : String → Bool
is_zero_size size = str_eq size "0" || str_eq size "0.0"

-- One round of the loop of `applyLevels`: the new size of a price, or its removal.
pub set_level : String → String → Dict String → Dict String
set_level price size levels =
    if is_zero_size size then delete price levels else insert price size levels

-- `m[k]` of a map of texts.
pub size_at : Dict String → String → String
size_at m k = elim (lookup k m) [ none ↦ "" | some size ↦ size ]

-- The comparison that `getTopLevels` hands to `sort.Slice`.
pub better : {F : Type 0} → Arith F → Bool → String → String → Bool
better a desc left right =
    if desc then a.lt (a.parse right) (a.parse left) else a.lt (a.parse left) (a.parse right)

abbrev pub first_price : List PriceLevel → String
first_price [] = ""
first_price (level ∷ levels) = level.price

-- The book of a key, made if it is missing.
abbrev pub new_book : String → String → Option Orderbook → Orderbook
new_book market token none = record { market_id = market; token = token; bids = []; asks = [] }
new_book market token (some ob) = ob

abbrev pub send_out : OrderbookUpdate → List Effect
send_out update =
    Effect.publish update.market_id update
    ∷ Effect.cache (append_text "predsx:orderbook:" update.market_id) update
    ∷ []

-- No text, or the text of nil.
abbrev pub is_missing : String → Bool
is_missing s = is_empty s || str_eq s "<nil>"

module _ {F : Type 0} (a : Arith F) (composite : Json F → String) where
  -- A level is an array of a price and a size at least; anything else is passed over.
  pub read_level : Json F → Option (String × String)
  read_level v = elim (as_array v) [
    | some (price ∷ size ∷ rest) ↦ some (sprint a composite price, sprint a composite size)
    | _ ↦ none
  ]

  pub apply_each : List (Json F) → Dict String → Dict String
  unfolding set_level read_level
  apply_each [] levels = levels
  apply_each (v ∷ vs) levels =
      apply_each vs
        (elim (read_level v) [ none ↦ levels | some (price, size) ↦ set_level price size levels ])

  -- `applyLevels`
  pub apply_levels : Json F → Dict String → Dict String
  unfolding apply_each
  apply_levels v levels = elim (as_array v) [ none ↦ levels | some vs ↦ apply_each vs levels ]

  -- A whole snapshot empties both sides first; a delta does not.
  pub apply_book : Members F → Orderbook → Orderbook
  unfolding apply_levels
  apply_book payload ob =
      let event_type = get_string payload ("event_type" ∷ "type" ∷ []) in
      let clear = str_eq event_type "book" || str_eq event_type "snapshot" in
      record ob {
        bids = apply_levels (field "bids" payload) (if clear then [] else ob.bids);
        asks = apply_levels (field "asks" payload) (if clear then [] else ob.asks);
      }

  -- One element of `price_changes` once its market and token are known: an update with the best
  -- prices alone, and no book.
  pub on_priced : ℕ → String → String → Members F → List Effect
  on_priced now market token change =
      let best_bid = sprint a composite (field "best_bid" change) in
      let best_ask = sprint a composite (field "best_ask" change) in
      let raw_size = sprint a composite (field "size" change) in
      let size = if is_missing raw_size then "0" else raw_size in
      if is_empty market || is_empty token
      then []
      else if is_missing best_bid && is_missing best_ask
      then []
      else send_out (record {
        token = token;
        market_id = market;
        bids = if is_missing best_bid then [] else record { price = best_bid; size = size } ∷ [];
        asks = if is_missing best_ask then [] else record { price = best_ask; size = size } ∷ [];
        best_bid = best_bid;
        best_ask = best_ask;
        timestamp = now;
        version = version_v1;
      })

  module _ (get : String → Option String) (now : ℕ) where
    pub on_change : String → Json F → List Effect
    unfolding on_priced
    on_change market_ref item = elim (as_object item) [
      | none ↦ []
      | some change ↦
          let token = get_string change asset_keys in
          on_priced now (resolve_canonical_market_id get market_ref token) token change
    ]

    -- The loop over `price_changes`.
    pub on_changes : String → List (Json F) → List Effect
    unfolding on_change
    on_changes market_ref [] = []
    on_changes market_ref (item ∷ items) = on_change market_ref item ++ on_changes market_ref items

  module _ (sort : (String → String → Bool) → List String → List String) where
    -- `getTopLevels`: the sorting function covers the order in which the map is visited.
    pub get_top_levels : Dict String → Bool → ℕ → List PriceLevel
    unfolding better size_at
    get_top_levels m desc limit =
        map (λ k. record { price = k; size = size_at m k })
          (take limit (sort (better a desc) (keys m)))

    -- The update that a book gives.
    pub book_update : ℕ → String → String → Orderbook → OrderbookUpdate
    unfolding get_top_levels
    book_update now market token ob =
        let bids = get_top_levels ob.bids true 10 in
        let asks = get_top_levels ob.asks false 10 in
        record {
          token = token;
          market_id = market;
          bids = bids;
          asks = asks;
          best_bid = first_price bids;
          best_ask = first_price asks;
          timestamp = now;
          version = version_v1;
        }

    -- A message about one book, once its market and token are known.
    pub on_named : ℕ → String → String → Members F → Dict Orderbook → Dict Orderbook × List Effect
    unfolding apply_book book_update
    on_named now market token payload obs =
        let key = append_text market (append_text ":" token) in
        let ob = apply_book payload (new_book market token (lookup key obs)) in
        if is_empty market || is_empty token
        then (obs, [])
        else (insert key ob obs, send_out (book_update now market token ob))

    module _ (get : String → Option String) (now : ℕ) where
      pub on_book : Members F → Dict Orderbook → Dict Orderbook × List Effect
      unfolding on_named
      on_book payload obs =
          let token = get_string payload asset_keys in
          on_named now (resolve_canonical_market_id get (get_string payload market_keys) token)
            token payload obs

      -- The branch on `payload["price_changes"]`, an array with something in it or not.
      pub on_payload :
          Option (List (Json F)) → Members F → Dict Orderbook → Dict Orderbook × List Effect
      unfolding on_book on_changes
      on_payload (some (item ∷ items)) payload obs =
          (obs, on_changes get now (get_string payload market_keys) (item ∷ items))
      on_payload _ payload obs = on_book payload obs

      -- The body of the engine's loop: `none` is a fetch that failed or a payload that is no object.
      pub on_raw : Option (Members F) → Dict Orderbook → Dict Orderbook × List Effect
      unfolding on_payload
      on_raw none obs = (obs, [])
      on_raw (some payload) obs = on_payload (as_array (field "price_changes" payload)) payload obs

-- A message with what the engine finds around it: Redis and the clock.
pub record Message (F : Type 0) : Type 0 where
  pub payload : Option (Members F)
  pub get : String → Option String
  pub now : ℕ

module _ {F : Type 0} (a : Arith F) (composite : Json F → String)
    (sort : (String → String → Bool) → List String → List String) where
  -- The engine's loop over the messages that it fetches.
  pub run : List (Message F) → Dict Orderbook → Dict Orderbook × List Effect
  unfolding on_raw
  run [] obs = (obs, [])
  run (m ∷ ms) obs =
      let (obs', effects) = on_raw a composite sort m.get m.now m.payload obs in
      let (obs'', effects') = run ms obs' in (obs'', effects ++ effects')
