-- ===== src/Rest/Market.antt =====
-- What the REST API says of one market: `getMarketMetadata`, `resolveCanonicalMarketID`,
-- `getPriceSnapshot`, `getTokenSnapshot`, `parseOutcomes` and `buildMarketSummary` of
-- predsx/services/api/handlers/rest.go.
use text.Mathlib.Text.{starts_with}
use pred_sx.Base.{
  ℕ, Bool, false, not, ◌&&◌, Option, none, some, List, [], ◌∷◌, ◌++◌, String, if◌then◌else◌, ◌==◌,
  str_eq, is_empty, append_text,
}
use pred_sx.Base.Dict.{Dict, lookup}
use pred_sx.Number.{Arith}
use pred_sx.Json.{Json, Items, Members, null, num, str, arr, obj, nil, cons, end, member, field}
use pred_sx.Orderbook.{non_empty}
use pred_sx.Rest.Backend.{Backend, MetadataRow, word}
use pred_sx.Rest.Params.{fallback}

-- `m[key]` of a map of texts
pub value_at : String → Dict String → String
value_at key m = elim (lookup key m) [ none ↦ "" | some value ↦ value ]

-- Two maps in one; the names of the first one come first.
unfoldable pub with_members : {F : Type 0} → List (String × Json F) → Members F → Members F
with_members [] ms = ms
with_members ((key, v) ∷ pairs) ms = member key v (with_members pairs ms)

abbrev pub texts : {F : Type 0} → List String → Items F
texts [] = nil
texts (s ∷ ss) = cons (str s) (texts ss)

-- The first row of a query, if there is one and it can be scanned.
pub first_row : {A : Type 0} → Option (List (Option A)) → Option A
first_row (some (some row ∷ rows)) = some row
first_row _ = none

-- The names that each map of metadata has.
pub text_fields : MetadataRow → Dict String
text_fields r =
    ("slug", r.slug)
    ∷ ("title", r.title)
    ∷ ("question", r.question)
    ∷ ("condition_id", r.condition_id)
    ∷ ("status", r.status)
    ∷ ("exchange", r.exchange)
    ∷ ("event_id", r.event_id)
    ∷ ("outcomes", r.outcomes)
    ∷ ("raw", r.raw)
    ∷ []

module _ {F : Type 0} (a : Arith F) (b : Backend F) where
  pub time_field : String → ℕ → Dict String
  time_field key t = if t == 0 then [] else (key, b.format_time t) ∷ []

  pub metadata_query : List String
  metadata_query =
      "SELECT slug, title, question, condition_id, status, exchange, event_id, start_time, end_time, outcomes, raw FROM market_metadata WHERE market_id = ? ORDER BY created_at DESC LIMIT 1"
      ∷ []

  -- `getMarketMetadata`: the empty map where the market is not known.
  pub get_market_metadata : String → Dict String
  unfolding first_row text_fields time_field metadata_query
  get_market_metadata market_id =
      elim (first_row (b.metadata_rows metadata_query (word market_id ∷ []))) [
        | none ↦ []
        | some r ↦
            text_fields r
            ++ (time_field "start_time" r.start_time ++ time_field "end_time" r.end_time)
      ]

  -- `h.Redis.Get`, where an error and an empty text are the same.
  unfoldable pub get_text : String → Option String
  get_text key = non_empty (b.get key)

  pub is_market : String → Bool
  is_market market_id = elim (b.is_member market_id) [ none ↦ false | some known ↦ known ]

  -- `resolveCanonicalMarketID`
  pub resolve_canonical_market_id : String → String
  unfolding get_text is_market
  resolve_canonical_market_id market_id =
      let by_condition =
        if starts_with market_id "0x"
        then get_text (append_text "condition:" (append_text market_id ":market_id"))
        else none in
      let by_token = get_text (append_text "token:" (append_text market_id ":market_id")) in
      if is_empty market_id
      then ""
      else (if is_market market_id then market_id else (elim by_condition [
        | some id ↦ id
        | none ↦ elim by_token [ some id ↦ id | none ↦ market_id ]
      ]))

  -- The map that a key holds: `some none` is the nil map, which the text null stands for.
  unfoldable pub get_object : String → Option (Option (Members F))
  unfolding get_text
  get_object key = elim (get_text key) [ none ↦ none | some raw ↦ b.decode_object raw ]

  -- The first of some keys that holds a map.
  pub first_object : List String → Option (Members F)
  unfolding get_object
  first_object [] = none
  first_object (key ∷ keys) = elim (get_object key) [ some snap ↦ snap | none ↦ first_object keys ]

  -- `getPriceSnapshot`
  pub get_price_snapshot : String → String → Option (Members F)
  unfolding first_object
  get_price_snapshot market_id condition_id = first_object (
      append_text "live:price:" market_id
      ∷ (if not (is_empty condition_id) && not (str_eq condition_id market_id)
          then append_text "live:price:" condition_id ∷ []
          else []))

  -- `getTokenSnapshot`
  pub get_token_snapshot : String → Option (Members F)
  unfolding get_object
  get_token_snapshot market_id =
      elim (get_object (append_text "market:" (append_text market_id ":tokens"))) [
        | none ↦ none
        | some tokens ↦ tokens
      ]

  -- `parseOutcomes`: null for none.
  pub parse_outcomes : String → Json F
  parse_outcomes raw =
      if is_empty raw
      then null
      else (elim (b.decode_strings raw) [ none ↦ null | some os ↦ arr (texts os) ])

  -- The names that a price adds; its two sides are there only for a number.
  pub sides : Json F → List (String × Json F)
  sides (num p) = ("yes_price", num p) ∷ ("no_price", num (a.sub (a.lit 1 0) p)) ∷ []
  sides _ = []

  pub price_members : Option (Members F) → List (String × Json F)
  unfolding sides
  price_members none = []
  price_members (some snap) =
      ("price", field "price" snap)
      ∷ ("mid_price", field "mid_price" snap)
      ∷ ("best_bid", field "best_bid" snap)
      ∷ ("best_ask", field "best_ask" snap)
      ∷ ("spread", field "spread" snap)
      ∷ ("volume", field "volume_24h" snap)
      ∷ ("volume_24h", field "volume_24h" snap)
      ∷ sides (field "price" snap)

  pub token_members : Option (Members F) → List (String × Json F)
  token_members none = []
  token_members (some tokens) = ("tokens", obj tokens) ∷ []

  -- `buildMarketSummary`
  unfoldable pub build_market_summary : String → Dict String → Members F
  unfolding value_at with_members parse_outcomes price_members token_members get_price_snapshot
      get_token_snapshot
  build_market_summary market_id meta =
      with_members
        (("market_id", str market_id)
          ∷ ("exchange", str (fallback (value_at "exchange" meta) "polymarket"))
          ∷ ("slug", str (value_at "slug" meta))
          ∷ ("title", str (fallback (value_at "title" meta) (value_at "question" meta)))
          ∷ ("question", str (value_at "question" meta))
          ∷ ("status", str (value_at "status" meta))
          ∷ ("event_id", str (value_at "event_id" meta))
          ∷ ("outcomes", parse_outcomes (value_at "outcomes" meta))
          ∷ ("condition_id", str (value_at "condition_id" meta))
          ∷ ("start_time", str (value_at "start_time" meta))
          ∷ ("end_time", str (value_at "end_time" meta))
          ∷ [])
        (with_members (price_members (get_price_snapshot market_id (value_at "condition_id" meta)))
          (with_members (token_members (get_token_snapshot market_id)) end))
