-- ===== src/Discovery.antt =====
-- Market discovery (predsx/services/discovery/main.go): `DerivedStatus`, `parseClobTokenIDs`,
-- the loops over pages of `discoverMarkets` and `discoverEvents`, `processMarket` and
-- `storeMarketMetadata`. A page is what the retries of a request got, `none` for their error.
-- Parameters: the reader of JSON texts, of a time, `strings.ToUpper`, and the JSON of the records.
pub mod Processed
pub mod Pages
pub mod Resolve
pub mod Crawl
pub mod Keys
pub mod Cycle
mod Tests
use pred_sx.Base.{
  ℕ, zero, suc, ◌+◌, Bool, true, false, Option, none, some, List, [], ◌∷◌, ◌++◌, String,
  if◌then◌else◌, is_empty, append_text,
}
use pred_sx.Base.Dict.{Dict, insert}
use pred_sx.Event.{MarketDiscovered, TokenExtracted, version_v1}

pub record PolymarketMarket : Type 0 where
  pub id : String
  pub slug : String
  pub title : String
  pub question : String
  pub condition_id : String
  pub start_date : String
  pub end_date : String
  pub outcomes : String
  pub event_id : String
  pub status : String
  pub active : Bool
  pub closed : Bool
  pub resolved : Bool
  pub clob_token_ids : String

pub record PolymarketEvent : Type 0 where
  pub id : String
  pub markets : List PolymarketMarket

pub derived_status : (String → String) → PolymarketMarket → String
derived_status to_upper m =
    if is_empty m.status
    then (if m.resolved
        then "RESOLVED"
        else (if m.closed then "CLOSED" else (if m.active then "ACTIVE" else "UNKNOWN")))
    else to_upper m.status

-- An array that is not empty.
pub non_empty_ids : Option (List String) → Option (List String)
non_empty_ids (some (id ∷ ids)) = some (id ∷ ids)
non_empty_ids _ = none

-- A text that holds an array, or one id.
pub ids_in_text : (String → Option (List String)) → Option String → List String
unfolding non_empty_ids
ids_in_text as_strings none = []
ids_in_text as_strings (some s) =
    if is_empty s
    then []
    else (elim (non_empty_ids (as_strings s)) [ some ids ↦ ids | none ↦ s ∷ [] ])

-- `as_strings` and `as_text` are `json.Unmarshal` to an array of texts and to a text.
pub parse_clob_token_ids :
    (String → Option (List String)) → (String → Option String) → String → List String
unfolding non_empty_ids ids_in_text
parse_clob_token_ids as_strings as_text raw =
    if is_empty raw then [] else (elim (non_empty_ids (as_strings raw)) [
      | some ids ↦ ids
      | none ↦ ids_in_text as_strings (as_text raw)
    ])

-- `m.EventID`, where it is missing the id of the event of the market.
pub with_event_id : String → PolymarketMarket → PolymarketMarket
with_event_id id m = if is_empty m.event_id then record m { event_id = id } else m

-- The markets of a page of events, in order.
pub markets_of : List PolymarketEvent → List PolymarketMarket
unfolding with_event_id
markets_of [] = []
markets_of (ev ∷ evs) = elim_markets ev.id ev.markets ++ markets_of evs
  where
    elim_markets : String → List PolymarketMarket → List PolymarketMarket
    elim_markets id [] = []
    elim_markets id (m ∷ ms) = with_event_id id m ∷ elim_markets id ms

-- What the service does: to Kafka, to a key of Redis, and to the set of markets.
pub data Effect : Type 0 where
  publish_market : String → MarketDiscovered → Effect
  publish_token : String → TokenExtracted → Effect
  set : String → String → Effect
  add : String → Effect

abbrev pub token_key : String → String
token_key token = append_text "token:" (append_text token ":market_id")

abbrev pub condition_key : String → String
condition_key condition = append_text "condition:" (append_text condition ":market_id")

abbrev pub set_condition : String → String → List Effect
set_condition condition id =
    if is_empty condition then [] else set (condition_key condition) id ∷ []

module _ (as_strings : String → Option (List String)) (as_text : String → Option String)
    (parse_time : String → ℕ) (to_upper : String → String) (market_json : PolymarketMarket → String)
    (token_json : TokenExtracted → String) (metadata_json : MarketDiscovered → String) where
  -- The event for a market.
  pub discovered : ℕ → PolymarketMarket → MarketDiscovered
  unfolding parse_clob_token_ids derived_status
  discovered now m = record {
    id = m.id;
    slug = m.slug;
    title = m.title;
    question = m.question;
    condition_id = m.condition_id;
    clob_token_ids = parse_clob_token_ids as_strings as_text m.clob_token_ids;
    exchange = "polymarket";
    event_id = m.event_id;
    raw = market_json m;
    start_time = parse_time m.start_date;
    end_time = parse_time m.end_date;
    outcomes = elim (as_strings m.outcomes) [ none ↦ [] | some os ↦ os ];
    status = derived_status to_upper m;
    created_at = now;
    version = version_v1;
  }

  pub token_effects : MarketDiscovered → String → String → List Effect
  token_effects market first second =
      let event : TokenExtracted = record {
        market_id = market.id;
        token_yes = first;
        token_no = second;
        exchange = market.exchange;
        version = version_v1;
      } in
      set (append_text "tokens:extracted:" market.id) (token_json event)
      ∷ set (append_text "market:" (append_text market.id ":tokens")) (token_json event)
      ∷ set (token_key first) market.id
      ∷ set (token_key second) market.id
      ∷ (set_condition market.condition_id market.id ++ publish_token market.id event ∷ [])

  -- `processMarket`
  pub process_market : MarketDiscovered → List Effect
  unfolding token_effects
  process_market market = elim market.clob_token_ids [
    | [] ↦ []
    | only ∷ [] ↦ []
    | first ∷ second ∷ rest ↦ token_effects market first second
  ]

  -- `storeMarketMetadata`
  pub store_market_metadata : MarketDiscovered → PolymarketMarket → List Effect
  store_market_metadata event m =
      set (append_text "market:" (append_text event.id ":metadata")) (metadata_json event)
      ∷ set (append_text "market:" (append_text event.id ":metadata_raw")) (market_json m)
      ∷ (set_condition event.condition_id event.id ++ add event.id ∷ [])

  -- The body of the loop for a market.
  pub on_market : ℕ → PolymarketMarket → List Effect
  unfolding discovered process_market store_market_metadata
  on_market now m =
      let event = discovered now m in
      publish_market event.id event ∷ (process_market event ++ store_market_metadata event m)

  pub on_markets : ℕ → List PolymarketMarket → List Effect
  unfolding on_market
  on_markets now [] = []
  on_markets now (m ∷ ms) = on_market now m ++ on_markets now ms

-- Redis after some effects.
pub apply : List Effect → Dict String → Dict String
apply [] r = r
apply (set key value ∷ es) r = apply es (insert key value r)
apply (publish_market key m ∷ es) r = apply es r
apply (publish_token key t ∷ es) r = apply es r
apply (add id ∷ es) r = apply es r

pub data Verdict : Type 0 where
  finished : Verdict
  failed : Verdict
  out_of_fuel : Verdict

abbrev pub page_limit : ℕ
page_limit = 100

-- The loop over pages, which ends at an empty page or an error: what it fetched, and how it ended.
pub fetch_pages : {A : Type 0} → (ℕ → Option (List A)) → ℕ → ℕ → List A × Verdict
fetch_pages page zero offset = ([], out_of_fuel)
fetch_pages page (suc fuel) offset =
    let (items, verdict) = fetch_pages page fuel (offset + page_limit) in
    elim (page offset) [
      | none ↦ ([], failed)
      | some [] ↦ ([], finished)
      | some (x ∷ xs) ↦ ((x ∷ xs) ++ items, verdict)
    ]
