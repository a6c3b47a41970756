-- ===== src/Discovery/Crawl/Tests.antt =====
-- A server that fails at first and one that fails later, and the theorems about crawls at them.
use pred_sx.Base.{
  ℕ, zero, suc, ◌<◌, ◌≡◌, refl, ◌⊎◌, ◌++◌, Bool, true, false, Option, none, some, List, [], ◌∷◌,
  String, arith, if◌then◌else◌, ◌==◌, str_eq,
}
use pred_sx.Event.{MarketDiscovered, TokenExtracted}
use pred_sx.Discovery.{PolymarketMarket, PolymarketEvent, finished, failed, markets_of, Effect}
use pred_sx.Discovery.Crawl.{
  HttpReply, reply, unreachable, error_of, attempt_of, to_result, page_url, has_query, read_markets,
  read_events, crawl, discover_markets, discover_events,
}
use pred_sx.Discovery.Cycle.Resolved.{IsOn}
use pred_sx.Discovery.Crawl.Complete.{
  FirstAnswered, Refused, discover_markets_complete, discover_events-Refused, IsProcessed,
}

abbrev no_array : String → Option (List String)
no_array raw = none

abbrev as_is : String → Option String
as_is raw = some raw

abbrev no_time : String → ℕ
no_time raw = 0

abbrev same : String → String
same s = s

abbrev market_json : PolymarketMarket → String
market_json m = m.id

abbrev token_json : TokenExtracted → String
token_json t = t.market_id

abbrev metadata_json : MarketDiscovered → String
metadata_json m = m.id

abbrev polymarket : PolymarketMarket
polymarket = record {
  id = "m";
  slug = "s";
  title = "";
  question = "";
  condition_id = "c";
  start_date = "";
  end_date = "";
  outcomes = "";
  event_id = "";
  status = "";
  active = true;
  closed = false;
  resolved = false;
  clob_token_ids = "y";
}

-- The first attempt at every page fails, and the second one gets it.
abbrev server : String → ℕ → HttpReply
server url n =
    if n == 1
    then unreachable
    else reply 200 (some (if str_eq url (page_url "u" 0) then "page" else "[]"))

-- The first page is there, and no other can be reached.
abbrev broken_server : String → ℕ → HttpReply
broken_server url n = if str_eq url (page_url "u" 0) then reply 200 (some "page") else unreachable

abbrev no_response : String → Option (List PolymarketMarket)
no_response body = none

abbrev one_market : String → Option (List PolymarketMarket)
one_market body = if str_eq body "page" then some (polymarket ∷ []) else some []

abbrev event : PolymarketEvent
event = record { id = "e"; markets = polymarket ∷ [] }

abbrev one_event : String → Option (List PolymarketEvent)
one_event body = some (event ∷ [])

abbrev open_context : String → ℕ → Bool
open_context url n = false

server-answers :
    FirstAnswered (read_markets no_response one_market) server open_context 2 "u" (polymarket ∷ [])
unfolding error_of attempt_of to_result read_markets page_url has_query pred_sx.Base.Decimal.itoa
server-answers zero less = (1, omega arith, ((_, refl), refl, tt), refl)
server-answers (suc zero) less = (1, omega arith, ((_, refl), refl, tt), refl)
server-answers (suc (suc j)) less = absurd (omega arith)

discover_markets_complete_example :
    (effects : List Effect) × (discover_markets no_array as_is no_time same market_json token_json
        metadata_json server open_context 0
        (read_markets no_response one_market)
        "u"
        2
      ≡ (effects, finished))
    × IsProcessed no_array as_is no_time same market_json token_json metadata_json server
        open_context 0
        (polymarket ∷ [])
        effects
discover_markets_complete_example =
    discover_markets_complete no_array as_is no_time same market_json token_json metadata_json
      server open_context 0 (read_markets no_response one_market) "u" (polymarket ∷ []) 1 2
      server-answers (omega arith) (omega arith)

page-answers : FirstAnswered (read_events one_event) broken_server open_context 1 "u" (event ∷ [])
unfolding attempt_of to_result read_events page_url has_query pred_sx.Base.Decimal.itoa
page-answers zero less = (0, omega arith, tt, refl)
page-answers (suc j) less = absurd (omega arith)

page-Refused : Refused (read_events one_event) broken_server open_context (page_url "u" 100)
unfolding error_of attempt_of page_url has_query pred_sx.Base.Decimal.itoa
page-Refused = (((_, refl), refl, ((_, refl), refl, tt)), (_, refl))

discover_events-Refused_example :
    (effects : List Effect) × (discover_events no_array as_is no_time same market_json token_json
        metadata_json broken_server open_context 0
        (read_events one_event)
        "u"
        2
      ≡ (effects, failed))
    × IsProcessed no_array as_is no_time same market_json token_json metadata_json broken_server
        open_context 0
        (record polymarket { event_id = "e" } ∷ [])
        effects
discover_events-Refused_example =
    discover_events-Refused no_array as_is no_time same market_json token_json metadata_json
      broken_server open_context 0 (read_events one_event) "u" (event ∷ []) 1 2 page-answers
      page-Refused (omega arith) (omega arith)

abbrev page_of_event : String → Option (List PolymarketEvent)
page_of_event body = if str_eq body "page" then some (event ∷ []) else some []

abbrev IsFetched : PolymarketMarket → Type 0
IsFetched k =
    IsOn k (crawl (read_markets no_response one_market) server open_context "u" 2).0
    ⊎ IsOn k (markets_of (crawl (read_events page_of_event) server open_context "u" 2).0)

abbrev two_ids : String → Option (List String)
two_ids raw = some ("y" ∷ "n" ∷ [])

-- What both crawls do, the markets first.
abbrev cycle_effects : List Effect
cycle_effects =
    (discover_markets two_ids as_is no_time same market_json token_json metadata_json server
      open_context 0 (read_markets no_response one_market) "u" 2).0
    ++ (discover_events two_ids as_is no_time same market_json token_json metadata_json server
        open_context 1 (read_events page_of_event) "u" 2).0
