-- ===== src/Discovery/Crawl.antt =====
-- The crawls of predsx/services/discovery/main.go: `discoverMarkets`, `discoverEvents` and
-- `runBoth`, with the retries of each request.
-- `get url n` is what the attempt `n` to get the page at `url` comes to, and `done url n` says that
-- the context is over in the wait after it. Parameters: the readers of a body.
pub mod Complete
mod Tests
use pred_sx.Base.{
  ℕ, zero, suc, Bool, true, false, ◌||◌, Option, none, some, List, [], ◌∷◌, String, append_text,
  if◌then◌else◌, ◌==◌,
}
use pred_sx.Base.Decimal.{itoa}
use pred_sx.Base.Text.{codes}
use pred_sx.Event.{MarketDiscovered, TokenExtracted}
use pred_sx.Retry.{default_options, retry, Outcome, Verdict as Retried}
use pred_sx.Discovery.{
  PolymarketMarket, PolymarketEvent, Effect, Verdict, on_markets, markets_of, fetch_pages,
  page_limit,
}

-- `strings.Contains(url, "?")`, by the bytes of the URL.
pub has_query : List ℕ → Bool
has_query [] = false
has_query (c ∷ cs) = (c == 63) || has_query cs

pub page_url : String → ℕ → String
unfolding has_query
page_url url offset = append_text url (
    append_text (if has_query (codes url) then "&" else "?") (
      append_text "limit=" (
        append_text (itoa page_limit)
          (append_text "&offset=" (append_text (itoa offset) "&active=true&closed=false")))))

-- `http.Get` and `io.ReadAll`: an error, or a status and the body unless it cannot be read.
pub data HttpReply : Type 0 where
  unreachable : HttpReply
  reply : ℕ → Option String → HttpReply

pub data FetchError : Type 0 where
  no_connection unreadable malformed : FetchError
  unexpected_status : ℕ → FetchError

-- What an attempt leaves: an error, or the items of the page.
pub data FetchResult (A : Type 0) : Type 0 where
  error : FetchError → FetchResult A
  items : List A → FetchResult A

pub error_of : {A : Type 0} → FetchResult A → Option FetchError
error_of (error e) = some e
error_of (items xs) = none

pub result_items : {A : Type 0} → FetchResult A → List A
result_items (error e) = []
result_items (items xs) = xs

pub to_result : {A : Type 0} → Option (List A) → FetchResult A
to_result none = error malformed
to_result (some xs) = items xs

-- The function of a request, by the reader of its body.
pub attempt_of : {A : Type 0} → (String → FetchResult A) → HttpReply → FetchResult A
attempt_of read unreachable = error no_connection
attempt_of read (reply status body) =
    if status == 200
    then (elim body [ none ↦ error unreadable | some text ↦ read text ])
    else error (unexpected_status status)

-- The body of a page of markets: an object with some markets in `value`, or else an array.
pub read_markets :
    (String → Option (List PolymarketMarket))
    → (String → Option (List PolymarketMarket))
    → String
    → FetchResult PolymarketMarket
unfolding to_result
read_markets as_response as_array text = elim (as_response text) [
  | some (m ∷ ms) ↦ items (m ∷ ms)
  | some [] ↦ to_result (as_array text)
  | none ↦ to_result (as_array text)
]

pub read_events : (String → Option (List PolymarketEvent)) → String → FetchResult PolymarketEvent
unfolding to_result
read_events as_array text = to_result (as_array text)

-- The page that the last attempt has left, `none` for an error.
pub left_by : {A : Type 0} → (ℕ → FetchResult A) → Outcome FetchError → Option (List A)
unfolding result_items
left_by attempt o = elim o.verdict [
  | Retried.ok ↦ some (result_items (attempt o.calls))
  | Retried.cancelled ↦ none
  | Retried.failed e ↦ none
]

module _ {A : Type 0} (read : String → FetchResult A) (get : String → ℕ → HttpReply)
    (done : String → ℕ → Bool) where
  -- `retry.Do` of the request for a page.
  pub request : String → Outcome FetchError
  unfolding attempt_of error_of
  request url = retry default_options (λ n. error_of (attempt_of read (get url n))) (done url)

  pub fetch_page : String → Option (List A)
  unfolding request left_by attempt_of
  fetch_page url = left_by (λ n. attempt_of read (get url n)) (request url)

  -- The pages of a crawl.
  pub crawl : String → ℕ → List A × Verdict
  unfolding fetch_page page_url fetch_pages
  crawl url fuel = fetch_pages (λ offset. fetch_page (page_url url offset)) fuel 0

module _ (as_strings : String → Option (List String)) (as_text : String → Option String)
    (parse_time : String → ℕ) (to_upper : String → String) (market_json : PolymarketMarket → String)
    (token_json : TokenExtracted → String) (metadata_json : MarketDiscovered → String)
    (get : String → ℕ → HttpReply) (done : String → ℕ → Bool) (now : ℕ) where
  -- What is done for some markets.
  abbrev pub record_markets : List PolymarketMarket → List Effect
  record_markets =
      on_markets as_strings as_text parse_time to_upper market_json token_json metadata_json now

  -- `discoverMarkets`
  unfoldable pub discover_markets :
      (String → FetchResult PolymarketMarket) → String → ℕ → List Effect × Verdict
  unfolding crawl
  discover_markets read url fuel =
      let (markets, verdict) = crawl read get done url fuel in (record_markets markets, verdict)

  -- `discoverEvents`
  unfoldable pub discover_events :
      (String → FetchResult PolymarketEvent) → String → ℕ → List Effect × Verdict
  unfolding crawl markets_of
  discover_events read url fuel =
      let (events, verdict) = crawl read get done url fuel in
      (record_markets (markets_of events), verdict)
