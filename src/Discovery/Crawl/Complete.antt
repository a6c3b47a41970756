-- ===== src/Discovery/Crawl/Complete.antt =====
-- The crawls of a server that fails now and then.
use pred_sx.Base.{
  ℕ, suc, ◌+◌, ◌*◌, ◌≤◌, ◌<◌, ◌≡◌, refl, ap, ◌∙◌, Bool, Option, none, some, List, String, arith,
  length, take, drop, subst,
}
use pred_sx.Event.{MarketDiscovered, TokenExtracted}
use pred_sx.Retry.{default_options}
use pred_sx.Retry.Attempts.{FailsFor, retry-success, retry-failed, default_options-attempts}
use pred_sx.Discovery.{
  PolymarketMarket, PolymarketEvent, page_limit, finished, failed, markets_of, Effect,
}
use pred_sx.Discovery.Processed.{Processed, on_markets-Processed, listed_in, markets_of-listed}
use pred_sx.Discovery.Pages.{Answers, fetch_pages-answered, fetch_pages-failed}
use pred_sx.Discovery.Crawl.{
  FetchResult, FetchError, items, error_of, result_items, attempt_of, left_by, request, fetch_page,
  crawl, page_url, HttpReply, record_markets, discover_markets, discover_events,
}

module _ {A : Type 0} (read : String → FetchResult A) (get : String → ℕ → HttpReply)
    (done : String → ℕ → Bool) where
  -- How the attempts at a URL fail, as `Do` sees it.
  abbrev attempt_error : String → ℕ → Option FetchError
  attempt_error url n = error_of (attempt_of read (get url n))

  -- At most two attempts at the URL fail with the context open, and the one after them gets a page.
  abbrev pub Answered : String → List A → Type 0
  Answered url page =
      (n : ℕ) × (n < 3)
      × FailsFor default_options (attempt_error url) (done url) n 1
      × (attempt_of read (get url (1 + n)) ≡ items page)

  -- All three attempts at the URL fail with the context open.
  abbrev pub Refused : String → Type 0
  Refused url =
      FailsFor default_options (attempt_error url) (done url) 2 1
      × ((e : FetchError) × (attempt_error url 3 ≡ some e))

  fetch_page-Answered :
      (url : String) (page : List A) → Answered url page → fetch_page read get done url ≡ some page
  unfolding fetch_page left_by request error_of result_items
  fetch_page-Answered url page (n, less, fails, hit) =
      let attempt : ℕ → FetchResult A = λ i. attempt_of read (get url i) in
      let last : attempt_error url (1 + n) ≡ none = ap error_of hit in
      let turn : n + 1 ≡ 1 + n = omega arith in
      let result =
        retry-success default_options (attempt_error url) (done url) n fails last
          (omega (arith, default_options-attempts)) in
      ap (left_by attempt) result ∙ ap (λ f. some (result_items f)) (ap attempt turn ∙ hit)

  fetch_page-Refused : (url : String) → Refused url → fetch_page read get done url ≡ none
  unfolding fetch_page left_by request error_of
  fetch_page-Refused url (fails, last) = ap (left_by (λ i. attempt_of read (get url i))) (
      retry-failed default_options (attempt_error url) (done url) 2 last.0 default_options-attempts
        fails last.1)

  -- The requests of a crawl for the first `k` pages get those of a fixed list.
  abbrev pub FirstAnswered : ℕ → String → List A → Type 0
  FirstAnswered k url all =
      (j : ℕ)
      → j < k
      → Answered (page_url url (page_limit * j)) (take page_limit (drop (page_limit * j) all))

  -- As a page by its offset.
  abbrev page_at : String → ℕ → Option (List A)
  page_at url offset = fetch_page read get done (page_url url offset)

  FirstAnswered-Answers :
      (k : ℕ) (url : String) (all : List A)
      → FirstAnswered k url all
      → Answers (page_at url) k 0 all
  FirstAnswered-Answers k url all answered j less =
      let from : 0 + page_limit * j ≡ page_limit * j = omega arith in
      ap (page_at url) from
      ∙ fetch_page-Answered (page_url url (page_limit * j)) _ (answered j less)

  pub crawl-answered :
      (url : String) (all : List A) (k fuel : ℕ)
      → FirstAnswered (suc k) url all
      → length all ≤ page_limit * k
      → k < fuel
      → crawl read get done url fuel ≡ (all, finished)
  unfolding crawl
  crawl-answered url all k fuel answered =
      fetch_pages-answered (page_at url) k fuel 0 all
        (FirstAnswered-Answers (suc k) url all answered)

  crawl-Refused :
      (url : String) (all : List A) (k fuel : ℕ)
      → FirstAnswered k url all
      → Refused (page_url url (page_limit * k))
      → page_limit * k < length all + page_limit
      → k < fuel
      → crawl read get done url fuel ≡ (take (page_limit * k) all, failed)
  unfolding crawl
  crawl-Refused url all k fuel answered refused =
      let from : 0 + page_limit * k ≡ page_limit * k = omega arith in
      fetch_pages-failed (page_at url) k fuel 0 all (FirstAnswered-Answers k url all answered)
        (ap (page_at url) from ∙ fetch_page-Refused _ refused)

module _ (as_strings : String → Option (List String)) (as_text : String → Option String)
    (parse_time : String → ℕ) (to_upper : String → String) (market_json : PolymarketMarket → String)
    (token_json : TokenExtracted → String) (metadata_json : MarketDiscovered → String)
    (get : String → ℕ → HttpReply) (done : String → ℕ → Bool) (now : ℕ) where
  -- What is done for some markets.
  abbrev effects_of : List PolymarketMarket → List Effect
  effects_of =
      record_markets as_strings as_text parse_time to_upper market_json token_json metadata_json get
        done now

  -- The markets that a crawl fetched are processed.
  abbrev pub IsProcessed : List PolymarketMarket → List Effect → Type 0
  IsProcessed =
      Processed as_strings as_text parse_time to_upper market_json token_json metadata_json now

  effects_of-IsProcessed : (ms : List PolymarketMarket) → IsProcessed ms (effects_of ms)
  effects_of-IsProcessed =
      on_markets-Processed as_strings as_text parse_time to_upper market_json token_json
        metadata_json now

  -- Where the first `k` pages hold a whole list of markets, and the requests for them and for the
  -- empty page after them are each answered within three attempts, `discoverMarkets` ends by
  -- itself without an error, in `k + 1` rounds at most, and it has processed every market of the
  -- list, once and in order: each is published under its id, with its condition and its event, and
  -- its id is added to the set of markets.
  pub discover_markets_complete :
      (read : String → FetchResult PolymarketMarket) (url : String) (all : List PolymarketMarket)
      (k fuel : ℕ)
      → FirstAnswered read get done (suc k) url all
      → length all ≤ page_limit * k
      → k < fuel
      → (effects : List Effect) × (discover_markets as_strings as_text parse_time to_upper
            market_json token_json metadata_json get done now read url fuel
          ≡ (effects, finished))
        × IsProcessed all effects
  unfolding discover_markets
  discover_markets_complete read url all k fuel answered le lt = (
    effects_of all,
    rw (discover_markets, crawl-answered read get done url all k fuel answered le lt) refl,
    effects_of-IsProcessed all,
  )

  -- Where the first `k` pages of a list of events are answered within three attempts and have
  -- something in them, and all three attempts at the next page fail, `discoverEvents` returns an
  -- error, and it has processed the markets of the events of those pages, each with the id of its
  -- event where it names none, once and in order, and no other: it is published under its id, with
  -- its condition and its event, and its id is added to the set of markets.
  pub discover_events-Refused :
      (read : String → FetchResult PolymarketEvent) (url : String) (all : List PolymarketEvent)
      (k fuel : ℕ)
      → FirstAnswered read get done k url all
      → Refused read get done (page_url url (page_limit * k))
      → page_limit * k < length all + page_limit
      → k < fuel
      → (effects : List Effect) × (discover_events as_strings as_text parse_time to_upper
            market_json token_json metadata_json get done now read url fuel
          ≡ (effects, failed))
        × IsProcessed (listed_in (take (page_limit * k) all)) effects
  unfolding discover_events
  discover_events-Refused read url all k fuel answered refused full lt =
      let events = take (page_limit * k) all in
      (
        effects_of (markets_of events),
        rw (discover_events, crawl-Refused read get done url all k fuel answered refused full lt)
            refl,
        subst (λ ms. IsProcessed ms (effects_of (markets_of events))) (markets_of-listed events)
            (effects_of-IsProcessed (markets_of events)),
      )
