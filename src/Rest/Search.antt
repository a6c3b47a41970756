-- ===== src/Rest/Search.antt =====
-- Lists of markets that are asked for: `SearchMarkets`, `GetTopMarkets`, `GetRelatedMarkets` and
-- `GetMarkets` with its cache, of predsx/services/api/handlers/rest.go.
pub mod Again
use pred_sx.Base.{
  ℕ, ◌-◌, ◌*◌, ◌+◌, Bool, true, false, not, ◌&&◌, Option, none, some, List, [], ◌∷◌, ◌++◌, String,
  if◌then◌else◌, str_eq, is_empty, append_text, map,
}
use pred_sx.Base.Dict.{Dict}
use pred_sx.Base.Decimal.{itoa}
use pred_sx.Base.Split.{trim_space}
use pred_sx.Base.Text.{codes}
use pred_sx.Number.{Arith}
use pred_sx.Json.{Json, Members, bool, num, str, arr, obj}
use pred_sx.Rest.Backend.{Backend, MetadataRow, word, number, instant, TopRow}
use pred_sx.Rest.Params.{clock, get_query, parse_limit, parse_offset, decode_cursor}
use pred_sx.Rest.Market.{value_at, with_members, get_market_metadata, build_market_summary}
use pred_sx.Rest.Markets.{row_metadata, canonical_of, MarketsPage, markets_page}
use pred_sx.Rest.Reply.{
  Reply, sent, hit, cache_get, internal_error, Outcome, uncached, items_of, object, scanned, whole,
  cached,
}
use pred_sx.Rest.Query.{search_query, search_args, top_query, related_query}
use pred_sx.Rest.History.{day}
use pred_sx.Rest.Proxy.{Upstream, proxy_get}

-- Texts with colons between them.
pub cache_key : List String → String
cache_key [] = ""
cache_key (part ∷ []) = part
cache_key (part ∷ other ∷ parts) = append_text part (append_text ":" (cache_key (other ∷ parts)))

pub search_key : (String → String) → (String → String) → Dict String → String
unfolding cache_key
search_key to_lower to_upper query = cache_key (
    "cache"
    ∷ "search"
    ∷ trim_space (get_query query "q" "")
    ∷ to_lower (get_query query "exchange" "polymarket")
    ∷ to_upper (get_query query "status" "")
    ∷ itoa (parse_limit (get_query query "limit" "") 20 100)
    ∷ [])

-- How far `GetTopMarkets` looks back, in nanoseconds.
pub period_length : String → ℕ
period_length period =
    if str_eq period "1h" then 3_600_000_000_000 else (if str_eq period "7d" then 7 * day else day)

module _ {F : Type 0} (a : Arith F) (b : Backend F) where
  -- A row of a list of markets. The column `raw` is not asked for.
  pub row_summary : MetadataRow → Json F
  row_summary r = obj (build_market_summary a b r.market_id (row_metadata a b r))

  -- What the query of `SearchMarkets` gives, and where it is kept.
  pub search_found : Dict String → Option (Json F)
  unfolding row_summary
  search_found query =
      let q = trim_space (get_query query "q" "") in
      let limit = parse_limit (get_query query "limit" "") 20 100 in
      let exchange = b.to_lower (get_query query "exchange" "polymarket") in
      let status = b.to_upper (get_query query "status" "") in
      elim (b.metadata_rows (search_query exchange status) (search_args q exchange status limit)) [
        | none ↦ none
        | some rows ↦ some (arr (items_of (map row_summary (scanned rows))))
      ]

  -- `SearchMarkets`
  pub search_markets : Dict String → Outcome F
  unfolding search_found search_key
  search_markets query =
      if is_empty (trim_space (get_query query "q" ""))
      then uncached (sent (arr (items_of [])))
      else cached a b (search_key b.to_lower b.to_upper query) 30 (search_found query)

  pub top_item : TopRow F → Json F
  top_item r =
      let id = canonical_of a b r.market_id in
      let summary = build_market_summary a b id (get_market_metadata a b id) in
      obj (
        with_members
          (("volume_period", num r.total_volume) ∷ ("trades_period", whole a r.total_trades) ∷ [])
          summary)

  -- `GetTopMarkets`
  pub get_top_markets : ℕ → Dict String → Outcome F
  unfolding period_length top_item
  get_top_markets now query =
      let by = b.to_lower (get_query query "by" "volume") in
      let limit = parse_limit (get_query query "limit" "") 10 50 in
      let period = get_query query "period" "24h" in
      let cutoff = clock (now - period_length period) in
      let found : Option (Json F) =
        elim (b.top_rows (top_query by) (instant cutoff ∷ number limit ∷ [])) [
          | none ↦ none
          | some rows ↦ some (arr (items_of (map top_item (scanned rows))))
        ] in
      cached a b (cache_key ("cache" ∷ "markets" ∷ "top" ∷ by ∷ period ∷ itoa limit ∷ [])) 15 found

  -- `GetRelatedMarkets`
  pub get_related_markets : String → Dict String → Reply F
  unfolding row_summary
  get_related_markets id query =
      let event_id = value_at "event_id" (get_market_metadata a b id) in
      let limit = parse_limit (get_query query "limit" "") 20 100 in
      if is_empty event_id
      then sent (arr (items_of []))
      else (elim (b.metadata_rows related_query (word event_id ∷ word id ∷ number limit ∷ [])) [
        | none ↦ internal_error
        | some rows ↦ sent (arr (items_of (map row_summary (scanned rows))))
      ])

  -- The offset of a page: the one of the cursor where there is a cursor.
  pub page_offset : Dict String → ℕ
  page_offset query =
      let cursor = get_query query "cursor" "" in
      if is_empty cursor
      then parse_offset (get_query query "offset" "")
      else decode_cursor (codes cursor)

  -- A page as JSON; the cursor is a parameter's text.
  unfoldable pub page_json : (List ℕ → String) → MarketsPage a b → Json F
  page_json text_of page =
      let cursor : List (String × Json F) = elim page.next_cursor [
        | none ↦ []
        | some bytes ↦ ("next_cursor", str (text_of bytes)) ∷ []
      ] in
      object (
        ("data", arr (items_of (map (λ ms. obj ms) page.items)))
        ∷ ("has_more", bool page.has_more)
        ∷ cursor)

  -- `GetMarkets`; `none` is a panic.
  pub get_markets : Upstream → (List ℕ → String) → ℕ → Dict String → Option (Outcome F)
  unfolding page_offset page_json cache_key
  get_markets u text_of max_cap query =
      let exchange = b.to_lower (get_query query "exchange" "polymarket") in
      let status = b.to_upper (get_query query "status" "") in
      let limit = parse_limit (get_query query "limit" "") 50 200 in
      let offset = page_offset query in
      let key =
        cache_key ("cache" ∷ "markets" ∷ exchange ∷ status ∷ itoa limit ∷ itoa offset ∷ []) in
      let page = markets_page a b max_cap exchange status limit offset in
      if str_eq (b.to_lower (get_query query "source" "local")) "gamma"
      then some (uncached (proxy_get u u.gamma_url "/markets" [] query))
      else (elim (cache_get a b key) [
        | some v ↦ some (uncached (hit v))
        | none ↦ elim page [
          | none ↦ none
          | some found ↦ some (cached a b key 30 (some (page_json text_of found)))
        ]
      ])
