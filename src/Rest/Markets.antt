-- ===== src/Rest/Markets.antt =====
-- The list of markets: `getActivityRankedMarkets`, `getRecentMarkets` and `GetMarkets` of
-- predsx/services/api/handlers/rest.go. A list of answers is a list of objects. The outer `none`
-- is a panic: `make` of a slice with more room than the runtime has, which is a parameter.
pub mod Ranked
pub mod Fresh
pub mod Page
use pred_sx.Base.{
  ℕ, zero, suc, ◌+◌, ◌-◌, ◌*◌, ◌%◌, ◌^◌, Bool, true, false, not, ◌&&◌, ◌||◌, Option, none, some,
  List, [], ◌∷◌, ◌++◌, String, if◌then◌else◌, ltb, leb, ◌==◌, str_eq, is_empty, append_text, length,
  take, drop,
}
use pred_sx.Base.Dict.{Dict}
use pred_sx.Base.Decimal.{itoa}
use pred_sx.Base.Text.{codes}
use pred_sx.Base.Names.{contains}
use pred_sx.Number.{Arith}
use pred_sx.Json.{Json, Members, find, as_string}
use pred_sx.Rest.Backend.{Backend, MetadataRow, Arg, word, number}
use pred_sx.Rest.Params.{get_query, parse_limit, parse_offset, encode_cursor, decode_cursor}
use pred_sx.Rest.Market.{
  value_at, text_fields, get_market_metadata, resolve_canonical_market_id, build_market_summary,
}

-- `item["market_id"]`, "" where it is no text.
pub market_id_of : {F : Type 0} → Members F → String
market_id_of item = elim (as_string (find "market_id" item)) [ none ↦ "" | some id ↦ id ]

abbrev pub is_nil : {A : Type 0} → List A → Bool
is_nil [] = true
is_nil (x ∷ xs) = false

-- `if queryLimit < 500` for `target * 10` on 64 bits, with its sign.
unfoldable pub query_limit : ℕ → ℕ
query_limit target =
    let rows = target * 10 % 2 ^ 64 in if ltb rows 500 || leb (2 ^ 63) rows then 500 else rows

pub scan_limit : ℕ → ℕ
scan_limit limit = if ltb (limit * 5) 200 then 200 else limit * 5

-- The market ids of the results so far that are not empty.
pub note : {F : Type 0} → List String → Members F → List String
unfolding market_id_of
note seen item = if is_empty (market_id_of item) then seen else market_id_of item ∷ seen

pub seen_of : {F : Type 0} → List String → List (Members F) → List String
unfolding note
seen_of seen [] = seen
seen_of seen (item ∷ items) = seen_of (note seen item) items

module _ {F : Type 0} (a : Arith F) (b : Backend F) where
  -- A filter that is not set accepts everything.
  pub accepts : String → String → Bool
  accepts filter value = is_empty filter || b.equal_fold value filter

  pub canonical_of : String → String
  canonical_of market_id =
      let id = resolve_canonical_market_id a b market_id in if is_empty id then market_id else id

  -- The metadata under the canonical id, or else under the id of the row.
  pub metadata_of : String → String → Dict String
  metadata_of canonical market_id =
      let meta = get_market_metadata a b canonical in
      if is_nil meta && not (str_eq canonical market_id)
      then get_market_metadata a b market_id
      else meta

  module _ (exchange status : String) where
    -- A row of the query by activity: the id and the summary of its market, if it is listed.
    pub listed : List String → String → Option (String × Members F)
    unfolding accepts canonical_of metadata_of
    listed seen market_id =
        let id = canonical_of market_id in
        let meta = metadata_of id market_id in
        if contains id seen || is_nil meta
        then none
        else (if accepts exchange (value_at "exchange" meta)
              && accepts status (value_at "status" meta)
            then some (id, build_market_summary a b id meta)
            else none)

    -- The loop over the rows, with `n` results so far.
    pub ranked_loop : ℕ → List String → ℕ → List (Option String) → List (Members F)
    unfolding listed
    ranked_loop target seen n [] = []
    ranked_loop target seen n (none ∷ rows) = ranked_loop target seen n rows
    ranked_loop target seen n (some market_id ∷ rows) = elim (listed seen market_id) [
      | none ↦ ranked_loop target seen n rows
      | some (id, item) ↦ item ∷ (elim (leb target (n + 1)) [
        | true ↦ []
        | false ↦ ranked_loop target (id ∷ seen) (n + 1) rows
      ])
    ]

    -- `results[offset:end]`
    pub page_of : ℕ → ℕ → List (Members F) → List (Members F)
    page_of limit offset results =
        if leb (length results) offset
        then []
        else (let end =
              if ltb (offset + limit) (length results) then offset + limit else length results in
            take (end - offset) (drop offset results))

    -- `getActivityRankedMarkets`. The sum of limit and offset wraps to a number below 0.
    pub get_activity_ranked_markets : ℕ → ℕ → ℕ → Option (List (Members F))
    unfolding ranked_loop page_of query_limit
    get_activity_ranked_markets max_cap limit offset =
        let target = (limit + offset) % 2 ^ 64 in
        if target == 0 || leb (2 ^ 63) target
        then some []
        else (elim (b.activity_rows (query_limit target)) [
          | none ↦ some []
          | some rows ↦
              if ltb max_cap target
              then none
              else some (page_of limit offset (ranked_loop target [] 0 rows))
        ])

    -- The text of the query of `getRecentMarkets` on one line, with a placeholder for each argument.
    unfoldable pub recent_query : List String
    recent_query =
        "SELECT market_id, slug, title, question, condition_id, status, exchange, event_id, start_time, end_time, outcomes, raw FROM market_metadata"
        ∷ ((if is_empty exchange && is_empty status then [] else " WHERE " ∷ [])
            ++ ((if is_empty exchange then [] else "LOWER(exchange) = LOWER(?)" ∷ [])
                ++ ((if is_empty exchange || is_empty status then [] else " AND " ∷ [])
                    ++ ((if is_empty status then [] else "LOWER(status) = LOWER(?)" ∷ [])
                        ++ " ORDER BY created_at DESC LIMIT ?" ∷ []))))

    unfoldable pub recent_args : ℕ → List Arg
    unfolding scan_limit
    recent_args limit =
        (if is_empty exchange then [] else word exchange ∷ [])
        ++ ((if is_empty status then [] else word status ∷ []) ++ number (scan_limit limit) ∷ [])

  -- The metadata of a row; its times are there also where they are zero.
  pub row_metadata : MetadataRow → Dict String
  row_metadata r =
      ("market_id", r.market_id)
      ∷ ("start_time", b.format_time r.start_time)
      ∷ ("end_time", b.format_time r.end_time)
      ∷ text_fields r

  -- The loop of `getRecentMarkets`, with `n` results so far.
  pub recent_loop : ℕ → List String → ℕ → List (Option MetadataRow) → List (Members F)
  unfolding row_metadata
  recent_loop limit seen n [] = []
  recent_loop limit seen n (none ∷ rows) = recent_loop limit seen n rows
  recent_loop limit seen n (some r ∷ rows) = elim (contains r.market_id seen) [
    | true ↦ recent_loop limit seen n rows
    | false ↦ build_market_summary a b r.market_id (row_metadata r) ∷ (elim (leb limit (n + 1)) [
      | true ↦ []
      | false ↦ recent_loop limit (r.market_id ∷ seen) (n + 1) rows
    ])
  ]

  -- `getRecentMarkets`
  pub get_recent_markets : String → String → ℕ → List (Members F) → List (Members F)
  unfolding recent_loop seen_of recent_query recent_args
  get_recent_markets exchange status limit existing =
      if limit == 0
      then []
      else (elim (b.metadata_rows (recent_query exchange status)
          (recent_args exchange status limit)) [
            | none ↦ []
            | some rows ↦ recent_loop limit (seen_of [] existing) 0 rows
          ])

  pub record MarketsPage : Type 0 where
    pub items : List (Members F)
    pub next_cursor : Option (List ℕ)
    pub has_more : Bool

  pub page_with : ℕ → ℕ → List (Members F) → MarketsPage
  page_with limit offset results =
      let has_more = length results == limit in
      record {
        items = results;
        next_cursor = if has_more then some (encode_cursor ((offset + limit) % 2 ^ 64)) else none;
        has_more = has_more;
      }

  -- The page that `GetMarkets` makes when it is not in the cache.
  pub markets_page : ℕ → String → String → ℕ → ℕ → Option MarketsPage
  unfolding get_activity_ranked_markets get_recent_markets page_with
  markets_page max_cap exchange status limit offset =
      elim (get_activity_ranked_markets exchange status max_cap limit offset) [
        | none ↦ none
        | some ranked ↦
            let more =
              if ltb (length ranked) limit
              then get_recent_markets exchange status (limit - length ranked) ranked
              else [] in
            some (page_with limit offset (ranked ++ more))
      ]
