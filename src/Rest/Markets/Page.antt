-- ===== src/Rest/Markets/Page.antt =====
-- What a page of `GetMarkets` of predsx/services/api/handlers/rest.go holds.
use mathlib.Core.Option
use pred_sx.Base.{
  ℕ, zero, suc, ◌+◌, ◌-◌, ◌%◌, ◌^◌, ◌≤◌, ◌<◌, ◌≡◌, refl, ap, subst, true, false, ◌||◌, inl, inr,
  Option, none, some, List, [], ◌∷◌, ◌++◌, String, arith, if◌then◌else◌, ltb, leb, ◌==◌, Bool-cases,
  Option-cases, length, drop, length-append, length-take,
}
use pred_sx.Base.Names.{contains, IsPart}
use pred_sx.Base.Dict.{Dict}
use pred_sx.Number.{Arith}
use pred_sx.Json.{Members, find}
use pred_sx.Rest.Backend.{Backend, MetadataRow}
use pred_sx.Rest.Params.{decode_cursor, decode_cursor-encode_cursor}
use pred_sx.Rest.Market.{with_members, build_market_summary}
use pred_sx.Rest.Markets.{
  market_id_of, listed, ranked_loop, page_of, get_activity_ranked_markets, query_limit, seen_of,
  row_metadata, recent_loop, recent_query, recent_args, canonical_of, metadata_of,
  get_recent_markets, MarketsPage, page_with, markets_page,
}
use pred_sx.Rest.Markets.Ranked.{page_of-window}
use pred_sx.Rest.Markets.Fresh.{IsFresh, IsFresh-take, IsFresh-drop, IsFresh-append, IsFresh-cons}

module _ {F : Type 0} (a : Arith F) (b : Backend F) where
  summary_id :
      (id : String) (meta : Dict String) → market_id_of (build_market_summary a b id meta) ≡ id
  unfolding market_id_of build_market_summary with_members find
  summary_id id meta = refl

  module _ (exchange status : String) where
    listed-some :
        (seen : List String) (market_id id : String) (item : Members F)
        → listed a b exchange status seen market_id ≡ some (id, item)
        → (market_id_of item ≡ id) × (contains id seen ≡ false)
    unfolding listed
    listed-some seen market_id id item h =
        let own =
          summary_id (canonical_of a b market_id)
            (metadata_of a b (canonical_of a b market_id) market_id) in
        ground (arith, own)

    ranked_loop-IsFresh :
        (target n : ℕ) (old seen : List String) (rows : List (Option String))
        → IsPart old seen
        → IsFresh old (ranked_loop a b exchange status target seen n rows)
    unfolding ranked_loop IsFresh
    ranked_loop-IsFresh target n old seen [] part = tt
    ranked_loop-IsFresh target n old seen (none ∷ rows) part =
        ranked_loop-IsFresh target n old seen rows part
    ranked_loop-IsFresh target n old seen (some market_id ∷ rows) part =
        elim (Option-cases (listed a b exchange status seen market_id)) [
          | inl skipped ↦
              rw (ranked_loop, skipped) (ranked_loop-IsFresh target n old seen rows part)
          | inr ((id, item), found) ↦
              let known = listed-some seen market_id id item found in
              rw (ranked_loop, found)
                (IsFresh-cons old seen item _ (rw known.0 known.1) part (λ new q.
                  elim (Bool-cases (leb target (n + 1))) [
                    | inl last ↦ rw last tt
                    | inr goes_on ↦ rw goes_on (
                        ranked_loop-IsFresh target (n + 1) new (id ∷ seen) rows
                          (subst (λ i. IsPart new (i ∷ seen)) known.0 q))
                  ]))
        ]

  recent_loop-IsFresh :
      (limit n : ℕ) (old seen : List String) (rows : List (Option MetadataRow))
      → IsPart old seen
      → IsFresh old (recent_loop a b limit seen n rows)
  unfolding recent_loop IsFresh
  recent_loop-IsFresh limit n old seen [] part = tt
  recent_loop-IsFresh limit n old seen (none ∷ rows) part =
      recent_loop-IsFresh limit n old seen rows part
  recent_loop-IsFresh limit n old seen (some r ∷ rows) part =
      elim (Bool-cases (contains r.market_id seen)) [
        | inl known ↦ rw (recent_loop, known) (recent_loop-IsFresh limit n old seen rows part)
        | inr unknown ↦
            let own = summary_id r.market_id (row_metadata a b r) in
            rw (recent_loop, unknown)
              (IsFresh-cons old seen _ _ (rw own unknown) part (λ new q.
                elim (Bool-cases (leb limit (n + 1))) [
                  | inl last ↦ rw last tt
                  | inr goes_on ↦ rw goes_on (
                      recent_loop-IsFresh limit (n + 1) new (r.market_id ∷ seen) rows
                        (subst (λ i. IsPart new (i ∷ seen)) own q))
                ]))
      ]

  get_recent_markets-IsFresh :
      (exchange status : String) (limit : ℕ) (existing : List (Members F))
      → IsFresh (seen_of [] existing) (get_recent_markets a b exchange status limit existing)
  unfolding get_recent_markets IsFresh
  get_recent_markets-IsFresh exchange status limit existing = elim (Bool-cases (limit == 0)) [
    | inl nothing ↦ rw nothing tt
    | inr wanted ↦
        rw wanted
          (elim (Option-cases (
            b.metadata_rows (recent_query a b exchange status)
              (recent_args a b exchange status limit))) [
                | inl failed ↦ rw failed tt
                | inr (rows, found) ↦ rw found (recent_loop-IsFresh limit 0 _ _ rows (λ name q. q))
              ])
  ]

  recent_loop-length :
      (k n limit : ℕ) (seen : List String) (rows : List (Option MetadataRow))
      → n + suc k ≡ limit
      → length (recent_loop a b limit seen n rows) ≤ suc k
  unfolding recent_loop
  recent_loop-length k n limit seen [] e = omega arith
  recent_loop-length k n limit seen (none ∷ rows) e = recent_loop-length k n limit seen rows e
  recent_loop-length zero n limit seen (some r ∷ rows) e =
      let last : leb limit (n + 1) ≡ true = ground arith in
      elim (Bool-cases (contains r.market_id seen)) [
        | inl known ↦ rw (recent_loop, known) (recent_loop-length zero n limit seen rows e)
        | inr unknown ↦ rw (recent_loop, unknown, last) (omega arith)
      ]
  recent_loop-length (suc k) n limit seen (some r ∷ rows) e =
      let goes_on : leb limit (n + 1) ≡ false = ground arith in
      elim (Bool-cases (contains r.market_id seen)) [
        | inl known ↦ rw (recent_loop, known) (recent_loop-length (suc k) n limit seen rows e)
        | inr unknown ↦
            rw (recent_loop, unknown, goes_on)
              (ground
                (arith, recent_loop-length k (n + 1) limit (r.market_id ∷ seen) rows (omega arith)))
      ]

  get_recent_markets-length :
      (exchange status : String) (limit : ℕ) (existing : List (Members F))
      → length (get_recent_markets a b exchange status limit existing) ≤ limit
  unfolding get_recent_markets
  get_recent_markets-length exchange status zero existing = omega arith
  get_recent_markets-length exchange status (suc limit) existing =
      let wanted : (suc limit == 0) ≡ false = ground arith in
      elim (Option-cases (
        b.metadata_rows (recent_query a b exchange status)
          (recent_args a b exchange status (suc limit)))) [
            | inl failed ↦ rw (get_recent_markets, wanted, failed) (omega arith)
            | inr (rows, found) ↦
                rw (get_recent_markets, wanted, found)
                  (recent_loop-length limit 0 (suc limit) (seen_of [] existing) rows (omega arith))
          ]

  module _ (exchange status : String) where
    page_of-length :
        (limit offset : ℕ) (results : List (Members F))
        → length (page_of a b exchange status limit offset results) ≤ limit
    page_of-length limit offset results =
        rw (page_of-window a b exchange status limit offset results)
          (grind (arith, length-take limit (drop offset results)))

    page_of-IsFresh :
        (limit offset : ℕ) (results : List (Members F))
        → IsFresh [] results
        → IsFresh [] (page_of a b exchange status limit offset results)
    page_of-IsFresh limit offset results h =
        rw (page_of-window a b exchange status limit offset results)
          (IsFresh-take [] limit (drop offset results) (IsFresh-drop [] offset results h))

    -- The markets by activity: there are some, none twice, and not more than the limit.
    activity-IsFresh :
        (max_cap limit offset : ℕ)
        → limit + offset ≤ max_cap
        → (items : List (Members F)) × (get_activity_ranked_markets a b exchange status max_cap
              limit offset
            ≡ some items)
          × (length items ≤ limit)
          × IsFresh [] items
    unfolding get_activity_ranked_markets IsFresh
    activity-IsFresh max_cap limit offset room =
        let target = (limit + offset) % 2 ^ 64 in
        elim (Bool-cases (target == 0 || leb (2 ^ 63) target)) [
          | inl nothing ↦ ([], rw (get_activity_ranked_markets, nothing) refl, omega arith, tt)
          | inr wanted ↦ elim (Option-cases (b.activity_rows (query_limit target))) [
            | inl failed ↦
                ([], rw (get_activity_ranked_markets, wanted, failed) refl, omega arith, tt)
            | inr (rows, found) ↦
                let fits : ltb max_cap target ≡ false = ground arith in
                let results = ranked_loop a b exchange status target [] 0 rows in
                let fresh = ranked_loop-IsFresh exchange status target 0 [] [] rows (λ name q. q) in
                (
                  page_of a b exchange status limit offset results,
                  rw (get_activity_ranked_markets, wanted, found, fits) refl,
                  page_of-length limit offset results,
                  page_of-IsFresh limit offset results fresh,
                )
          ]
        ]

  fill : String → String → ℕ → List (Members F) → List (Members F)
  fill exchange status limit ranked =
      if ltb (length ranked) limit
      then get_recent_markets a b exchange status (limit - length ranked) ranked
      else []

  fill-length :
      (exchange status : String) (limit : ℕ) (ranked : List (Members F))
      → length (fill exchange status limit ranked) ≤ limit - length ranked
  unfolding fill
  fill-length exchange status limit ranked =
      let recent = get_recent_markets-length exchange status (limit - length ranked) ranked in
      ground (arith, recent)

  fill-IsFresh :
      (exchange status : String) (limit : ℕ) (ranked : List (Members F))
      → IsFresh (seen_of [] ranked) (fill exchange status limit ranked)
  unfolding fill IsFresh
  fill-IsFresh exchange status limit ranked = elim (Bool-cases (ltb (length ranked) limit)) [
    | inl few ↦ rw few (get_recent_markets-IsFresh exchange status (limit - length ranked) ranked)
    | inr enough ↦ rw enough tt
  ]

  page-cursor :
      (limit offset : ℕ) (items : List (Members F))
      → offset + limit < 2 ^ 63
      → Option.map decode_cursor (page_with a b limit offset items).next_cursor
        ≡ (if (page_with a b limit offset items).has_more then some (offset + limit) else none)
  unfolding page_with
  page-cursor limit offset items small =
      let sum : (offset + limit) % 2 ^ 64 ≡ offset + limit = omega arith in
      elim (Bool-cases (length items == limit)) [
        | inl full ↦ rw (full, sum) (ap some (decode_cursor-encode_cursor (offset + limit) small))
        | inr last ↦ rw last refl
      ]

  -- Where a slice has room for the limit and the offset together, `GetMarkets` makes a page of at
  -- most `limit` markets. No market id that is not empty stands on it twice, and it has the cursor
  -- of the next page just when it says that there is more; this cursor is read as the offset after
  -- this page.
  pub markets_page-IsFresh :
      (max_cap : ℕ) (exchange status : String) (limit offset : ℕ)
      → limit + offset ≤ max_cap
      → max_cap < 2 ^ 63
      → (page : MarketsPage a b) × (markets_page a b max_cap exchange status limit offset
          ≡ some page)
        × (length page.items ≤ limit)
        × IsFresh [] page.items
        × (Option.map decode_cursor page.next_cursor
            ≡ (if page.has_more then some (offset + limit) else none))
  unfolding markets_page page_with fill
  markets_page-IsFresh max_cap exchange status limit offset room small =
      let (ranked, made, short, fresh) =
        activity-IsFresh exchange status max_cap limit offset room in
      let more = fill exchange status limit ranked in
      (
        page_with a b limit offset (ranked ++ more),
        rw (markets_page, made) refl,
        grind (arith, length-append ranked more, fill-length exchange status limit ranked),
        IsFresh-append [] ranked more fresh (fill-IsFresh exchange status limit ranked),
        page-cursor limit offset (ranked ++ more) (omega arith),
      )
