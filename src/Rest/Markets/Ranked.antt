-- ===== src/Rest/Markets/Ranked.antt =====
-- The page of markets by activity against the whole list of them.
use pred_sx.Base.{
  ℕ, zero, suc, ◌+◌, ◌-◌, ◌%◌, ◌^◌, ◌≤◌, ◌<◌, ◌≡◌, refl, sym, ap, ◌∙◌, true, false, ◌||◌, inl, inr,
  Option, none, some, List, [], ◌∷◌, String, arith, ltb, leb, ◌==◌, Bool-cases, Option-cases,
  length, take, drop, take-nil, take-all, drop-all, length-drop, window-take,
}
use pred_sx.Number.{Arith}
use pred_sx.Json.{Members}
use pred_sx.Rest.Backend.{Backend}
use pred_sx.Rest.Markets.{listed, ranked_loop, page_of, get_activity_ranked_markets, query_limit}

-- The slice of the results is the window of `limit` of them from the offset on.
pub page_of-window :
    {F : Type 0} (a : Arith F) (b : Backend F) (exchange status : String) (limit offset : ℕ)
    (results : List (Members F))
    → page_of a b exchange status limit offset results ≡ take limit (drop offset results)
unfolding page_of
page_of-window a b exchange status limit offset results =
    elim (Bool-cases (leb (length results) offset)) [
      | inl beyond ↦
          rw beyond
            (sym (ap (take limit) (drop-all offset results (ground arith)) ∙ take-nil limit))
      | inr within ↦ rw within (elim (Bool-cases (ltb (offset + limit) (length results))) [
        | inl more ↦
            let count : (offset + limit) - offset ≡ limit = omega arith in
            rw more (ap (λ n. take n (drop offset results)) count)
        | inr last ↦
            let short : length (drop offset results) ≤ limit =
              grind (arith, length-drop offset results) in
            let whole : length (drop offset results) ≤ length results - offset =
              omega (arith, length-drop offset results) in
            rw last (
              take-all (length results - offset) (drop offset results) whole
              ∙ sym (take-all limit (drop offset results) short))
      ])
    ]

module _ {F : Type 0} (a : Arith F) (b : Backend F) (exchange status : String) where
  -- All listed markets of some rows, each at its first row.
  pub ranked : List String → List (Option String) → List (Members F)
  ranked seen [] = []
  ranked seen (none ∷ rows) = ranked seen rows
  ranked seen (some market_id ∷ rows) = elim (listed a b exchange status seen market_id) [
    | none ↦ ranked seen rows
    | some (id, item) ↦ item ∷ ranked (id ∷ seen) rows
  ]

  ranked_loop-take :
      (target k n : ℕ) (seen : List String) (rows : List (Option String))
      → n + suc k ≡ target
      → ranked_loop a b exchange status target seen n rows ≡ take (suc k) (ranked seen rows)
  unfolding ranked_loop ranked
  ranked_loop-take target k n seen [] e = refl
  ranked_loop-take target k n seen (none ∷ rows) e = ranked_loop-take target k n seen rows e
  ranked_loop-take target zero n seen (some market_id ∷ rows) e =
      let last : leb target (n + 1) ≡ true = ground arith in
      elim (Option-cases (listed a b exchange status seen market_id)) [
        | inl skipped ↦
            rw (ranked_loop, ranked, skipped) (ranked_loop-take target zero n seen rows e)
        | inr ((id, item), found) ↦ rw (ranked_loop, ranked, found, last) refl
      ]
  ranked_loop-take target (suc k) n seen (some market_id ∷ rows) e =
      let goes_on : leb target (n + 1) ≡ false = ground arith in
      elim (Option-cases (listed a b exchange status seen market_id)) [
        | inl skipped ↦
            rw (ranked_loop, ranked, skipped) (ranked_loop-take target (suc k) n seen rows e)
        | inr ((id, item), found) ↦
            rw (ranked_loop, ranked, found, goes_on)
              (ap (λ items. item ∷ items)
                (ranked_loop-take target k (n + 1) (id ∷ seen) rows (omega arith)))
      ]

  -- When ClickHouse gives the rows of markets by activity, and the offset and the limit, which is
  -- not 0, add up to a number that an `int` and a slice hold, the markets by activity are the window
  -- of `limit` markets from the offset on in the list of all listed markets of these rows.
  pub get_activity_ranked_markets-window :
      (max_cap limit offset : ℕ) (rows : List (Option String))
      → 0 < limit
      → limit + offset < 2 ^ 63
      → limit + offset ≤ max_cap
      → b.activity_rows (query_limit (limit + offset)) ≡ some rows
      → get_activity_ranked_markets a b exchange status max_cap limit offset
        ≡ some (take limit (drop offset (ranked [] rows)))
  unfolding get_activity_ranked_markets
  get_activity_ranked_markets-window max_cap zero offset rows positive small room found =
      elim positive [ ]
  get_activity_ranked_markets-window max_cap (suc limit) offset rows positive small room found =
      let target : (suc limit + offset) % 2 ^ 64 ≡ suc limit + offset = omega arith in
      let holds : (suc limit + offset == 0 || leb (2 ^ 63) (suc limit + offset)) ≡ false =
        ground arith in
      let fits : ltb max_cap ((suc limit + offset) % 2 ^ 64) ≡ false = ground (arith, target) in
      let count : suc (limit + offset) ≡ suc limit + offset = omega arith in
      let whole =
        ranked_loop-take ((suc limit + offset) % 2 ^ 64) (limit + offset) 0 [] rows (omega arith) in
      let cut = λ (n : ℕ). take (suc limit) (drop offset (take n (ranked [] rows))) in
      rw (get_activity_ranked_markets, target, holds, found, fits)
        (ap some (
          page_of-window a b exchange status (suc limit) offset _
          ∙ ap (λ items. take (suc limit) (drop offset items)) whole
          ∙ ap cut count
          ∙ window-take offset (suc limit) (ranked [] rows)))
