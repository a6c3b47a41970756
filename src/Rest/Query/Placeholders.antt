-- ===== src/Rest/Query/Placeholders.antt =====
-- Each query of the handlers has as many placeholders as arguments.
use pred_sx.Base.{
  ℕ, suc, ◌+◌, ◌≡◌, refl, inl, inr, Option, none, some, List, [], ◌∷◌, String, if◌then◌else◌,
  str_eq, ◌==◌, is_empty, Bool-cases, length,
}
use pred_sx.Base.Text.{codes}
use pred_sx.Number.{Arith}
use pred_sx.Rest.Backend.{Backend}
use pred_sx.Rest.Markets.{recent_query, recent_args}
use pred_sx.Rest.Params.{Instant}
use pred_sx.Rest.Query.{
  trades_query, range_args, history_table, history_query, search_query, search_args,
}

-- The number of question marks of a text.
unfoldable pub marks : List ℕ → ℕ
marks [] = 0
marks (c ∷ cs) = let rest = marks cs in if c == 63 then suc rest else rest

unfoldable pub placeholders : List String → ℕ
unfolding marks
placeholders [] = 0
placeholders (piece ∷ pieces) = marks (codes piece) + placeholders pieces

trades_query-placeholders :
    (id condition_id : String) (from to : Option Instant) (limit : ℕ)
    → placeholders (trades_query from to) ≡ length (range_args id condition_id from to limit)
unfolding placeholders trades_query range_args
trades_query-placeholders id condition_id none none limit = refl
trades_query-placeholders id condition_id none (some u) limit = refl
trades_query-placeholders id condition_id (some t) none limit = refl
trades_query-placeholders id condition_id (some t) (some u) limit = refl

history_table-placeholders : (resolution : String) → marks (codes (history_table resolution)) ≡ 0
unfolding marks history_table
history_table-placeholders resolution = elim (Bool-cases (str_eq resolution "5m")) [
  | inl five ↦ rw five refl
  | inr other ↦ rw other (elim (Bool-cases (str_eq resolution "1h")) [
    | inl hour ↦ rw hour refl
    | inr more ↦ rw more (elim (Bool-cases (str_eq resolution "1s")) [
      | inl second ↦ rw second refl
      | inr none_of_them ↦ rw none_of_them refl
    ])
  ])
]

history_query-placeholders :
    (resolution id condition_id : String) (from to : Option Instant) (limit : ℕ)
    → placeholders (history_query resolution from to)
      ≡ length (range_args id condition_id from to limit)
unfolding placeholders history_query range_args
history_query-placeholders resolution id condition_id none none limit =
    rw (history_table-placeholders resolution) refl
history_query-placeholders resolution id condition_id none (some u) limit =
    rw (history_table-placeholders resolution) refl
history_query-placeholders resolution id condition_id (some t) none limit =
    rw (history_table-placeholders resolution) refl
history_query-placeholders resolution id condition_id (some t) (some u) limit =
    rw (history_table-placeholders resolution) refl

search_query-placeholders :
    (q exchange status : String) (limit : ℕ)
    → placeholders (search_query exchange status) ≡ length (search_args q exchange status limit)
unfolding placeholders search_query search_args
search_query-placeholders q exchange status limit = elim (Bool-cases (is_empty exchange)) [
  | inl all ↦
      rw all (elim (Bool-cases (is_empty status)) [ inl any ↦ rw any refl | inr one ↦ rw one refl ])
  | inr given ↦
      rw given
        (elim (Bool-cases (is_empty status)) [ inl any ↦ rw any refl | inr one ↦ rw one refl ])
]

module _ {F : Type 0} (a : Arith F) (b : Backend F) where
  recent_query-placeholders :
      (exchange status : String) (limit : ℕ)
      → placeholders (recent_query a b exchange status)
        ≡ length (recent_args a b exchange status limit)
  unfolding placeholders recent_query recent_args
  recent_query-placeholders exchange status limit = elim (Bool-cases (is_empty exchange)) [
    | inl all ↦
        rw all
          (elim (Bool-cases (is_empty status)) [ inl any ↦ rw any refl | inr one ↦ rw one refl ])
    | inr given ↦
        rw given
          (elim (Bool-cases (is_empty status)) [ inl any ↦ rw any refl | inr one ↦ rw one refl ])
  ]

  -- Whichever conditions a request sets, the query for trades, for the history of a price, for a
  -- search and for the recent markets has as many placeholders as arguments.
  pub placeholders-args :
      (id condition_id resolution q exchange status : String) (from to : Option Instant) (limit : ℕ)
      → (placeholders (trades_query from to) ≡ length (range_args id condition_id from to limit))
        × (placeholders (history_query resolution from to)
            ≡ length (range_args id condition_id from to limit))
        × (placeholders (search_query exchange status)
            ≡ length (search_args q exchange status limit))
        × (placeholders (recent_query a b exchange status)
            ≡ length (recent_args a b exchange status limit))
  placeholders-args id condition_id resolution q exchange status from to limit = (
    trades_query-placeholders id condition_id from to limit,
    history_query-placeholders resolution id condition_id from to limit,
    search_query-placeholders q exchange status limit,
    recent_query-placeholders exchange status limit,
  )
