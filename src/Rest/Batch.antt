-- ===== src/Rest/Batch.antt =====
-- `GetBatchPrices` of predsx/services/api/handlers/rest.go.
pub mod Prices
use pred_sx.Base.{
  ℕ, Bool, true, false, Option, none, some, List, [], ◌∷◌, String, if◌then◌else◌, is_empty,
  append_text, take,
}
use pred_sx.Base.Dict.{Dict, insert}
use pred_sx.Base.Split.{split, trim_space}
use pred_sx.Number.{Arith}
use pred_sx.Json.{Json, null}
use pred_sx.Rest.Backend.{Backend}
use pred_sx.Rest.Params.{get_query}
use pred_sx.Rest.Market.{get_object}
use pred_sx.Rest.Reply.{of_map}

abbrev pub max_ids : ℕ
max_ids = 100

-- The texts between the commas, whose code is 44, and at most 100 of them.
pub batch_ids : String → List String
batch_ids ids_param = take max_ids (split 44 ids_param)

module _ {F : Type 0} (a : Arith F) (b : Backend F) where
  pub batch_value : String → Json F
  batch_value id = elim (get_object a b (append_text "live:price:" id)) [
    | none ↦ null
    | some ms ↦ of_map ms
  ]

  -- The loop over the ids, with the result so far.
  pub batch_loop : List String → Dict (Json F) → Dict (Json F)
  unfolding batch_value
  batch_loop [] result = result
  batch_loop (raw ∷ ids) result =
      let id = trim_space raw in
      batch_loop ids (if is_empty id then result else insert id (batch_value id) result)

  pub get_batch_prices : Dict String → Dict (Json F)
  unfolding batch_ids batch_loop
  get_batch_prices query =
      let ids_param = trim_space (get_query query "ids" "") in
      if is_empty ids_param then [] else batch_loop (batch_ids ids_param) []
