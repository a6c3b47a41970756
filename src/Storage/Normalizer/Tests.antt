-- ===== src/Storage/Normalizer/Tests.antt =====
-- A run of the normalizer with a trade and a failed fetch, and the theorem about it.
use pred_sx.Base.{ℕ, refl, true, false, Option, none, some, List, [], ◌∷◌, String}
use pred_sx.Number.Integers.{ℤ, pos, integers}
use pred_sx.Json.{Json, Members, str, num, member, end}
use pred_sx.Event.{TradeEvent, PriceLevel}
use pred_sx.Storage.Normalizer.{
  NormalizerInput, Answers, websocket, on_chain, flushed, new_normalizer, handle_inputs,
}
use pred_sx.Storage.Normalizer.Mirrored.{Mirrored, handle_inputs-Mirrored}

abbrev payload : Members ℤ
payload =
    member "event_type" (str "last_trade_price")
      (member "market" (str "m") (member "price" (num (pos 4)) (member "size" (num (pos 2)) end)))

abbrev nothing_known : String → Option String
nothing_known key = none

abbrev digest : String → String
digest text = "0f"

abbrev as_is : String → String
as_is text = text

abbrev json_of : TradeEvent ℤ → String
json_of t = t.trade_id

abbrev no_time : Json ℤ → ℕ
no_time v = 0

abbrev decode : String → Members ℤ
decode text = payload

abbrev no_levels : List PriceLevel → String
no_levels levels = "[]"

-- Each write succeeds.
abbrev taken : Answers
taken i = true

abbrev inputs : List NormalizerInput
inputs =
    websocket 70 taken
      (some (record { event_type = ""; token = ""; payload = "{}"; timestamp = 70 }))
    ∷ on_chain false none
    ∷ flushed true
    ∷ []

handle_inputs-Mirrored_example : Mirrored (
    handle_inputs integers nothing_known digest as_is json_of no_time decode no_levels inputs
      new_normalizer)
handle_inputs-Mirrored_example =
    handle_inputs-Mirrored integers nothing_known digest as_is json_of no_time decode no_levels
      inputs ((λ i. refl), (tt, (tt, tt)))
