-- ===== src/Storage/Tests.antt =====
-- A message with two changes and a run of the buffer, and the theorems about them.
use pred_sx.Base.{ℕ, ◌≡◌, refl, true, Option, none, List, [], ◌∷◌, ◌++◌, String}
use pred_sx.Number.Integers.{ℤ, pos}
use pred_sx.Json.{Json, Members, str, num, arr, obj, nil, cons, end, member}
use pred_sx.Event.{TradeEvent, NormalizedEvent}
use pred_sx.Storage.{empty_store, Event, appended, ticked, run, tick}
use pred_sx.Storage.Buffer.{appends, run-held}

abbrev change : Json ℤ
change =
    obj
      (member "asset_id" (str "t") (member "price" (num (pos 4)) (member "size" (num (pos 2)) end)))

abbrev payload : Members ℤ
payload =
    member "event_type" (str "price_change") (
      member "market" (str "m")
        (member "price_changes" (arr (cons change (cons (str "") nil))) end))

abbrev nothing_known : String → Option String
nothing_known key = none

abbrev digest : String → String
digest text = "0f"

abbrev as_is : String → String
as_is text = text

abbrev json_of : TradeEvent ℤ → String
json_of t = t.trade_id

abbrev no_time : Json ℤ → ℕ
no_time v = 0

abbrev event_of : String → NormalizedEvent
event_of id = record {
  event_id = id;
  event_type = "predsx.trades";
  market_id = "m";
  payload = "{}";
  metadata = [];
  timestamp = 70;
  version = "";
}

abbrev events : List Event
events =
    appended (event_of "1")
    ∷ appended (event_of "2")
    ∷ ticked true
    ∷ ticked true
    ∷ appended (event_of "3")
    ∷ []

run-held_example :
    ((run events empty_store).events_raw ++ (run events empty_store).buffer ≡ appends events)
    × ((tick true (run events empty_store)).events_raw ≡ appends events)
run-held_example = run-held events (refl, (refl, tt))
