-- ===== src/Stream/Tests.antt =====
-- Two workers and their messages, and the theorems about the stream at them.
use pred_sx.Base.Text.{positive}
use pred_sx.Base.{
  none, some, ℕ, ◌≡◌, refl, true, false, some, List, [], ◌∷◌, String, arith, length, if◌then◌else◌,
  str_eq, All,
}
use pred_sx.Number.Integers.{ℤ}
use pred_sx.Json.{Members, str, end, member, find}
use pred_sx.Stream.{
  StreamWorker, new_worker, Phase, ready, dialled, cleared, Step, dial, clear, subscribe, add,
  add_token, send_initial, clear_subscribed, set_client, second, max_backoff, backoff_after,
  extract_event_info, has_token, get_worker_id,
}
use pred_sx.Stream.Covered.{IsCovered, Reach, start, next, Reach-IsCovered}
use pred_sx.Stream.Route.{Placed}
use pred_sx.Stream.Manager.{
  Write, connecting, clearing, subscribing, pinging, TokenMessage, on_token, work_at, work_of,
  add_at, add_token_to, guarded,
}
use pred_sx.Stream.Start.{
  ManagerEvent, not_fetched, fetched, worked, start_stream_component, start_workers, new_workers,
  manage,
}
use pred_sx.Stream.Start.Managed.{start_stream_component-Placed}

abbrev as_is : List String → List String
as_is ts = ts

-- A token comes, the worker connects, and another token comes before it has subscribed.
abbrev w1 : StreamWorker
w1 = add_token as_is "a" true new_worker

abbrev w2 : StreamWorker
w2 = add_token as_is "b" true (set_client w1)

abbrev w3 : StreamWorker
w3 = send_initial as_is true (clear_subscribed w2)

Reach-w3 : Reach as_is (ready, w3)
Reach-w3 =
    next (cleared, clear_subscribed w2) (ready, w3)
      (next (dialled, w2) (cleared, clear_subscribed w2)
        (next (dialled, set_client w1) (dialled, w2)
          (next (ready, w1) (dialled, set_client w1)
            (next (ready, new_worker) (ready, w1) start (add "a" true ready new_worker)) (dial w1))
          (add "b" true dialled (set_client w1)))
        (clear w2))
      (subscribe true (clear_subscribed w2))

Reach-IsCovered_example : IsCovered (ready, w3)
Reach-IsCovered_example = Reach-IsCovered as_is (ready, w3) (λ token tokens h. h) Reach-w3

abbrev alone : Write
alone = record { collides = false; ok = true }

-- The worker of the message sends a PING between its tokens.
abbrev token_of : String → String → TokenMessage
token_of yes_token no_token = record {
  event = record {
    market_id = "m";
    token_yes = yes_token;
    token_no = no_token;
    exchange = "";
    version = "";
  };
  first = alone;
  between = (1, pinging alone) ∷ [];
  second = record { collides = false; ok = false };
}

abbrev sum : String → ℕ
sum s = if str_eq s "a" then 7 else 4

abbrev messages : List TokenMessage
messages = token_of "a" "b" ∷ token_of "c" "d" ∷ []

-- A worker connects and a fetch fails in between.
abbrev manager_events : List ManagerEvent
manager_events =
    fetched (token_of "a" "b")
    ∷ worked 1 connecting
    ∷ worked 1 clearing
    ∷ worked 1 (subscribing alone)
    ∷ not_fetched
    ∷ fetched (token_of "c" "d")
    ∷ []

start_stream_component-Placed_example :
    (ws : List StreamWorker) × (start_stream_component as_is sum (positive 2) manager_events
      ≡ some ws)
    × (length ws ≡ 2)
    × All (Placed as_is sum ws 2) messages
start_stream_component-Placed_example =
    start_stream_component-Placed as_is sum 2 manager_events (omega arith)
      ((refl, refl, (refl, tt)), (tt, (tt, (refl, (tt, ((refl, refl, (refl, tt)), tt))))))

-- A PING that meets the write of a token ends the process.
collision :
    start_stream_component as_is sum (positive 2) (
      worked 1 connecting
      ∷ fetched (record (token_of "a" "b") { first = record { collides = true; ok = true } })
      ∷ [])
    ≡ none
unfolding start_stream_component start_workers new_workers manage on_token work_at work_of add_at
    add_token_to guarded has_token set_client get_worker_id new_worker
collision = refl

abbrev payload : Members ℤ
payload = member "type" (str "book") (member "asset" (str "a") end)

extract_event_info-payload : extract_event_info (some payload) ≡ ("book", "a")
unfolding extract_event_info pred_sx.Stream.string_at pred_sx.Stream.or_default
    pred_sx.Stream.first_string find
extract_event_info-payload = refl
