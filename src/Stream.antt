-- ===== src/Stream.antt =====
-- The WebSocket stream: `StreamManager` and `StreamWorker` of predsx/services/ingestion/main.go.
-- A write to a connection succeeds or fails by an argument `ok`, and a connection remembers what
-- was written and whether a write failed. The hash of a key (hash/fnv) and the order in which a
-- map is visited are parameters. Times are nanoseconds. `none` is a panic of the Go runtime.
pub mod Covered
pub mod Backoff
pub mod Manager
pub mod Route
pub mod Start
mod Tests
use Prim.Native.Nat.{min}
use pred_sx.Base.{
  ℕ, zero, suc, ◌+◌, ◌*◌, ◌%◌, Bool, true, false, not, Option, none, some, List, [], ◌∷◌, ◌++◌,
  String, length, if◌then◌else◌, ◌==◌, str_eq, is_empty, ◌||◌, get_elem?,
}
use pred_sx.Number.{Arith}
use pred_sx.Json.{Json, Members, find, as_string}
use pred_sx.Event.{TokenExtracted, RawWebsocketEvent}

-- What is written to the exchange.
pub data Message : Type 0 where
  initial : List String → Message
  operation : String → Message
  ping : Message

pub record Connection : Type 0 where
  pub sent : List Message
  pub is_broken : Bool

pub record StreamWorker : Type 0 where
  pub tokens : List String
  pub client : Option Connection
  pub subscribed : Bool

pub new_worker : StreamWorker
new_worker = record { tokens = []; client = none; subscribed = false }

-- `w.tokens[token]`
pub has_token : String → List String → Bool
has_token token [] = false
has_token token (t ∷ ts) = str_eq t token || has_token token ts

-- `client.WriteMessage`
pub write_message : Message → Bool → Connection → Connection
write_message m true c = record c { sent = m ∷ c.sent }
write_message m false c = record c { is_broken = true }

-- `connect` after a dial that succeeded, in its three steps.
pub set_client : StreamWorker → StreamWorker
set_client w = record w { client = some (record { sent = []; is_broken = false }) }

pub clear_subscribed : StreamWorker → StreamWorker
clear_subscribed w = record w { subscribed = false }

pub write_ping : Bool → StreamWorker → StreamWorker
unfolding write_message
write_ping ok w = elim w.client [
  | none ↦ w
  | some c ↦ record w { client = some (write_message ping ok c) }
]

-- Where the worker's own goroutine is: outside of `connect`, or after one of its assignments.
pub data Phase : Type 0 where
  ready : Phase
  dialled : Phase
  cleared : Phase

module _ (visit : List String → List String) where
  -- `sendInitialSubscriptionLocked`, and `subscribed` set where it returns true.
  pub send_initial_to : Option Connection → Bool → StreamWorker → StreamWorker
  unfolding write_message
  send_initial_to none ok w = w
  send_initial_to (some c) ok w = elim w.tokens [
    | [] ↦ w
    | t ∷ ts ↦ record w {
      client = some (write_message (initial (visit w.tokens)) ok c);
      subscribed = if ok then true else w.subscribed;
    }
  ]

  pub send_initial : Bool → StreamWorker → StreamWorker
  unfolding send_initial_to
  send_initial ok w = send_initial_to w.client ok w

  -- `AddToken` for a token that is new, when it is among the tokens.
  pub announce : String → Bool → Option Connection → StreamWorker → StreamWorker
  unfolding send_initial write_message
  announce token ok none w = w
  announce token ok (some c) w =
      if not w.subscribed
      then send_initial ok w
      else record w { client = some (write_message (operation token) ok c) }

  pub add_token : String → Bool → StreamWorker → StreamWorker
  unfolding has_token announce
  add_token token ok w =
      if has_token token w.tokens
      then w
      else announce token ok w.client (record w { tokens = token ∷ w.tokens })

  -- The worker's goroutine, its ping goroutine and the manager's `AddToken` in any order. A dial
  -- that fails changes nothing.
  pub data Step : Phase × StreamWorker → Phase × StreamWorker → Type 0 where
    dial : (w : StreamWorker) → Step (ready, w) (dialled, set_client w)
    clear : (w : StreamWorker) → Step (dialled, w) (cleared, clear_subscribed w)
    subscribe : (ok : Bool) (w : StreamWorker) → Step (cleared, w) (ready, send_initial ok w)
    write :
        (ok : Bool) (phase : Phase) (w : StreamWorker) → Step (phase, w) (phase, write_ping ok w)
    add :
        (token : String) (ok : Bool) (phase : Phase) (w : StreamWorker)
        → Step (phase, w) (phase, add_token token ok w)

-- The backoff of `Start`.
abbrev pub second : ℕ
second = 1_000_000_000

abbrev pub max_backoff : ℕ
max_backoff = 60 * second

pub next_backoff : ℕ → ℕ
next_backoff backoff = min (backoff * 2) max_backoff

-- The backoff after the loop has seen the results of some connections.
pub backoff_after : ℕ → List Bool → ℕ
unfolding next_backoff
backoff_after backoff [] = backoff
backoff_after backoff (true ∷ results) = backoff_after second results
backoff_after backoff (false ∷ results) = backoff_after (next_backoff backoff) results

-- `extractEventInfo`; `none` is data that is no JSON object.
pub or_default : String → String
or_default event_type = if is_empty event_type then "polymarket_update" else event_type

module _ {F : Type 0} where
  pub string_at : String → Members F → String
  string_at key ms = elim (as_string (find key ms)) [ none ↦ "" | some s ↦ s ]

  pub first_string : List String → Members F → String
  first_string [] ms = ""
  first_string (key ∷ keys) ms = elim (as_string (find key ms)) [
    | some s ↦ s
    | none ↦ first_string keys ms
  ]

  pub extract_event_info : Option (Members F) → String × String
  unfolding or_default string_at first_string
  extract_event_info none = ("polymarket_update", "")
  extract_event_info (some payload) =
      let event_type = string_at "event_type" payload in
      let named = if is_empty event_type then string_at "type" payload else event_type in
      (or_default named, first_string ("asset_id" ∷ "asset" ∷ "token" ∷ []) payload)

  -- The body of `readLoop` for a message: the event that it publishes.
  pub on_read : (String → Option (Members F)) → ℕ → String → Option RawWebsocketEvent
  unfolding extract_event_info
  on_read decode now bytes =
      if str_eq bytes "PONG" || str_eq bytes "PING"
      then none
      else (let (event_type, token) = extract_event_info (decode bytes) in
          some
            (record { event_type = event_type; token = token; payload = bytes; timestamp = now }))

-- `getWorkerID`
pub get_worker_id : (String → ℕ) → ℕ → String → Option ℕ
get_worker_id sum32 zero key = none
get_worker_id sum32 (suc n) key = some (sum32 key % suc n)
