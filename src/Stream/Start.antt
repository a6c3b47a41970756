-- ===== src/Stream/Start.antt =====
-- How the stream starts and goes round: `startStreamComponent`, the loop of `Start` and that of
-- `readLoop` of predsx/services/ingestion/main.go.
-- `none` is a panic of the Go runtime. Parameters: the hash of a key, the order in which a map is
-- visited, and the JSON reader of a message. The end of the context is the end of a list.
pub mod Managed
use pred_sx.Base.{ℕ, zero, suc, Bool, Option, none, some, List, [], ◌∷◌, ◌++◌, String}
use pred_sx.Base.Text.{Parsed, positive, negative, above, below, malformed}
use pred_sx.Json.{Members}
use pred_sx.Event.{RawWebsocketEvent}
use pred_sx.Stream.{StreamWorker, new_worker, on_read, second, next_backoff}
use pred_sx.Stream.Manager.{Work, work_at, TokenMessage, on_token}

unfoldable pub new_workers : ℕ → List StreamWorker
unfolding new_worker
new_workers zero = []
new_workers (suc n) = new_worker ∷ new_workers n

-- `make([]*StreamWorker, numConns)` and the loop that fills it.
unfoldable pub start_workers : Parsed → Option (List StreamWorker)
unfolding new_workers
start_workers (positive n) = some (new_workers n)
start_workers (negative n) = none
start_workers _ = none

-- What happens once the workers are started: the manager's loop fetches a message, or an error, or
-- the goroutines of a worker do something.
pub data ManagerEvent : Type 0 where
  not_fetched : ManagerEvent
  fetched : TokenMessage → ManagerEvent
  worked : ℕ → Work → ManagerEvent

unfoldable pub manage :
    (List String → List String)
    → (String → ℕ)
    → List ManagerEvent
    → List StreamWorker
    → Option (List StreamWorker)
unfolding on_token work_at
manage visit sum32 [] ws = some ws
manage visit sum32 (not_fetched ∷ events) ws = manage visit sum32 events ws
manage visit sum32 (fetched m ∷ events) ws = elim (on_token visit sum32 m ws) [
  | none ↦ none
  | some ws' ↦ manage visit sum32 events ws'
]
manage visit sum32 (worked id work ∷ events) ws = elim (work_at visit id work ws) [
  | none ↦ none
  | some ws' ↦ manage visit sum32 events ws'
]

-- `startStreamComponent`
unfoldable pub start_stream_component :
    (List String → List String)
    → (String → ℕ)
    → Parsed
    → List ManagerEvent
    → Option (List StreamWorker)
unfolding start_workers manage
start_stream_component visit sum32 num_conns events = elim (start_workers num_conns) [
  | none ↦ none
  | some ws ↦ manage visit sum32 events ws
]

-- `readLoop`: what it publishes for what it reads, until a read fails.
pub read_loop :
    {F : Type 0}
    → (String → Option (Members F))
    → List (Option (String × ℕ))
    → List RawWebsocketEvent
unfolding on_read
read_loop decode [] = []
read_loop decode (none ∷ reads) = []
read_loop decode (some (bytes, now) ∷ reads) = elim (on_read decode now bytes) [
  | none ↦ read_loop decode reads
  | some e ↦ e ∷ read_loop decode reads
]

-- A round of `Start`: no token yet, a dial that fails, or a connection with what it reads.
pub data Round : Type 0 where
  no_tokens refused : Round
  connection : List (Option (String × ℕ)) → Round

-- The waits and the events of some rounds, from a backoff.
pub worker_rounds :
    {F : Type 0} → (String → Option (Members F)) → ℕ → List Round → List ℕ × List RawWebsocketEvent
unfolding next_backoff read_loop
worker_rounds decode backoff [] = ([], [])
worker_rounds decode backoff (no_tokens ∷ rounds) =
    let (waits, events) = worker_rounds decode backoff rounds in (second ∷ waits, events)
worker_rounds decode backoff (refused ∷ rounds) =
    let (waits, events) = worker_rounds decode (next_backoff backoff) rounds in
    (backoff ∷ waits, events)
worker_rounds decode backoff (connection reads ∷ rounds) =
    let (waits, events) = worker_rounds decode second rounds in
    (waits, read_loop decode reads ++ events)
