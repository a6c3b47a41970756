-- ===== src/Cli.antt =====
-- The command line: predsx/cmd/predsx/client/client.go and the tables of
-- predsx/cmd/predsx/cmd/root.go. The HTTP request is a parameter: no answer, or a status, its text
-- and the decoded body, `none` where it is no JSON.
pub mod Api
mod Tests
use pred_sx.Base.{
  ℕ, Bool, true, false, Option, none, some, List, [], ◌∷◌, String, if◌then◌else◌, ◌==◌, append_text,
  map,
}
use pred_sx.Json.{Json, Items, Members, null, bool, num, str, arr, obj, nil, cons, end, field}

pub record Response (F : Type 0) : Type 0 where
  pub status : ℕ
  pub status_text : String
  pub body : Option (Json F)

-- What a call of the client gives: a value, or the text of an error.
pub data Got (A : Type 0) : Type 0 where
  got : A → Got A
  error : String → Got A

-- `Decode` to a map and to a list of maps; null is read as the empty one.
abbrev object_in : {F : Type 0} → Json F → Option (Members F)
object_in (obj ms) = some ms
object_in null = some end
object_in _ = none

abbrev objects_in : {F : Type 0} → Items F → Option (List (Members F))
objects_in nil = some []
objects_in (cons v vs) = elim (object_in v) [
  | none ↦ none
  | some ms ↦ elim (objects_in vs) [ none ↦ none | some rest ↦ some (ms ∷ rest) ]
]

abbrev list_in : {F : Type 0} → Json F → Option (List (Members F))
list_in (arr vs) = objects_in vs
list_in null = some []
list_in _ = none

abbrev decoded : {F A : Type 0} → (Json F → Option A) → Option (Json F) → Got A
decoded read none = error "not JSON"
decoded read (some v) = elim (read v) [ none ↦ error "not of the type" | some x ↦ got x ]

module _ {F : Type 0} (http_get : String → Option (Response F)) where
  -- The body of each call: the request, the status, the decoding.
  pub call : {A : Type 0} → (Json F → Option A) → String → Got A
  call read url = elim (http_get url) [
    | none ↦ error "no answer"
    | some r ↦
        if r.status == 200
        then decoded read r.body
        else error (append_text "api error: " r.status_text)
  ]

  pub get_markets : String → Got (List (Members F))
  unfolding call
  get_markets base_url = call list_in (append_text base_url "/v1/markets")

  abbrev market_url : String → String → String → String
  market_url base_url market_id part =
      append_text base_url (append_text "/v1/markets/" (append_text market_id part))

  pub get_price : String → String → Got (Members F)
  unfolding call
  get_price base_url market_id = call object_in (market_url base_url market_id "/price")

  pub get_orderbook : String → String → Got (Members F)
  unfolding call
  get_orderbook base_url market_id = call object_in (market_url base_url market_id "/orderbook")

  pub get_trades : String → String → Got (List (Members F))
  unfolding call
  get_trades base_url market_id = call list_in (market_url base_url market_id "/trades")

module _ {F : Type 0} where
  -- `m[key].(string)`, "" for anything else.
  pub cell : String → Members F → String
  cell key m = elim (field key m) [
    | str s ↦ s
    | null ↦ ""
    | bool t ↦ ""
    | num x ↦ ""
    | arr vs ↦ ""
    | obj ms ↦ ""
  ]

  -- The rows of the tables.
  pub market_row : Members F → List String
  unfolding cell
  market_row m = cell "id" m ∷ cell "title" m ∷ []

  pub trade_row : Members F → List String
  unfolding cell
  trade_row t = cell "trade_id" t ∷ cell "side" t ∷ cell "price" t ∷ cell "size" t ∷ []

  pub price_row : String → Members F → List String
  unfolding cell
  price_row market_id price = market_id ∷ cell "price" price ∷ []

-- What a command prints: an error, the value as JSON, or a table of rows.
pub data Printed (F : Type 0) : Type 0 where
  problem : String → Printed F
  json : Json F → Printed F
  table : List String → List (List String) → Printed F

abbrev array_of : {F : Type 0} → List (Members F) → Items F
array_of [] = nil
array_of (ms ∷ rest) = cons (obj ms) (array_of rest)

module _ {F : Type 0} (json_out : Bool) where
  -- `output`
  pub output : Json F → List String → List (List String) → Printed F
  output value header rows = if json_out then json value else table header rows

  pub markets_command : Got (List (Members F)) → Printed F
  unfolding output market_row
  markets_command (error text) = problem text
  markets_command (got ms) = output (arr (array_of ms)) ("ID" ∷ "Title" ∷ []) (map market_row ms)

  pub trades_command : Got (List (Members F)) → Printed F
  unfolding output trade_row
  trades_command (error text) = problem text
  trades_command (got ts) =
      output (arr (array_of ts)) ("ID" ∷ "Side" ∷ "Price" ∷ "Size" ∷ []) (map trade_row ts)

  pub orderbook_command : Got (Members F) → Printed F
  unfolding output
  orderbook_command (error text) = problem text
  orderbook_command (got ob) = output (obj ob) ("Price" ∷ "Size" ∷ "Type" ∷ []) []

  pub price_command : String → Got (Members F) → Printed F
  unfolding output price_row
  price_command market_id (error text) = problem text
  price_command market_id (got p) =
      output (obj p) ("Market ID" ∷ "Price" ∷ []) (price_row market_id p ∷ [])
