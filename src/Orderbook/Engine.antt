-- ===== src/Orderbook/Engine.antt =====
-- The engine over a history of messages: its books and what it sends out.
use pred_sx.Base.{
  ℕ, ◌≡◌, Bool, true, false, ◌||◌, Option, none, some, List, [], ◌∷◌, String, arith, if◌then◌else◌,
  str_eq, is_empty, append_text, All, All-append, Bool-cases, Option-cases, inl, inr,
}
use pred_sx.Base.Dict.{Dict, lookup, insert}
use pred_sx.Number.{Arith}
use pred_sx.Json.{Json, Members, field, get_string, as_array, as_object}
use pred_sx.Event.{OrderbookUpdate}
use pred_sx.Orderbook.{
  Orderbook, Effect, market_keys, apply_book, new_book, on_book, on_change, on_changes, on_payload,
  on_raw, on_priced, on_named, Message, run,
}
use pred_sx.Orderbook.Levels.{IsSide, final_size, lookup-apply_levels, apply_levels-IsSide}
use pred_sx.Orderbook.Sort.{SortFunction}

pub record IsBook (ob : Orderbook) : Type 0 where
  pub bids : IsSide ob.bids
  pub asks : IsSide ob.asks

abbrev pub AllBooks : Dict Orderbook → Type 0
AllBooks obs = All (λ e. IsBook e.1) obs

-- The update names a market and a token.
pub record IsAddressed (u : OrderbookUpdate) : Type 0 where
  pub market : is_empty u.market_id ≡ false
  pub token : is_empty u.token ≡ false

-- An update goes to its market's partition and to its market's Redis key.
abbrev pub IsSent : Effect → Type 0
IsSent (Effect.publish k u) = (k ≡ u.market_id) × IsAddressed u
IsSent (Effect.cache k u) = (k ≡ append_text "predsx:orderbook:" u.market_id) × IsAddressed u

insert-AllBooks :
    (k : String) (ob : Orderbook) (obs : Dict Orderbook)
    → IsBook ob
    → AllBooks obs
    → AllBooks (insert k ob obs)
unfolding insert
insert-AllBooks k ob [] b all = (b, tt)
insert-AllBooks k ob ((j, other) ∷ obs) b all = elim (Bool-cases (str_eq j k)) [
  | inl e ↦ rw e (b, all.1)
  | inr e ↦ rw e (all.0, insert-AllBooks k ob obs b all.1)
]

abbrev OptionBook : Option Orderbook → Type 0
OptionBook none = Unit
OptionBook (some ob) = IsBook ob

lookup-AllBooks : (k : String) (obs : Dict Orderbook) → AllBooks obs → OptionBook (lookup k obs)
unfolding lookup
lookup-AllBooks k [] all = tt
lookup-AllBooks k ((j, ob) ∷ obs) all = elim (Bool-cases (str_eq j k)) [
  | inl e ↦ rw e all.0
  | inr e ↦ rw e (lookup-AllBooks k obs all.1)
]

empty-IsSide : IsSide []
empty-IsSide = record { unique = tt; sizes = tt }

new_book-IsBook :
    (market token : String) (found : Option Orderbook)
    → OptionBook found
    → IsBook (new_book market token found)
new_book-IsBook market token none b = record { bids = empty-IsSide; asks = empty-IsSide }
new_book-IsBook market token (some ob) b = b

cleared-IsSide : (clear : Bool) (m : Dict String) → IsSide m → IsSide (if clear then [] else m)
cleared-IsSide true m s = empty-IsSide
cleared-IsSide false m s = s

module _ {F : Type 0} (a : Arith F) (composite : Json F → String) where
  apply_book-IsBook :
      (payload : Members F) (ob : Orderbook)
      → IsBook ob
      → IsBook (apply_book a composite payload ob)
  unfolding apply_book
  apply_book-IsBook payload ob b = record {
    bids =
        apply_levels-IsSide a composite (field "bids" payload) _ (cleared-IsSide _ ob.bids b.bids);
    asks =
        apply_levels-IsSide a composite (field "asks" payload) _ (cleared-IsSide _ ob.asks b.asks);
  }

  -- After a message of type "book" or "snapshot" with arrays of bids and asks, each price of a side
  -- has the last size that the message gives it there, whatever the book held before: nothing of the
  -- old book is left.
  pub apply_book-snapshot :
      (payload : Members F) (ob : Orderbook) (bids asks : List (Json F)) (k : String)
      → (str_eq (get_string payload ("event_type" ∷ "type" ∷ [])) "book"
          || str_eq (get_string payload ("event_type" ∷ "type" ∷ [])) "snapshot")
        ≡ true
      → as_array (field "bids" payload) ≡ some bids
      → as_array (field "asks" payload) ≡ some asks
      → (lookup k (apply_book a composite payload ob).bids ≡ final_size a composite k bids none)
        × (lookup k (apply_book a composite payload ob).asks ≡ final_size a composite k asks none)
  unfolding apply_book lookup
  apply_book-snapshot payload ob bids asks k snap hb ha = rw snap (
    lookup-apply_levels a composite k (field "bids" payload) bids [] hb,
    lookup-apply_levels a composite k (field "asks" payload) asks [] ha,
  )

  on_priced-IsSent :
      (now : ℕ) (market token : String) (change : Members F)
      → All IsSent (on_priced a composite now market token change)
  unfolding on_priced
  on_priced-IsSent now market token change = ground arith

  module _ (get : String → Option String) (now : ℕ) where
    on_change-IsSent :
        (market_ref : String) (item : Json F)
        → All IsSent (on_change a composite get now market_ref item)
    unfolding on_change
    on_change-IsSent market_ref item = elim (Option-cases (as_object item)) [
      | inl e ↦ rw (e, on_change) tt
      | inr (change, e) ↦ rw (e, on_change) (on_priced-IsSent now _ _ change)
    ]

    on_changes-IsSent :
        (market_ref : String) (items : List (Json F))
        → All IsSent (on_changes a composite get now market_ref items)
    unfolding on_changes
    on_changes-IsSent market_ref [] = tt
    on_changes-IsSent market_ref (item ∷ items) =
        All-append IsSent _ _ (on_change-IsSent market_ref item)
          (on_changes-IsSent market_ref items)

  module _ (sort : SortFunction) where
    Keeps : Dict Orderbook × List Effect → Type 0
    Keeps (obs, effects) = AllBooks obs × All IsSent effects

    on_named-Keeps :
        (now : ℕ) (market token : String) (payload : Members F) (obs : Dict Orderbook)
        → AllBooks obs
        → Keeps (on_named a composite sort now market token payload obs)
    unfolding on_named Keeps
    on_named-Keeps now market token payload obs all =
        let key = append_text market (append_text ":" token) in
        let b = new_book-IsBook market token (lookup key obs) (lookup-AllBooks key obs all) in
        let all' = insert-AllBooks key _ obs (apply_book-IsBook payload _ b) all in
        ground (arith, all')

    module _ (get : String → Option String) (now : ℕ) where
      on_payload-Keeps :
          (changes : Option (List (Json F))) (payload : Members F) (obs : Dict Orderbook)
          → AllBooks obs
          → Keeps (on_payload a composite sort get now changes payload obs)
      unfolding on_payload on_book Keeps
      on_payload-Keeps (some (item ∷ items)) payload obs all =
          (all, on_changes-IsSent get now (get_string payload market_keys) (item ∷ items))
      on_payload-Keeps _ payload obs all = on_named-Keeps now _ _ payload obs all

      on_raw-Keeps :
          (payload : Option (Members F)) (obs : Dict Orderbook)
          → AllBooks obs
          → Keeps (on_raw a composite sort get now payload obs)
      unfolding on_raw Keeps
      on_raw-Keeps none obs all = (all, tt)
      on_raw-Keeps (some payload) obs all = on_payload-Keeps _ payload obs all

    run-Keeps :
        (ms : List (Message F)) (obs : Dict Orderbook)
        → AllBooks obs
        → Keeps (run a composite sort ms obs)
    unfolding run Keeps
    run-Keeps [] obs all = (all, tt)
    run-Keeps (m ∷ ms) obs all =
        let (all', sent) = on_raw-Keeps m.get m.now m.payload obs all in
        let (all'', sent') = run-Keeps ms _ all' in (all'', All-append IsSent _ _ sent sent')

    -- After any history of messages, every book has each price once on a side and no size that means
    -- removal; and every update that was sent out names a market and a token, and has its market as
    -- the key of its message, or in the Redis key under which it is cached.
    pub run-IsValid :
        (ms : List (Message F))
        → AllBooks (run a composite sort ms []).0 × All IsSent (run a composite sort ms []).1
    unfolding Keeps
    run-IsValid ms = run-Keeps ms [] tt
