-- ===== src/Rest/Scan.antt =====
-- The loops over the keys that Redis scans: `collectSignals` and `GetDebugMarkets` of
-- predsx/services/api/handlers/rest.go. They go on until the cursor is 0 again; the model has fuel
-- for them, and `none` when it is used up.
pub mod Complete
use pred_sx.Base.{
  ℕ, zero, suc, ◌-◌, Bool, true, false, not, ◌&&◌, Option, none, some, List, [], ◌∷◌, ◌++◌, String,
  if◌then◌else◌, ◌==◌, is_empty, append_text, map,
}
use pred_sx.Base.Split.{split}
use pred_sx.Number.{Arith}
use pred_sx.Json.{
  Json, Items, Members, null, bool, str, num, arr, obj, nil, cons, end, member, field,
}
use pred_sx.Rest.Backend.{Backend}
use pred_sx.Rest.Reply.{of_map}
use pred_sx.Rest.Market.{get_object, with_members}

abbrev pub signal_pattern : String → String → String
signal_pattern market_id signal_type =
    if not (is_empty market_id) && not (is_empty signal_type)
    then append_text "signal:latest:" (append_text market_id (append_text ":" signal_type))
    else (if not (is_empty market_id)
        then append_text "signal:latest:" (append_text market_id ":*")
        else (if not (is_empty signal_type)
            then append_text "signal:latest:*:" signal_type
            else "signal:latest:*"))

module _ {F : Type 0} (a : Arith F) (b : Backend F) where
  -- What the loop reads for one key, or nothing.
  module _ (read : String → Option (Json F)) where
    pub read_keys : List String → List (Json F)
    read_keys [] = []
    read_keys (key ∷ keys) = elim (read key) [ none ↦ read_keys keys | some v ↦ v ∷ read_keys keys ]

    -- What is read from a cursor on, and whether the loop ended with an error.
    pub scan_loop : String → ℕ → ℕ → ℕ → Option (Bool × List (Json F))
    unfolding read_keys
    scan_loop pattern count zero cursor = none
    scan_loop pattern count (suc fuel) cursor = elim (b.scan pattern count cursor) [
      | none ↦ some (true, [])
      | some (keys, next) ↦ elim (next == 0) [
        | true ↦ some (false, read_keys keys)
        | false ↦ elim (scan_loop pattern count fuel next) [
          | none ↦ none
          | some (failed, rest) ↦ some (failed, read_keys keys ++ rest)
        ]
      ]
    ]

  pub read_signal : String → Option (Json F)
  read_signal key = elim (get_object a b key) [ none ↦ none | some ms ↦ some (of_map ms) ]

  -- `collectSignals`, which gives what it has read before an error.
  pub collect_signals : ℕ → String → String → Option (List (Json F))
  unfolding scan_loop read_signal
  collect_signals fuel market_id signal_type =
      elim (scan_loop read_signal (signal_pattern market_id signal_type) 200 fuel 0) [
        | none ↦ none
        | some (failed, signals) ↦ some signals
      ]

  abbrev half : F
  half = a.lit 5 1

  -- The snapshot of a price, which is nil where there is none.
  pub live_price : String → Option (Members F)
  live_price market_id = elim (get_object a b (append_text "live:price:" market_id)) [
    | none ↦ none
    | some pd ↦ pd
  ]

  abbrev num_in : String → Option (Members F) → Option F
  num_in key none = none
  num_in key (some ms) = elim (field key ms) [
    | num x ↦ some x
    | null ↦ none
    | bool t ↦ none
    | str s ↦ none
    | arr vs ↦ none
    | obj os ↦ none
  ]

  -- The prices of the two sides, a half each where the snapshot has no price.
  pub debug_sides : Option (Members F) → List (String × Json F)
  debug_sides pd = elim (num_in "price" pd) [
    | none ↦ ("yes_price", num half) ∷ ("no_price", num half) ∷ []
    | some p ↦ ("yes_price", num p) ∷ ("no_price", num (a.sub (a.lit 1 0) p)) ∷ []
  ]

  pub debug_volume : Option (Members F) → F
  debug_volume pd = elim (num_in "volume_24h" pd) [ none ↦ a.lit 0 0 | some v ↦ v ]

  abbrev second_of_three : List String → Option String
  second_of_three (x ∷ y ∷ z ∷ []) = some y
  second_of_three _ = none

  -- The entry for a key `market:{id}:tokens`; 58 is the colon.
  pub read_market : String → Option (Json F)
  unfolding live_price debug_sides debug_volume
  read_market key = elim (second_of_three (split 58 key)) [
    | none ↦ none
    | some market_id ↦
        let pd = live_price market_id in
        some (
          obj (
            with_members
              (("market_id", str market_id) ∷ debug_sides pd
                ++ ("volume", num (debug_volume pd)) ∷ [])
              end))
  ]

  -- `GetDebugMarkets`: `some none` is the answer of an error.
  pub get_debug_markets : ℕ → Option (Option (List (Json F)))
  unfolding scan_loop read_market
  get_debug_markets fuel = elim (scan_loop read_market "market:*:tokens" 100 fuel 0) [
    | none ↦ none
    | some (failed, markets) ↦ some (if failed then none else some markets)
  ]
