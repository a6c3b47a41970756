-- ===== src/Storage/Normalizer/Mirrored.antt =====
-- What goes to Kafka and what goes to ClickHouse.
use mathlib.Core.List.{append-nil}
use pred_sx.Base.{
  ℕ, ◌≡◌, refl, sym, ap, ◌∙◌, inl, inr, Bool, true, false, ◌&&◌, not, Option, none, some, List, [],
  ◌∷◌, ◌++◌, String, Option-cases, suc, All, if◌then◌else◌, is_empty, str_eq,
}
use pred_sx.Number.{Arith}
use pred_sx.Json.{Json, Members, as_object, as_array, field, get_string}
use pred_sx.Event.{TradeEvent, PriceLevel}
use pred_sx.Orderbook.{asset_keys, market_keys, resolve_canonical_market_id}
use pred_sx.Storage.{
  Effect, record_trade, or_resolved, on_change, on_changes, on_single, on_trades,
  process_websocket_event,
}
use pred_sx.Storage.Schema.Insert.{
  Written, trade, event, snapshot, market, on_chain_trade, aggregate,
}
use pred_sx.Storage.Normalizer.{
  Normalizer, new_normalizer, apply_effect, apply_effects, NormalizerInput, Answers, write,
  websocket, backfill, orderbook, discovered, on_chain, flushed, handle_input, handle_inputs,
}

-- The writes succeed: those of a message with trades, and all of a list of messages.
abbrev pub Succeed : Answers → Type 0
Succeed oks = (i : ℕ) → oks i ≡ true

abbrev pub TradesSucceed : NormalizerInput → Type 0
TradesSucceed (websocket now oks r) = Succeed oks
TradesSucceed _ = Unit

module _ {F : Type 0} where
  -- The trades among some rows, in order.
  abbrev pub trades_in : List (Written F) → List (TradeEvent F)
  trades_in [] = []
  trades_in (trade t ∷ ws) = t ∷ trades_in ws
  trades_in (event e ∷ ws) = trades_in ws
  trades_in (snapshot r ∷ ws) = trades_in ws
  trades_in (market e ∷ ws) = trades_in ws
  trades_in (on_chain_trade e ∷ ws) = trades_in ws
  trades_in (aggregate r ∷ ws) = trades_in ws

  trades_in-append :
      (xs ys : List (Written F)) → trades_in (xs ++ ys) ≡ trades_in xs ++ trades_in ys
  trades_in-append [] ys = refl
  trades_in-append (trade t ∷ xs) ys = ap (λ ts. t ∷ ts) (trades_in-append xs ys)
  trades_in-append (event e ∷ xs) ys = trades_in-append xs ys
  trades_in-append (snapshot r ∷ xs) ys = trades_in-append xs ys
  trades_in-append (market e ∷ xs) ys = trades_in-append xs ys
  trades_in-append (on_chain_trade e ∷ xs) ys = trades_in-append xs ys
  trades_in-append (aggregate r ∷ xs) ys = trades_in-append xs ys

  -- The trades that went to Kafka are those of the table, in order.
  abbrev pub Mirrored : Normalizer F → Type 0
  Mirrored n = n.published ≡ trades_in n.written

  -- A trade at the end of both.
  both-Mirrored :
      (published : List (TradeEvent F)) (written : List (Written F)) (t : TradeEvent F)
      → published ≡ trades_in written
      → published ++ t ∷ [] ≡ trades_in (written ++ trade t ∷ [])
  both-Mirrored published written t h =
      ap (λ ts. ts ++ t ∷ []) h ∙ sym (trades_in-append written (trade t ∷ []))

  -- A row that is no trade.
  other-Mirrored :
      (published : List (TradeEvent F)) (written : List (Written F)) (w : Written F)
      → trades_in (w ∷ []) ≡ []
      → published ≡ trades_in written
      → published ≡ trades_in (written ++ w ∷ [])
  other-Mirrored published written w others h =
      h
      ∙ sym (append-nil (trades_in written))
      ∙ ap (λ ts. trades_in written ++ ts) (sym others)
      ∙ sym (trades_in-append written (w ∷ []))

  write-Mirrored :
      (ok : Bool) (w : Written F) (n : Normalizer F)
      → trades_in (w ∷ []) ≡ []
      → Mirrored n
      → Mirrored (write ok w n)
  write-Mirrored true w n others m = other-Mirrored n.published n.written w others m
  write-Mirrored false w n others m = m

  -- Effects that keep the two in step where their writes succeed, wherever they begin.
  abbrev Keeps : List (Effect F) → Type 0
  Keeps es =
      (oks : Answers) (n : Normalizer F)
      → Succeed oks
      → Mirrored n
      → Mirrored (apply_effects oks es n)

  -- The answers that are left after some effects.
  after : List (Effect F) → Answers → Answers
  after [] oks = oks
  after (x ∷ xs) oks = after xs (λ i. oks (suc i))

  after-Succeed : (xs : List (Effect F)) (oks : Answers) → Succeed oks → Succeed (after xs oks)
  unfolding after
  after-Succeed [] oks ok = ok
  after-Succeed (x ∷ xs) oks ok = after-Succeed xs (λ i. oks (suc i)) (λ i. ok (suc i))

  apply_effects-append :
      (xs ys : List (Effect F)) (oks : Answers) (n : Normalizer F)
      → apply_effects oks (xs ++ ys) n ≡ apply_effects (after xs oks) ys (apply_effects oks xs n)
  unfolding apply_effects after
  apply_effects-append [] ys oks n = refl
  apply_effects-append (x ∷ xs) ys oks n =
      apply_effects-append xs ys (λ i. oks (suc i)) (apply_effect (oks 0) x n)

  Keeps-nil : Keeps []
  unfolding apply_effects
  Keeps-nil oks n ok m = m

  Keeps-append : (xs ys : List (Effect F)) → Keeps xs → Keeps ys → Keeps (xs ++ ys)
  Keeps-append xs ys kx ky oks n ok m =
      rw (apply_effects-append xs ys oks n)
        (ky (after xs oks) (apply_effects oks xs n) (after-Succeed xs oks ok) (kx oks n ok m))

  Keeps-if :
      (b : Bool) (xs ys : List (Effect F)) → Keeps xs → Keeps ys → Keeps (if b then xs else ys)
  Keeps-if true xs ys kx ky = kx
  Keeps-if false xs ys kx ky = ky

module _ {F : Type 0} (a : Arith F) (get : String → Option String) (hash : String → String)
    (to_lower : String → String) (to_json : TradeEvent F → String) where
  record_trade-Keeps :
      (t : TradeEvent F) (payload : String)
      → Keeps (record_trade a get hash to_lower to_json t payload)
  unfolding record_trade apply_effects apply_effect
  record_trade-Keeps t payload oks n ok m =
      rw (apply_effects, ok 0, ok 1) (both-Mirrored n.published n.written t m)

  on_change-Keeps :
      (event_time now : ℕ) (change : Members F) (market_id token : String)
      → Keeps (on_change a get hash to_lower to_json event_time now change market_id token)
  unfolding on_change
  on_change-Keeps event_time now change market_id token =
      Keeps-if (is_empty market_id) [] _ Keeps-nil
        (Keeps-if _ [] _ Keeps-nil (record_trade-Keeps _ _))

  on_changes-Keeps :
      (event_time now : ℕ) (payload : Members F) (market_id : String) (items : List (Json F))
      → Keeps (on_changes a get hash to_lower to_json event_time now payload market_id items)
  unfolding on_changes
  on_changes-Keeps event_time now payload market_id [] = Keeps-nil
  on_changes-Keeps event_time now payload market_id (item ∷ items) =
      elim (Option-cases (as_object item)) [
        | inl other ↦
            rw (on_changes, other) (on_changes-Keeps event_time now payload market_id items)
        | inr (change, is) ↦
            let token = get_string change asset_keys in
            let market_id' = or_resolved a get hash to_lower to_json payload token market_id in
            rw (on_changes, is)
              (Keeps-append _ _ (on_change-Keeps event_time now change market_id' token)
                (on_changes-Keeps event_time now payload market_id' items))
      ]

  on_single-Keeps :
      (now : ℕ) (market_id : String) (payload : Members F) (bytes : String)
      → Keeps (on_single a get hash to_lower to_json now market_id payload bytes)
  unfolding on_single
  on_single-Keeps now market_id payload bytes =
      Keeps-if _ _ [] (record_trade-Keeps _ bytes) Keeps-nil

  on_trades-Keeps :
      (event_time now : ℕ) (market_id : String) (payload : Members F) (bytes : String)
      (items : Option (List (Json F)))
      → Keeps (on_trades a get hash to_lower to_json event_time now market_id payload bytes items)
  unfolding on_trades
  on_trades-Keeps event_time now market_id payload bytes none =
      on_single-Keeps now market_id payload bytes
  on_trades-Keeps event_time now market_id payload bytes (some []) =
      on_single-Keeps now market_id payload bytes
  on_trades-Keeps event_time now market_id payload bytes (some (item ∷ items)) =
      on_changes-Keeps event_time now payload market_id (item ∷ items)

  process_websocket_event-Keeps :
      (timestamp : Json F → ℕ) (now : ℕ) (payload : Members F) (bytes : String)
      → Keeps (process_websocket_event a get hash to_lower to_json timestamp now payload bytes)
  unfolding process_websocket_event
  process_websocket_event-Keeps timestamp now payload bytes =
      let event_type = get_string payload ("event_type" ∷ "type" ∷ []) in
      let market_id = resolve_canonical_market_id get (get_string payload market_keys) "" in
      Keeps-if
        (not (str_eq event_type "last_trade_price") && not (str_eq event_type "price_change")) [] _
        Keeps-nil
        (on_trades-Keeps (timestamp (field "timestamp" payload)) now market_id payload bytes
          (as_array (field "price_changes" payload)))

  module _ (timestamp : Json F → ℕ) (decode : String → Members F)
      (levels_json : List PriceLevel → String) where
    handle_input-Mirrored :
        (i : NormalizerInput) (n : Normalizer F)
        → TradesSucceed i
        → Mirrored n
        → Mirrored (handle_input a get hash to_lower to_json timestamp decode levels_json i n)
    unfolding handle_input
    handle_input-Mirrored (websocket now oks r) n ok m =
        process_websocket_event-Keeps timestamp now _ _ oks n ok m
    handle_input-Mirrored (backfill now r) n ok m = m
    handle_input-Mirrored (orderbook now ok r) n trades m = write-Mirrored ok _ n refl m
    handle_input-Mirrored (discovered ok r) n trades m = write-Mirrored ok _ n refl m
    handle_input-Mirrored (on_chain ok r) n trades m = write-Mirrored ok _ n refl m
    handle_input-Mirrored (flushed ok) n trades m = m

    handle_inputs-Mirrored_from :
        (is : List NormalizerInput) (n : Normalizer F)
        → All TradesSucceed is
        → Mirrored n
        → Mirrored (handle_inputs a get hash to_lower to_json timestamp decode levels_json is n)
    unfolding handle_inputs
    handle_inputs-Mirrored_from [] n ok m = m
    handle_inputs-Mirrored_from (i ∷ is) n ok m =
        handle_inputs-Mirrored_from is
          (handle_input a get hash to_lower to_json timestamp decode levels_json i n) ok.1
          (handle_input-Mirrored i n ok.0 m)

    -- Whatever the normalizer fetches from its topics, in whichever order, fetches that fail
    -- included, and whether or not its writes of other rows succeed: where each `Publish` and each
    -- insertion of a trade returns no error, the trades that it has published for the other services
    -- are the rows that it has inserted into the table of trades, each once and in the same order.
    pub handle_inputs-Mirrored :
        (is : List NormalizerInput)
        → All TradesSucceed is
        → Mirrored (
            handle_inputs a get hash to_lower to_json timestamp decode levels_json is
              new_normalizer)
    unfolding new_normalizer
    handle_inputs-Mirrored is ok = handle_inputs-Mirrored_from is new_normalizer ok refl
