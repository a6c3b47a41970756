-- ===== src/Discovery/Resolve.antt =====
-- What the readers of the keys find that discovery has set.
use pred_sx.Base.{
  ℕ, ◌≡◌, refl, false, inl, inr, Option, some, List, [], ◌∷◌, ◌++◌, String, arith, is_empty,
  str_eq_refl, Bool-cases,
}
use pred_sx.Base.Dict.{Dict, insert, lookup, lookup-insert}
use pred_sx.Event.{MarketDiscovered, TokenExtracted}
use pred_sx.Orderbook.{resolve_canonical_market_id}
use pred_sx.Discovery.{
  set_condition, token_key, condition_key, PolymarketMarket, Effect, publish_token, apply,
  process_market, token_effects,
}

-- The key has the value.
abbrev Stored : String → String → Dict String → Type 0
Stored key value r = lookup key r ≡ some value

insert-Stored :
    (key other value : String) (r : Dict String)
    → Stored key value r
    → Stored key value (insert other value r)
insert-Stored key other value r h = ground (arith, lookup-insert other key value r, h)

set-Stored : (key value : String) (r : Dict String) → Stored key value (insert key value r)
set-Stored key value r = ground (arith, lookup-insert key key value r, str_eq_refl key)

pub resolve-token :
    (get : String → Option String) (token id : String)
    → is_empty token ≡ false
    → is_empty id ≡ false
    → get (token_key token) ≡ some id
    → resolve_canonical_market_id get "" token ≡ id
unfolding resolve_canonical_market_id
resolve-token get token id named known at = rw (resolve_canonical_market_id, named, at, known) refl

set_condition-Stored :
    (key id condition : String) (market : String) (t : TokenExtracted) (r : Dict String)
    → Stored key id r
    → Stored key id (apply (set_condition condition id ++ publish_token market t ∷ []) r)
unfolding apply
set_condition-Stored key id condition market t r h = elim (Bool-cases (is_empty condition)) [
  | inl missing ↦ rw missing h
  | inr given ↦ rw given (insert-Stored key (condition_key condition) id r h)
]

module _ (as_strings : String → Option (List String)) (as_text : String → Option String)
    (parse_time : String → ℕ) (to_upper : String → String) (market_json : PolymarketMarket → String)
    (token_json : TokenExtracted → String) (metadata_json : MarketDiscovered → String) where
  abbrev pub effects : MarketDiscovered → List Effect
  effects =
      process_market as_strings as_text parse_time to_upper market_json token_json metadata_json

  token_effects-Stored :
      (market : MarketDiscovered) (first second : String) (r : Dict String)
      → Stored (token_key first) market.id (
          apply
            (token_effects as_strings as_text parse_time to_upper market_json token_json
              metadata_json market first second)
            r)
        × Stored (token_key second) market.id (
            apply
              (token_effects as_strings as_text parse_time to_upper market_json token_json
                metadata_json market first second)
              r)
  unfolding token_effects apply
  token_effects-Stored market first second r =
      let id = market.id in
      (
        set_condition-Stored (token_key first) id market.condition_id _ _ _ (
            insert-Stored (token_key first) (token_key second) id _
              (set-Stored (token_key first) id _)),
        set_condition-Stored (token_key second) id market.condition_id _ _ _
            (set-Stored (token_key second) id _),
      )

  -- After `processMarket` of a market with two tokens or more, whatever Redis held before: a
  -- message that names no market but the first token or the second one resolves to this market.
  pub process_market-resolve :
      (market : MarketDiscovered) (first second : String) (rest : List String) (r : Dict String)
      → market.clob_token_ids ≡ first ∷ second ∷ rest
      → is_empty market.id ≡ false
      → is_empty first ≡ false
      → is_empty second ≡ false
      → (resolve_canonical_market_id (λ key. lookup key (apply (effects market) r)) "" first
          ≡ market.id)
        × (resolve_canonical_market_id (λ key. lookup key (apply (effects market) r)) "" second
            ≡ market.id)
  unfolding process_market
  process_market-resolve market first second rest r tokens known named named' =
      let (one, two) = token_effects-Stored market first second r in
      rw (effects, process_market, tokens)
        (
          resolve-token _ first market.id named known one,
          resolve-token _ second market.id named' known two,
        )
