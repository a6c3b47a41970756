-- ===== src/Discovery/Cycle/Market.antt =====
-- The effects for one market on the keys of tokens.
use text.Mathlib.TextEquality.{eq_iff}
use pred_sx.Base.{
  ℕ, ◌≡◌, refl, ap, ◌∙◌, inl, inr, Bool, true, false, ◌||◌, Option, List, [], ◌∷◌, String, arith,
  append_text, is_empty, str_eq, str_eq_refl, All, All-append, Bool-cases,
}
use pred_sx.Event.{MarketDiscovered, TokenExtracted}
use pred_sx.Discovery.{
  PolymarketMarket, Effect, publish_token, set, add, token_key, set_condition, token_effects,
  process_market, store_market_metadata, discovered, on_market, parse_clob_token_ids,
}
use pred_sx.Discovery.Keys.{token_key-injective, extracted-ne, market_ne, condition_key-ne}
use pred_sx.Discovery.Cycle.Effects.{sets, SetsTo, sets-append_left}

-- The token is the first or the second one of a list.
abbrev pub is_outcome : String → List String → Bool
is_outcome token [] = false
is_outcome token (only ∷ []) = false
is_outcome token (first ∷ second ∷ rest) = str_eq first token || str_eq second token

-- The market has the token.
abbrev pub has_token :
    (String → Option (List String)) → (String → Option String) → String → PolymarketMarket → Bool
has_token as_strings as_text token m =
    is_outcome token (parse_clob_token_ids as_strings as_text m.clob_token_ids)

module _ (as_strings : String → Option (List String)) (as_text : String → Option String)
    (parse_time : String → ℕ) (to_upper : String → String) (market_json : PolymarketMarket → String)
    (token_json : TokenExtracted → String) (metadata_json : MarketDiscovered → String) where
  abbrev effects_of_tokens : MarketDiscovered → List Effect
  effects_of_tokens =
      process_market as_strings as_text parse_time to_upper market_json token_json metadata_json

  abbrev pub effects_of_market : ℕ → PolymarketMarket → List Effect
  effects_of_market =
      on_market as_strings as_text parse_time to_upper market_json token_json metadata_json

  module _ (P : String → Type 0) (token : String) where
    -- Each effect that sets the token's key sets it to a text with the property.
    abbrev pub AllSetTo : List Effect → Type 0
    AllSetTo es = All (SetsTo P (token_key token)) es

    -- A key for a token of the market.
    own-SetsTo :
        (other id : String)
        → (str_eq other token ≡ true → P id)
        → SetsTo P (token_key token) (set (token_key other) id)
    own-SetsTo other id p h =
        p (ap (λ s. str_eq s token) (token_key-injective other token h) ∙ str_eq_refl token)

    set_condition-SetsTo : (condition id : String) → AllSetTo (set_condition condition id)
    set_condition-SetsTo condition id = elim (Bool-cases (is_empty condition)) [
      | inl missing ↦ rw missing tt
      | inr given ↦
          rw given ((λ h. absurd (ground (arith, h, condition_key-ne condition token))), tt)
    ]

    token_effects-SetsTo :
        (market : MarketDiscovered) (first second : String)
        → ((str_eq first token || str_eq second token) ≡ true → P market.id)
        → AllSetTo (
            token_effects as_strings as_text parse_time to_upper market_json token_json
              metadata_json market first second)
    unfolding token_effects
    token_effects-SetsTo market first second p = (
      (λ h. absurd (ground (arith, h, extracted-ne market.id token))),
      (
        (λ h. absurd (ground (arith, h, market_ne (append_text market.id ":tokens") token))),
        (
          own-SetsTo first market.id (λ h. p (ground (arith, h))),
          (
            own-SetsTo second market.id (λ h. p (ground (arith, h))),
            All-append (SetsTo P (token_key token)) (set_condition market.condition_id market.id)
                (publish_token market.id _ ∷ [])
                (set_condition-SetsTo market.condition_id market.id) (tt, tt),
          ),
        ),
      ),
    )

    process_market-SetsTo :
        (market : MarketDiscovered) (tokens : List String)
        → market.clob_token_ids ≡ tokens
        → (is_outcome token tokens ≡ true → P market.id)
        → AllSetTo (effects_of_tokens market)
    unfolding process_market
    process_market-SetsTo market [] at p = rw (process_market, at) tt
    process_market-SetsTo market (only ∷ []) at p = rw (process_market, at) tt
    process_market-SetsTo market (first ∷ second ∷ rest) at p =
        rw (process_market, at) (token_effects-SetsTo market first second p)

    process_market-sets :
        (market : MarketDiscovered) (tokens : List String)
        → market.clob_token_ids ≡ tokens
        → is_outcome token tokens ≡ true
        → sets (token_key token) (effects_of_tokens market) ≡ true
    unfolding process_market token_effects
    process_market-sets market [] at has = absurd (ground (arith, has))
    process_market-sets market (only ∷ []) at has = absurd (ground (arith, has))
    process_market-sets market (first ∷ second ∷ rest) at has =
        rw (process_market, at)
          (ground (
            arith,
            has,
            eq_iff first token,
            eq_iff second token,
            str_eq_refl (token_key first),
            str_eq_refl (token_key second),
          ))

    store_market_metadata-SetsTo :
        (event : MarketDiscovered) (m : PolymarketMarket)
        → AllSetTo (
            store_market_metadata as_strings as_text parse_time to_upper market_json token_json
              metadata_json event m)
    unfolding store_market_metadata
    store_market_metadata-SetsTo event m = (
      (λ h. absurd (ground (arith, h, market_ne (append_text event.id ":metadata") token))),
      (
        (λ h. absurd (ground (arith, h, market_ne (append_text event.id ":metadata_raw") token))),
        All-append (SetsTo P (token_key token)) (set_condition event.condition_id event.id)
            (add event.id ∷ []) (set_condition-SetsTo event.condition_id event.id) (tt, tt),
      ),
    )

    pub on_market-SetsTo :
        (now : ℕ) (m : PolymarketMarket)
        → (has_token as_strings as_text token m ≡ true → P m.id)
        → AllSetTo (effects_of_market now m)
    unfolding on_market discovered
    on_market-SetsTo now m p =
        let event =
          discovered as_strings as_text parse_time to_upper market_json token_json metadata_json now
            m in
        (
          tt,
          All-append (SetsTo P (token_key token)) (effects_of_tokens event) _
              (process_market-SetsTo event _ refl p) (store_market_metadata-SetsTo event m),
        )

    pub on_market-sets :
        (now : ℕ) (m : PolymarketMarket)
        → has_token as_strings as_text token m ≡ true
        → sets (token_key token) (effects_of_market now m) ≡ true
    unfolding on_market discovered
    on_market-sets now m has =
        let event =
          discovered as_strings as_text parse_time to_upper market_json token_json metadata_json now
            m in
        sets-append_left P (token_key token) (effects_of_tokens event) _
          (process_market-sets event _ refl has)
