-- ===== src/Discovery/Cycle/Resolved.antt =====
-- What a token resolves to after a cycle.
use pred_sx.Base.{ℕ, ◌≡◌, ◌⊎◌, Option, List, [], ◌∷◌, String}
use pred_sx.Base.Dict.{Dict}
use pred_sx.Event.{MarketDiscovered, TokenExtracted}
use pred_sx.Discovery.{PolymarketMarket, Effect, on_markets}
use pred_sx.Discovery.Cycle.Market.{effects_of_market}

-- The market is on the list.
abbrev pub IsOn : PolymarketMarket → List PolymarketMarket → Type 0
IsOn m [] = ⊥
IsOn m (n ∷ ns) = (m ≡ n) ⊎ IsOn m ns

module _ (as_strings : String → Option (List String)) (as_text : String → Option String)
    (parse_time : String → ℕ) (to_upper : String → String) (market_json : PolymarketMarket → String)
    (token_json : TokenExtracted → String) (metadata_json : MarketDiscovered → String) where
  abbrev effects_of : ℕ → List PolymarketMarket → List Effect
  effects_of =
      on_markets as_strings as_text parse_time to_upper market_json token_json metadata_json

  abbrev of_market : ℕ → PolymarketMarket → List Effect
  of_market =
      effects_of_market as_strings as_text parse_time to_upper market_json token_json metadata_json
