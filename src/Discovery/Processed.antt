-- ===== src/Discovery/Processed.antt =====
-- What is left of the markets that a crawl processes.
use mathlib.Core.List.{flat_map}
use pred_sx.Base.{
  ℕ, ◌≡◌, refl, ap, ◌∙◌, inl, inr, Option, List, [], ◌∷◌, ◌++◌, map, String, if◌then◌else◌,
  is_empty, Bool-cases,
}
use pred_sx.Event.{MarketDiscovered, TokenExtracted}
use pred_sx.Discovery.{
  PolymarketMarket, PolymarketEvent, Effect, publish_market, publish_token, set, add, set_condition,
  discovered, token_effects, process_market, store_market_metadata, on_market, on_markets,
  with_event_id, markets_of,
}

-- The markets that some effects publish: the key of the message, and the id, the condition and the
-- event of the market.
abbrev pub published_in : List Effect → List (String × String × String × String)
published_in [] = []
published_in (publish_market key e ∷ es) = (key, e.id, e.condition_id, e.event_id) ∷ published_in es
published_in (publish_token key t ∷ es) = published_in es
published_in (set key value ∷ es) = published_in es
published_in (add id ∷ es) = published_in es

-- The ids that they add to the set of markets.
abbrev pub added_in : List Effect → List String
added_in [] = []
added_in (publish_market key e ∷ es) = added_in es
added_in (publish_token key t ∷ es) = added_in es
added_in (set key value ∷ es) = added_in es
added_in (add id ∷ es) = id ∷ added_in es

published_in-append :
    (xs ys : List Effect) → published_in (xs ++ ys) ≡ published_in xs ++ published_in ys
published_in-append [] ys = refl
published_in-append (publish_market key e ∷ xs) ys =
    ap (λ ps. (key, e.id, e.condition_id, e.event_id) ∷ ps) (published_in-append xs ys)
published_in-append (publish_token key t ∷ xs) ys = published_in-append xs ys
published_in-append (set key value ∷ xs) ys = published_in-append xs ys
published_in-append (add id ∷ xs) ys = published_in-append xs ys

added_in-append : (xs ys : List Effect) → added_in (xs ++ ys) ≡ added_in xs ++ added_in ys
added_in-append [] ys = refl
added_in-append (publish_market key e ∷ xs) ys = added_in-append xs ys
added_in-append (publish_token key t ∷ xs) ys = added_in-append xs ys
added_in-append (set key value ∷ xs) ys = added_in-append xs ys
added_in-append (add id ∷ xs) ys = ap (λ ids. id ∷ ids) (added_in-append xs ys)

-- Effects that are neither.
IsQuiet : List Effect → Type 0
IsQuiet es = (published_in es ≡ []) × (added_in es ≡ [])

-- They add nothing to those after them.
append-after :
    (xs ys : List Effect)
    → IsQuiet xs
    → (published_in (xs ++ ys) ≡ published_in ys) × (added_in (xs ++ ys) ≡ added_in ys)
unfolding IsQuiet
append-after xs ys (p, q) = (
  published_in-append xs ys ∙ ap (λ ps. ps ++ published_in ys) p,
  added_in-append xs ys ∙ ap (λ ids. ids ++ added_in ys) q,
)

set_condition-IsQuiet : (condition id : String) → IsQuiet (set_condition condition id)
unfolding IsQuiet
set_condition-IsQuiet condition id = elim (Bool-cases (is_empty condition)) [
  | inl blank ↦ rw blank (refl, refl)
  | inr there ↦ rw there (refl, refl)
]

-- What the event of a market has of it.
abbrev pub entry : PolymarketMarket → String × String × String × String
entry m = (m.id, m.id, m.condition_id, m.event_id)

module _ (as_strings : String → Option (List String)) (as_text : String → Option String)
    (parse_time : String → ℕ) (to_upper : String → String) (market_json : PolymarketMarket → String)
    (token_json : TokenExtracted → String) (metadata_json : MarketDiscovered → String)
    (now : ℕ) where
  abbrev effects_of_one : PolymarketMarket → List Effect
  effects_of_one =
      on_market as_strings as_text parse_time to_upper market_json token_json metadata_json now

  -- Some effects process some markets: those of each in turn; and the markets that are published,
  -- and the ids that are added to the set, are those of the markets, each once and in order.
  pub record Processed (ms : List PolymarketMarket) (es : List Effect) : Type 0 where
    pub each : es ≡ flat_map effects_of_one ms
    pub published : published_in es ≡ map entry ms
    pub added : added_in es ≡ map (λ m. m.id) ms

  process_market-IsQuiet :
      (e : MarketDiscovered)
      → IsQuiet (
          process_market as_strings as_text parse_time to_upper market_json token_json metadata_json
            e)
  unfolding IsQuiet process_market token_effects
  process_market-IsQuiet e = go e.clob_token_ids
    where
      go :
          (ids : List String)
          → IsQuiet (elim ids [
            | [] ↦ []
            | only ∷ [] ↦ []
            | first ∷ second ∷ rest ↦
                token_effects as_strings as_text parse_time to_upper market_json token_json
                  metadata_json e first second
          ])
      go [] = (refl, refl)
      go (only ∷ []) = (refl, refl)
      go (first ∷ second ∷ rest) =
          append-after (set_condition e.condition_id e.id) _
            (set_condition-IsQuiet e.condition_id e.id)

  one-Processed :
      (m : PolymarketMarket)
      → (published_in (effects_of_one m) ≡ entry m ∷ []) × (added_in (effects_of_one m) ≡ m.id ∷ [])
  unfolding on_market store_market_metadata discovered IsQuiet
  one-Processed m =
      let e =
        discovered as_strings as_text parse_time to_upper market_json token_json metadata_json now
          m in
      let tokens =
        process_market as_strings as_text parse_time to_upper market_json token_json metadata_json
          e in
      let stored =
        store_market_metadata as_strings as_text parse_time to_upper market_json token_json
          metadata_json e m in
      let first = append-after tokens stored (process_market-IsQuiet e) in
      let second =
        append-after (set_condition m.condition_id m.id) (add m.id ∷ [])
          (set_condition-IsQuiet m.condition_id m.id) in
      (ap (λ ps. entry m ∷ ps) (first.0 ∙ second.0), first.1 ∙ second.1)

  pub on_markets-Processed :
      (ms : List PolymarketMarket)
      → Processed ms (
          on_markets as_strings as_text parse_time to_upper market_json token_json metadata_json now
            ms)
  unfolding on_markets flat_map
  on_markets-Processed [] = record { each = refl; published = refl; added = refl }
  on_markets-Processed (m ∷ ms) =
      let rest = on_markets-Processed ms in
      let one = one-Processed m in
      let tail =
        on_markets as_strings as_text parse_time to_upper market_json token_json metadata_json now
          ms in
      record {
        each = ap (λ es. effects_of_one m ++ es) rest.each;
        published =
            published_in-append (effects_of_one m) tail
            ∙ ap (λ ps. ps ++ published_in tail) one.0
            ∙ ap (λ ps. entry m ∷ ps) rest.published;
        added =
            added_in-append (effects_of_one m) tail
            ∙ ap (λ ids. ids ++ added_in tail) one.1
            ∙ ap (λ ps. m.id ∷ ps) rest.added;
      }

-- A market of an event, with its id where it names no event.
abbrev named : String → PolymarketMarket → PolymarketMarket
named id m = record m { event_id = if is_empty m.event_id then id else m.event_id }

-- The markets of some events, in order.
abbrev pub listed_in : List PolymarketEvent → List PolymarketMarket
listed_in [] = []
listed_in (ev ∷ evs) = map (named ev.id) ev.markets ++ listed_in evs

with_event_id-named : (id : String) (m : PolymarketMarket) → with_event_id id m ≡ named id m
unfolding with_event_id
with_event_id-named id m = elim (Bool-cases (is_empty m.event_id)) [
  | inl blank ↦ rw blank refl
  | inr there ↦ rw there refl
]

markets_of-cons :
    (id : String) (ms : List PolymarketMarket) (evs : List PolymarketEvent)
    → markets_of (record { id = id; markets = ms } ∷ evs) ≡ map (named id) ms ++ markets_of evs
unfolding markets_of
markets_of-cons id [] evs = refl
markets_of-cons id (m ∷ ms) evs =
    ap (λ n. n ∷ markets_of (record { id = id; markets = ms } ∷ evs)) (with_event_id-named id m)
    ∙ ap (λ ns. named id m ∷ ns) (markets_of-cons id ms evs)

pub markets_of-listed : (evs : List PolymarketEvent) → markets_of evs ≡ listed_in evs
unfolding markets_of
markets_of-listed [] = refl
markets_of-listed (ev ∷ evs) =
    markets_of-cons ev.id ev.markets evs
    ∙ ap (λ ms. map (named ev.id) ev.markets ++ ms) (markets_of-listed evs)
