-- ===== src/Rest/Search/Again.antt =====
-- A search that is repeated while its answer is in the cache.
use pred_sx.Base.{
  ℕ, ◌≡◌, refl, sym, ap, ◌∙◌, false, inl, inr, Option, none, some, String, arith, is_empty,
  Bool-cases,
}
use pred_sx.Base.Dict.{Dict}
use pred_sx.Base.Split.{trim_space}
use pred_sx.Number.{Arith}
use pred_sx.Json.{Json}
use pred_sx.Rest.Backend.{Backend}
use pred_sx.Rest.Params.{get_query}
use pred_sx.Rest.Market.{get_text}
use pred_sx.Rest.Reply.{hit, cache_get, cache_set, cached}
use pred_sx.Rest.Search.{search_key, search_found, search_markets}

module _ {F : Type 0} (a : Arith F) (b later : Backend F) where
  -- What is stored is stored under the key of the handler.
  cached-key :
      (key stored_key text : String) (ttl stored_ttl : ℕ) (made : Option (Json F))
      → (cached a b key ttl made).stored ≡ some (stored_key, text, stored_ttl)
      → stored_key ≡ key
  unfolding cached cache_set
  cached-key key stored_key text ttl stored_ttl made e = ground (arith, e)

  cached-hit :
      (key text : String) (ttl : ℕ) (made : Option (Json F)) (v : Json F)
      → later.get key ≡ some text
      → is_empty text ≡ false
      → later.decode_json text ≡ some v
      → (cached a later key ttl made).reply ≡ hit v
  unfolding cached cache_get get_text
  cached-hit key text ttl made v kept full read =
      rw (cached, cache_get, get_text, kept, full, read) refl

  -- When a search was not in the cache and stored its answer, and a later search with the same query
  -- string finds this text under the key that was stored, which reads as a value, then the later one
  -- is answered with this value from the cache, whatever ClickHouse holds by then.
  pub search_markets-again :
      (query : Dict String) (key text : String) (ttl : ℕ) (v : Json F)
      → (search_markets a b query).stored ≡ some (key, text, ttl)
      → later.get key ≡ some text
      → is_empty text ≡ false
      → later.decode_json text ≡ some v
      → later.to_lower ≡ b.to_lower
      → later.to_upper ≡ b.to_upper
      → (search_markets a later query).reply ≡ hit v
  unfolding search_markets
  search_markets-again query key text ttl v stored kept full read lower upper =
      elim (Bool-cases (is_empty (trim_space (get_query query "q" "")))) [
        | inl nothing ↦
            let opened : (search_markets a b query).stored ≡ none =
              rw (search_markets, nothing) refl in
            let clash : none ≡ some (key, text, ttl) = sym opened ∙ stored in ground (arith, clash)
        | inr asked ↦
            let own = search_key b.to_lower b.to_upper query in
            let opened : (search_markets a b query).stored
                ≡ (cached a b own 30 (search_found a b query)).stored =
              rw (search_markets, asked) refl in
            let at_key =
              cached-key own key text 30 ttl (search_found a b query) (sym opened ∙ stored) in
            let same : search_key later.to_lower later.to_upper query ≡ own =
              ap (λ f. search_key f later.to_upper query) lower
              ∙ ap (λ f. search_key b.to_lower f query) upper in
            let there = ap (λ k. later.get k) (same ∙ sym at_key) ∙ kept in
            let found = search_found a later query in
            rw (search_markets, asked)
              (cached-hit (search_key later.to_lower later.to_upper query) text 30 found v there
                full read)
      ]
