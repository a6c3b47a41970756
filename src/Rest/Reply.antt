-- ===== src/Rest/Reply.antt =====
-- What a handler of predsx/services/api/handlers/rest.go answers, and the cache of answers:
-- `cacheGetJSON` and `cacheSetJSON`. The headers are left out but for the one of a cached answer.
use pred_sx.Base.{ℕ, Option, none, some, List, [], ◌∷◌, String}
use pred_sx.Number.{Arith}
use pred_sx.Json.{Json, Items, Members, null, num, obj, nil, cons, end}
use pred_sx.Rest.Backend.{Backend}
use pred_sx.Rest.Market.{get_text, with_members}

pub data Reply (F : Type 0) : Type 0 where
  -- `http.Error`
  failed : ℕ → String → Reply F
  -- A value as JSON, made now or taken from the cache.
  sent : Json F → Reply F
  hit : Json F → Reply F
  -- What Redis holds, as it is.
  verbatim : String → Reply F
  -- The status, the content type and the body of another server's answer.
  forwarded : ℕ → String → String → Reply F

-- An answer, and what it leaves in the cache: a key, a text and how many seconds it is kept.
pub record Outcome (F : Type 0) : Type 0 where
  pub reply : Reply F
  pub stored : Option (String × String × ℕ)

abbrev pub internal_error : {F : Type 0} → Reply F
internal_error = failed 500 "internal server error"

abbrev pub uncached : {F : Type 0} → Reply F → Outcome F
uncached answer = record { reply = answer; stored = none }

-- `map[string]interface{}` as a value; the nil map is null.
abbrev pub of_map : {F : Type 0} → Option (Members F) → Json F
of_map none = null
of_map (some ms) = obj ms

abbrev pub items_of : {F : Type 0} → List (Json F) → Items F
items_of [] = nil
items_of (v ∷ vs) = cons v (items_of vs)

abbrev pub object : {F : Type 0} → List (String × Json F) → Json F
object fields = obj (with_members fields end)

-- The rows of a result that can be scanned.
unfoldable pub scanned : {R : Type 0} → List (Option R) → List R
scanned [] = []
scanned (none ∷ rows) = scanned rows
scanned (some r ∷ rows) = r ∷ scanned rows

-- A whole number.
abbrev pub whole : {F : Type 0} → Arith F → ℕ → Json F
whole a n = num (a.lit n 0)

module _ {F : Type 0} (a : Arith F) (b : Backend F) where
  -- `cacheGetJSON`
  unfoldable pub cache_get : String → Option (Json F)
  cache_get key = elim (get_text a b key) [ none ↦ none | some raw ↦ b.decode_json raw ]

  -- `cacheSetJSON`
  unfoldable pub cache_set : String → Json F → ℕ → Option (String × String × ℕ)
  cache_set key v ttl = elim (b.marshal v) [ none ↦ none | some text ↦ some (key, text, ttl) ]

  -- A handler's body behind its cache.
  unfoldable pub cached : String → ℕ → Option (Json F) → Outcome F
  unfolding cache_get cache_set
  cached key ttl made = elim (cache_get key) [
    | some v ↦ uncached (hit v)
    | none ↦ elim made [
      | none ↦ uncached internal_error
      | some v ↦ record { reply = sent v; stored = cache_set key v ttl }
    ]
  ]
