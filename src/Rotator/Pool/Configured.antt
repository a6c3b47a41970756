-- ===== src/Rotator/Pool/Configured.antt =====
-- When the configured pool has an endpoint to pick.
use pred_sx.Base.{
  ℕ, ◌<◌, ◌≡◌, refl, true, false, inl, inr, ◌⊎◌, none, List, [], ◌∷◌, String, arith, is_empty,
  Bool-cases, All, length,
}
use pred_sx.Base.Split.{split, trim_space}
use pred_sx.Rotator.{new_rpc_rotator, pick, pick_loop, pick_result}
use pred_sx.Rotator.Pick.{IsPool}
use pred_sx.Rotator.Pool.{default_rpc_pool, custom_urls, urls_for}

-- A part that is nothing but space.
abbrev pub IsBlank : String → Type 0
IsBlank part = is_empty (trim_space part) ≡ true

abbrev pub IsNamed : String → Type 0
IsNamed url = is_empty url ≡ false

custom_urls-IsNamed : (parts : List String) → All IsNamed (custom_urls parts)
unfolding custom_urls
custom_urls-IsNamed [] = tt
custom_urls-IsNamed (part ∷ parts) = elim (Bool-cases (is_empty (trim_space part))) [
  | inl blank ↦ rw (custom_urls, blank) (custom_urls-IsNamed parts)
  | inr named ↦ rw (custom_urls, named) (named, custom_urls-IsNamed parts)
]

-- The loop finds an endpoint, or there is none to find.
custom_urls-cases :
    (parts : List String)
    → (0 < length (custom_urls parts)) ⊎ (All IsBlank parts × (custom_urls parts ≡ []))
unfolding custom_urls
custom_urls-cases [] = inr (tt, refl)
custom_urls-cases (part ∷ parts) = elim (Bool-cases (is_empty (trim_space part))) [
  | inl blank ↦ elim (custom_urls-cases parts) [
    | inl some_url ↦ inl (rw (custom_urls, blank) some_url)
    | inr (blanks, empty) ↦ inr ((blank, blanks), rw (custom_urls, blank) empty)
  ]
  | inr named ↦ inl (rw (custom_urls, named) (omega arith))
]

pick-empty : (now : ℕ) → pick now (new_rpc_rotator []) ≡ none
unfolding pick pick_loop pick_result new_rpc_rotator
pick-empty now = refl

new_rpc_rotator-IsPool : (urls : List String) → 0 < length urls → IsPool (new_rpc_rotator urls)
unfolding new_rpc_rotator
new_rpc_rotator-IsPool urls lt = record { within = lt }

default_rpc_pool-IsNamed : All IsNamed default_rpc_pool
unfolding default_rpc_pool
default_rpc_pool-IsNamed = (refl, (refl, (refl, tt)))

default_rpc_pool-some : 0 < length default_rpc_pool
unfolding default_rpc_pool
default_rpc_pool-some = omega arith

-- Whatever POLYGON_RPC_URLS holds, no endpoint of the pool is an empty text; and the pool is one
-- that `pick` can take an endpoint from, unless the text is not empty but has only spaces between
-- its commas: then every call of `pick` panics.
pub urls_for-Configured :
    (custom : String)
    → All IsNamed (urls_for custom)
      × (IsPool (new_rpc_rotator (urls_for custom))
          ⊎ ((is_empty custom ≡ false)
              × All IsBlank (split 44 custom)
              × ((now : ℕ) → pick now (new_rpc_rotator (urls_for custom)) ≡ none)))
unfolding urls_for
urls_for-Configured custom = elim (Bool-cases (is_empty custom)) [
  | inl unset ↦
      rw (urls_for, unset)
        (
          default_rpc_pool-IsNamed,
          inl (new_rpc_rotator-IsPool default_rpc_pool default_rpc_pool-some),
        )
  | inr given ↦
      rw (urls_for, given)
        (
          custom_urls-IsNamed (split 44 custom),
          elim (custom_urls-cases (split 44 custom)) [
            | inl some_url ↦ inl (new_rpc_rotator-IsPool (custom_urls (split 44 custom)) some_url)
            | inr (blanks, empty) ↦ inr (refl, blanks, λ now. rw empty (pick-empty now))
          ],
        )
]
