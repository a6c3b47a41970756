-- ===== src/Rest/Held.antt =====
-- The objects that Redis holds, as predsx/services/api/handlers/rest.go reads them: no text and the
-- empty text are the same, and null is the nil map.
use pred_sx.Base.{
  ◌≡◌, refl, inl, inr, Option, none, some, String, if◌then◌else◌, is_empty, Bool-cases,
}
use pred_sx.Number.{Arith}
use pred_sx.Json.{Json, Members, null, obj}
use pred_sx.Rest.Backend.{Backend}
use pred_sx.Orderbook.{non_empty}
use pred_sx.Rest.Market.{get_text, get_object}

module _ {F : Type 0} (a : Arith F) (b : Backend F) where
  -- The JSON of the object under a key, or nothing where there is none.
  abbrev pub held : String → Option (Json F)
  held key = elim (b.get key) [
    | none ↦ none
    | some text ↦ elim (if is_empty text then none else b.decode_object text) [
      | none ↦ none
      | some none ↦ some null
      | some (some ms) ↦ some (obj ms)
    ]
  ]

  -- It is what `get_object` gives.
  abbrev pub object_of : Option (Option (Members F)) → Option (Json F)
  object_of none = none
  object_of (some none) = some null
  object_of (some (some ms)) = some (obj ms)

  object_of-decoded :
      (o : Option (Option (Members F)))
      → object_of o
        ≡ (elim o [ none ↦ none | some none ↦ some null | some (some ms) ↦ some (obj ms) ])
  object_of-decoded none = refl
  object_of-decoded (some none) = refl
  object_of-decoded (some (some ms)) = refl

  pub get_object-held : (key : String) → object_of (get_object a b key) ≡ held key
  unfolding get_object get_text
  get_object-held key = go (b.get key)
    where
      go :
          (o : Option String)
          → object_of (elim (non_empty o) [ none ↦ none | some raw ↦ b.decode_object raw ])
            ≡ (elim o [
              | none ↦ none
              | some text ↦ elim (if is_empty text then none else b.decode_object text) [
                | none ↦ none
                | some none ↦ some null
                | some (some ms) ↦ some (obj ms)
              ]
            ])
      go none = refl
      go (some text) = elim (Bool-cases (is_empty text)) [
        | inl blank ↦ rw blank refl
        | inr there ↦ rw there (object_of-decoded (b.decode_object text))
      ]
