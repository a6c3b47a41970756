-- ===== src/Json.antt =====
-- Decoded JSON values, as `json.Unmarshal` gives them to `interface{}`, and the readers that the
-- services share: `getString`, `toFloat` and `fmt.Sprintf("%v", v)`
-- (predsx/services/processor/main.go and predsx/services/storage/main.go).
-- An object is the list of its members; a name that stands twice was overwritten by the decoder,
-- so the first entry is the one that is kept.
use pred_sx.Base.{
  Bool, true, false, Option, none, some, List, [], ◌∷◌, String, if◌then◌else◌, str_eq,
}
use pred_sx.Number.{Arith}

mutual
  pub data Json (F : Type 0) : Type 0 where
    null : Json F
    bool : Bool → Json F
    num : F → Json F
    str : String → Json F
    arr : Items F → Json F
    obj : Members F → Json F

  pub data Items (F : Type 0) : Type 0 where
    nil : Items F
    cons : Json F → Items F → Items F

  pub data Members (F : Type 0) : Type 0 where
    end : Members F
    member : String → Json F → Members F → Members F

module _ {F : Type 0} where
  -- `m[key]` with its `ok`.
  unfoldable pub find : String → Members F → Option (Json F)
  find key end = none
  find key (member k v ms) = if str_eq k key then some v else find key ms

  -- `m[key]` where the missing key reads as nil.
  unfoldable pub field : String → Members F → Json F
  unfolding find
  field key ms = elim (find key ms) [ none ↦ null | some v ↦ v ]

  unfoldable pub to_list : Items F → List (Json F)
  to_list nil = []
  to_list (cons v vs) = v ∷ to_list vs

  abbrev pub as_string : Option (Json F) → Option String
  as_string (some (str s)) = some s
  as_string _ = none

  -- `v.([]interface{})`
  abbrev pub as_array : Json F → Option (List (Json F))
  as_array (arr vs) = some (to_list vs)
  as_array _ = none

  -- `v.(map[string]interface{})`
  abbrev pub as_object : Json F → Option (Members F)
  as_object (obj ms) = some ms
  as_object _ = none

  -- The first of `keys` that names a string, or "".
  unfoldable pub get_string : Members F → List String → String
  unfolding find
  get_string ms [] = ""
  get_string ms (key ∷ keys) = elim (as_string (find key ms)) [
    | some s ↦ s
    | none ↦ get_string ms keys
  ]

  -- A `json.Number` occurs only under a decoder option that no service sets.
  unfoldable pub to_float : Arith F → Json F → F
  to_float a (num x) = x
  to_float a (str s) = a.parse s
  to_float a _ = a.lit 0 0

  -- `fmt.Sprintf("%v", v)`. The text of an array or object is a parameter.
  unfoldable pub sprint : Arith F → (Json F → String) → Json F → String
  sprint a composite null = "<nil>"
  sprint a composite (bool true) = "true"
  sprint a composite (bool false) = "false"
  sprint a composite (num x) = a.show x
  sprint a composite (str s) = s
  sprint a composite v = composite v
