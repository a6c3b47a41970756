-- ===== src/Rest/Batch/Prices.antt =====
-- The prices of a batch against the ids that it asks for.
use pred_sx.Base.{
  suc, ◌+◌, ◌≤◌, ◌≡◌, refl, sym, ap, ◌∙◌, true, false, not, ◌&&◌, inl, inr, none, some, List, [],
  ◌∷◌, map, String, arith, if◌then◌else◌, str_eq, is_empty, Bool-cases, length, length-take, eq_iff,
  append_text, Option, take,
}
use pred_sx.Base.Dict.{Dict, lookup, insert, lookup-insert}
use pred_sx.Base.Names.{contains}
use pred_sx.Base.Split.{split, trim_space}
use pred_sx.Number.{Arith}
use pred_sx.Json.{Json, Members, null}
use pred_sx.Rest.Backend.{Backend}
use pred_sx.Rest.Held.{held, object_of, get_object-held}
use pred_sx.Rest.Market.{get_object}
use pred_sx.Rest.Reply.{of_map}
use pred_sx.Rest.Params.{get_query}
use pred_sx.Rest.Batch.{batch_ids, batch_value, batch_loop, get_batch_prices}

module _ {F : Type 0} (a : Arith F) (b : Backend F) where
  lookup-batch_loop :
      (id : String) (ids : List String) (result : Dict (Json F))
      → lookup id (batch_loop a b ids result) ≡ (
          if not (is_empty id) && contains id (map trim_space ids)
          then some (batch_value a b id)
          else lookup id result)
  unfolding batch_loop contains
  lookup-batch_loop id [] result = ground arith
  lookup-batch_loop id (raw ∷ ids) result =
      let name = trim_space raw in
      elim (Bool-cases (is_empty name)) [
        | inl blank ↦
            let later = lookup-batch_loop id ids result in
            let same : str_eq name id ≡ true → is_empty id ≡ true =
              λ e. sym (ap is_empty ((eq_iff name id).0 e)) ∙ blank in
            rw blank (later ∙ ground (arith, same))
        | inr there ↦
            let later = lookup-batch_loop id ids (insert name (batch_value a b name) result) in
            let set = lookup-insert name id (batch_value a b name) result in
            elim (Bool-cases (str_eq name id)) [
              | inl same ↦
                  let e = (eq_iff name id).0 same in
                  let kept : is_empty id ≡ false = sym (ap is_empty e) ∙ there in
                  let own = ap (λ n. batch_value a b n) e in
                  rw there (later ∙ ground (arith, set, own))
              | inr other ↦ rw there (later ∙ ground (arith, set))
            ]
      ]

  length-insert :
      (key : String) (new : Json F) (d : Dict (Json F)) → length (insert key new d) ≤ suc (length d)
  unfolding insert
  length-insert key new [] = omega arith
  length-insert key new ((name, value) ∷ rest) = ground (arith, length-insert key new rest)

  length-batch_loop :
      (ids : List String) (result : Dict (Json F))
      → length (batch_loop a b ids result) ≤ length ids + length result
  unfolding batch_loop
  length-batch_loop [] result = omega arith
  length-batch_loop (raw ∷ ids) result =
      let name = trim_space raw in
      elim (Bool-cases (is_empty name)) [
        | inl blank ↦ rw blank (omega (arith, length-batch_loop ids result))
        | inr there ↦
            let grown = insert name (batch_value a b name) result in
            rw there (
              omega (
                arith,
                length-batch_loop ids grown,
                length-insert name (batch_value a b name) result,
              ))
      ]

  -- What the answer says of a market: the object that Redis holds for its price, or null.
  abbrev pub held_price : String → Json F
  held_price id = elim (held a b (append_text "live:price:" id)) [ none ↦ null | some v ↦ v ]

  value-object :
      (o : Option (Option (Members F))) (v : Option (Json F))
      → object_of a b o ≡ v
      → (elim o [ none ↦ null | some ms ↦ of_map ms ]) ≡ (elim v [ none ↦ null | some w ↦ w ])
  value-object none v e = rw (sym e) refl
  value-object (some none) v e = rw (sym e) refl
  value-object (some (some ms)) v e = rw (sym e) refl

  batch_value-held : (id : String) → batch_value a b id ≡ held_price id
  unfolding batch_value
  batch_value-held id =
      value-object (get_object a b (append_text "live:price:" id)) _
        (get_object-held a b (append_text "live:price:" id))

  -- The texts between the commas of a request, whose code is 44, without the blanks around them: the first 100.
  abbrev pub named_in : String → List String
  named_in ids = map trim_space (take 100 (split 44 (trim_space ids)))

  no_text : (s : String) → is_empty s ≡ true → s ≡ ""
  no_text String.[] h = refl
  no_text (String.◌∷◌ c s) h = ground arith

  no_ids :
      (id : String) → (not (is_empty id) && contains id (map trim_space (batch_ids ""))) ≡ false
  unfolding contains batch_ids split trim_space
  no_ids String.[] = refl
  no_ids (String.◌∷◌ c s) =
      let apart : "" ≡ String.◌∷◌ c s → true ≡ false = λ e. ap is_empty e in
      elim (Bool-cases (str_eq "" (String.◌∷◌ c s))) [
        | inl same ↦ ground (arith, apart ((eq_iff "" (String.◌∷◌ c s)).0 same))
        | inr other ↦ rw other refl
      ]

  -- The answer has at most 100 entries, and an id has one just when it is not empty and stands,
  -- without the blanks around it, among the first 100 texts between the commas of the parameter
  -- `ids`. The entry is the object that Redis holds under `live:price:` and the id, or null.
  pub get_batch_prices-lookup :
      (query : Dict String) (id : String)
      → (length (get_batch_prices a b query) ≤ 100)
        × (lookup id (get_batch_prices a b query) ≡ (
            if not (is_empty id) && contains id (named_in (get_query query "ids" ""))
            then some (held_price id)
            else none))
  unfolding get_batch_prices batch_ids lookup
  get_batch_prices-lookup query id =
      let ids_param = trim_space (get_query query "ids" "") in
      let ids = batch_ids ids_param in
      let short : length ids ≤ 100 = grind (arith, length-take 100 (split 44 ids_param)) in
      elim (Bool-cases (is_empty ids_param)) [
        | inl blank ↦
            let nothing =
              ap (λ (p : String). not (is_empty id) && contains id (map trim_space (batch_ids p)))
                (no_text ids_param blank) in
            (
              rw (get_batch_prices, blank) (omega arith),
              rw (get_batch_prices, blank, nothing, no_ids id) refl,
            )
        | inr there ↦ (
          rw (get_batch_prices, there) (omega (arith, length-batch_loop ids [], short)),
          rw (get_batch_prices, there, sym (batch_value-held id)) (lookup-batch_loop id ids []),
        )
      ]
