-- ===== src/Rest/Markets/Fresh.antt =====
-- Lists of markets with no market id twice (predsx/services/api/handlers/rest.go).
use pred_sx.Base.{
  ℕ, zero, suc, ◌≡◌, true, false, not, ◌||◌, inl, inr, List, [], ◌∷◌, ◌++◌, String, arith, is_empty,
  Bool-cases, take, drop,
}
use pred_sx.Base.Names.{contains, IsPart, IsPart-cons, IsPart-skip}
use pred_sx.Json.{Members}
use pred_sx.Rest.Markets.{market_id_of, note, seen_of}

module _ {F : Type 0} where
  -- No market id that is not empty stands in the list twice, or among the ids already seen.
  unfoldable pub IsFresh : List String → List (Members F) → Type 0
  IsFresh seen [] = Unit
  IsFresh seen (item ∷ items) =
      ((is_empty (market_id_of item) || not (contains (market_id_of item) seen)) ≡ true)
      × IsFresh (note seen item) items

  note-IsPart :
      (old new : List String) (item : Members F)
      → IsPart old new
      → IsPart (note old item) (note new item)
  unfolding note
  note-IsPart old new item part = elim (Bool-cases (is_empty (market_id_of item))) [
    | inl none_there ↦ rw none_there part
    | inr there ↦ rw there (IsPart-cons old new (market_id_of item) part)
  ]

  IsFresh-part :
      (old new : List String) (items : List (Members F))
      → IsPart old new
      → IsFresh new items
      → IsFresh old items
  unfolding IsFresh
  IsFresh-part old new [] part h = tt
  IsFresh-part old new (item ∷ items) part h =
      let known = part (market_id_of item) in
      (
        ground (arith, known),
        IsFresh-part (note old item) (note new item) items (note-IsPart old new item part) h.1,
      )

  note-grows : (seen : List String) (item : Members F) → IsPart seen (note seen item)
  unfolding note
  note-grows seen item = elim (Bool-cases (is_empty (market_id_of item))) [
    | inl none_there ↦ rw none_there (λ name h. h)
    | inr there ↦ rw there (IsPart-skip seen seen (market_id_of item) (λ name h. h))
  ]

  pub IsFresh-drop :
      (seen : List String) (n : ℕ) (items : List (Members F))
      → IsFresh seen items
      → IsFresh seen (drop n items)
  unfolding IsFresh
  IsFresh-drop seen zero items h = h
  IsFresh-drop seen (suc n) [] h = tt
  IsFresh-drop seen (suc n) (item ∷ items) h =
      IsFresh-drop seen n items
        (IsFresh-part seen (note seen item) items (note-grows seen item) h.1)

  pub IsFresh-take :
      (seen : List String) (n : ℕ) (items : List (Members F))
      → IsFresh seen items
      → IsFresh seen (take n items)
  unfolding IsFresh
  IsFresh-take seen zero items h = tt
  IsFresh-take seen (suc n) [] h = tt
  IsFresh-take seen (suc n) (item ∷ items) h = (h.0, IsFresh-take (note seen item) n items h.1)

  pub IsFresh-append :
      (seen : List String) (xs ys : List (Members F))
      → IsFresh seen xs
      → IsFresh (seen_of seen xs) ys
      → IsFresh seen (xs ++ ys)
  unfolding IsFresh seen_of
  IsFresh-append seen [] ys hx hy = hy
  IsFresh-append seen (x ∷ xs) ys hx hy = (hx.0, IsFresh-append (note seen x) xs ys hx.1 hy)

  -- A result whose id is not among the names seen so far is fresh, and so are the later ones.
  pub IsFresh-cons :
      (old seen : List String) (item : Members F) (items : List (Members F))
      → contains (market_id_of item) seen ≡ false
      → IsPart old seen
      → ((new : List String) → IsPart new (market_id_of item ∷ seen) → IsFresh new items)
      → IsFresh old (item ∷ items)
  unfolding IsFresh note
  IsFresh-cons old seen item items h part later =
      let known = part (market_id_of item) in
      let more = note-IsPart old seen item part in
      let kept : IsPart (note old item) (market_id_of item ∷ seen) =
        elim (Bool-cases (is_empty (market_id_of item))) [
          | inl none_there ↦
              rw none_there (λ name q. IsPart-skip old seen (market_id_of item) part name q)
          | inr there ↦ rw there (IsPart-cons old seen (market_id_of item) part)
        ] in
      (ground (arith, known), later (note old item) kept)
