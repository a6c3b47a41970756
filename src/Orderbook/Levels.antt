-- ===== src/Orderbook/Levels.antt =====
-- One side of a book under `applyLevels`.
use pred_sx.Base.{
  ◌≡◌, refl, false, Option, none, some, List, [], ◌∷◌, String, if◌then◌else◌, str_eq, Bool-cases,
  Option-cases, inl, inr,
}
use pred_sx.Base.Dict.{
  Dict, lookup, insert, delete, lookup-insert, lookup-delete, IsUnique, insert-IsUnique,
  delete-IsUnique,
}
use pred_sx.Number.{Arith}
use pred_sx.Json.{Json, as_array}
use pred_sx.Orderbook.{is_zero_size, set_level, read_level, apply_each, apply_levels}

-- A side of a book: every price once, and no size that means removal.
abbrev pub HasSizes : Dict String → Type 0
HasSizes [] = Unit
HasSizes ((price, size) ∷ m) = (is_zero_size size ≡ false) × HasSizes m

pub record IsSide (m : Dict String) : Type 0 where
  pub unique : IsUnique m
  pub sizes : HasSizes m

insert-HasSizes :
    (k size : String) (m : Dict String)
    → is_zero_size size ≡ false
    → HasSizes m
    → HasSizes (insert k size m)
unfolding insert
insert-HasSizes k size [] h s = (h, tt)
insert-HasSizes k size ((j, v) ∷ m) h s = elim (Bool-cases (str_eq j k)) [
  | inl e ↦ rw e (h, s.1)
  | inr e ↦ rw e (s.0, insert-HasSizes k size m h s.1)
]

delete-HasSizes : (k : String) (m : Dict String) → HasSizes m → HasSizes (delete k m)
unfolding delete
delete-HasSizes k [] s = tt
delete-HasSizes k ((j, v) ∷ m) s = elim (Bool-cases (str_eq j k)) [
  | inl e ↦ rw e (delete-HasSizes k m s.1)
  | inr e ↦ rw e (s.0, delete-HasSizes k m s.1)
]

set_level-IsSide :
    (price size : String) (m : Dict String) → IsSide m → IsSide (set_level price size m)
unfolding set_level
set_level-IsSide price size m s = elim (Bool-cases (is_zero_size size)) [
  | inl zero ↦ rw zero (record {
    unique = delete-IsUnique price m s.unique;
    sizes = delete-HasSizes price m s.sizes;
  })
  | inr other ↦ rw other (record {
    unique = insert-IsUnique price size m s.unique;
    sizes = insert-HasSizes price size m other s.sizes;
  })
]

lookup-set_level :
    (price size k : String) (m : Dict String)
    → lookup k (set_level price size m)
      ≡ (if str_eq price k then (if is_zero_size size then none else some size) else lookup k m)
unfolding set_level
lookup-set_level price size k m = elim (Bool-cases (is_zero_size size)) [
  | inl zero ↦ rw zero (lookup-delete price k m)
  | inr other ↦ rw other (lookup-insert price k size m)
]

module _ {F : Type 0} (a : Arith F) (composite : Json F → String) where
  -- What a sequence of levels says of one price: the last size it is given, none if that is zero,
  -- and what it was where it is not mentioned.
  unfoldable pub final_size : String → List (Json F) → Option String → Option String
  final_size k [] old = old
  final_size k (v ∷ vs) old = final_size k vs (elim (read_level a composite v) [
    | none ↦ old
    | some (price, size) ↦
        if str_eq price k then (if is_zero_size size then none else some size) else old
  ])

  lookup-apply_each :
      (k : String) (vs : List (Json F)) (m : Dict String)
      → lookup k (apply_each a composite vs m) ≡ final_size k vs (lookup k m)
  unfolding apply_each final_size
  lookup-apply_each k [] m = refl
  lookup-apply_each k (v ∷ vs) m = elim (Option-cases (read_level a composite v)) [
    | inl e ↦ rw (e, apply_each, final_size) (lookup-apply_each k vs m)
    | inr (level, e) ↦
        rw (e, apply_each, final_size, ← lookup-set_level level.0 level.1 k m)
          (lookup-apply_each k vs (set_level level.0 level.1 m))
  ]

  apply_each-IsSide :
      (vs : List (Json F)) (m : Dict String) → IsSide m → IsSide (apply_each a composite vs m)
  unfolding apply_each
  apply_each-IsSide [] m s = s
  apply_each-IsSide (v ∷ vs) m s = elim (Option-cases (read_level a composite v)) [
    | inl e ↦ rw (e, apply_each) (apply_each-IsSide vs m s)
    | inr (level, e) ↦
        rw (e, apply_each)
          (apply_each-IsSide vs (set_level level.0 level.1 m)
            (set_level-IsSide level.0 level.1 m s))
  ]

  -- After `applyLevels` each price has the last size that the levels give it, is gone if that size
  -- is "0" or "0.0", and is as before if no level mentions it.
  pub lookup-apply_levels :
      (k : String) (v : Json F) (vs : List (Json F)) (m : Dict String)
      → as_array v ≡ some vs
      → lookup k (apply_levels a composite v m) ≡ final_size k vs (lookup k m)
  unfolding apply_levels
  lookup-apply_levels k v vs m e = rw (e, apply_levels) (lookup-apply_each k vs m)

  pub apply_levels-IsSide :
      (v : Json F) (m : Dict String) → IsSide m → IsSide (apply_levels a composite v m)
  unfolding apply_levels
  apply_levels-IsSide v m s = elim (Option-cases (as_array v)) [
    | inl e ↦ rw (e, apply_levels) s
    | inr (vs, e) ↦ rw (e, apply_levels) (apply_each-IsSide vs m s)
  ]
