-- ===== src/Orderbook/Sort.antt =====
-- What the engine asks of `sort.Slice`: an arrangement of the same keys, in order if the comparison
-- is a strict weak order. An insertion sort shows that it can be had.
use pred_sx.Base.{
  ℕ, zero, suc, ◌<◌, ◌≡◌, refl, Bool, true, false, ◌⊎◌, inl, inr, List, [], ◌∷◌, String, arith,
  if◌then◌else◌, str_eq, eq_iff, length, take, All, All-take, Bool-cases, subst,
}

abbrev pub count : String → List String → ℕ
count k [] = 0
count k (x ∷ xs) = if str_eq x k then suc (count k xs) else count k xs

pub record IsStrictWeak (less : String → String → Bool) : Type 0 where
  pub irrefl : (x : String) → less x x ≡ false
  pub trans : (x y z : String) → less x y ≡ true → less y z ≡ true → less x z ≡ true
  pub weak : (x y z : String) → less x z ≡ true → (less x y ≡ true) ⊎ (less y z ≡ true)

-- Nothing stands before something that is less.
abbrev pub Ordered : (String → String → Bool) → List String → Type 0
Ordered less [] = Unit
Ordered less (x ∷ xs) = All (λ y. less y x ≡ false) xs × Ordered less xs

abbrev pub SortFunction : Type 0
SortFunction = (String → String → Bool) → List String → List String

pub record IsSort (sort : SortFunction) : Type 0 where
  pub same_count :
      (less : String → String → Bool) (xs : List String) (k : String)
      → count k (sort less xs) ≡ count k xs
  pub same_length :
      (less : String → String → Bool) (xs : List String) → length (sort less xs) ≡ length xs
  pub ordered :
      (less : String → String → Bool) (xs : List String)
      → IsStrictWeak less
      → Ordered less (sort less xs)

pub All-count :
    (P : String → Type 0) (k : String) (xs : List String) → All P xs → 0 < count k xs → P k
All-count P k [] h c = elim c [ ]
All-count P k (x ∷ xs) h c = elim (Bool-cases (str_eq x k)) [
  | inl e ↦ subst P ((eq_iff x k).0 e) h.0
  | inr e ↦ All-count P k xs h.1 (ground arith)
]

module _ (less : String → String → Bool) where
  pub take-Ordered : (n : ℕ) (xs : List String) → Ordered less xs → Ordered less (take n xs)
  take-Ordered zero xs o = tt
  take-Ordered (suc n) [] o = tt
  take-Ordered (suc n) (x ∷ xs) o = (All-take _ n xs o.0, take-Ordered n xs o.1)

  -- A key of an ordered list is among the first `n`, or is not less than any of them.
  pub take-best :
      (k : String) (n : ℕ) (xs : List String)
      → Ordered less xs
      → 0 < count k xs
      → (0 < count k (take n xs)) ⊎ All (λ x. less k x ≡ false) (take n xs)
  take-best k zero xs o c = inr tt
  take-best k (suc n) [] o c = elim c [ ]
  take-best k (suc n) (x ∷ xs) o c = elim (Bool-cases (str_eq x k)) [
    | inl e ↦ rw e (inl (omega arith))
    | inr e ↦
        let later : 0 < count k xs = ground arith in
        let behind = All-count (λ y. less y x ≡ false) k xs o.0 later in
        elim (take-best k n xs o.1 later) [
          | inl here ↦ rw e (inl here)
          | inr rest ↦ inr (behind, rest)
        ]
  ]

  unfoldable pub place : String → List String → List String
  place x [] = x ∷ []
  place x (y ∷ ys) = if less y x then y ∷ place x ys else x ∷ y ∷ ys

  unfoldable pub insertion_sort : List String → List String
  unfolding place
  insertion_sort [] = []
  insertion_sort (x ∷ xs) = place x (insertion_sort xs)

  count-place : (k x : String) (ys : List String) → count k (place x ys) ≡ count k (x ∷ ys)
  unfolding place
  count-place k x [] = refl
  count-place k x (y ∷ ys) = ground (arith, count-place k x ys)

  length-place : (x : String) (ys : List String) → length (place x ys) ≡ suc (length ys)
  unfolding place
  length-place x [] = refl
  length-place x (y ∷ ys) = ground (arith, length-place x ys)

  All-place :
      (P : String → Type 0) (x : String) (ys : List String) → P x → All P ys → All P (place x ys)
  unfolding place
  All-place P x [] p h = (p, tt)
  All-place P x (y ∷ ys) p h = elim (Bool-cases (less y x)) [
    | inl e ↦ rw e (h.0, All-place P x ys p h.1)
    | inr e ↦ rw e (p, h)
  ]

  module _ (w : IsStrictWeak less) where
    not_less : (x y z : String) → less y x ≡ false → less z y ≡ false → less z x ≡ false
    not_less x y z h k = ground (arith, w.weak z y x)

    All-not_less :
        (x y : String) (zs : List String)
        → less y x ≡ false
        → All (λ z. less z y ≡ false) zs
        → All (λ z. less z x ≡ false) zs
    All-not_less x y [] h a = tt
    All-not_less x y (z ∷ zs) h a = (not_less x y z h a.0, All-not_less x y zs h a.1)

    asym : (x y : String) → less y x ≡ true → less x y ≡ false
    asym x y h = ground (arith, w.trans x y x, w.irrefl x)

    place-Ordered : (x : String) (ys : List String) → Ordered less ys → Ordered less (place x ys)
    unfolding place
    place-Ordered x [] o = (tt, tt)
    place-Ordered x (y ∷ ys) o = elim (Bool-cases (less y x)) [
      | inl e ↦ rw e (All-place _ x ys (asym x y e) o.0, place-Ordered x ys o.1)
      | inr e ↦ rw e ((e, All-not_less x y ys e o.0), o)
    ]

    insertion_sort-Ordered : (xs : List String) → Ordered less (insertion_sort xs)
    unfolding insertion_sort
    insertion_sort-Ordered [] = tt
    insertion_sort-Ordered (x ∷ xs) =
        place-Ordered x (insertion_sort xs) (insertion_sort-Ordered xs)

  count-insertion_sort : (k : String) (xs : List String) → count k (insertion_sort xs) ≡ count k xs
  unfolding insertion_sort
  count-insertion_sort k [] = refl
  count-insertion_sort k (x ∷ xs) =
      ground (arith, count-place k x (insertion_sort xs), count-insertion_sort k xs)

  length-insertion_sort : (xs : List String) → length (insertion_sort xs) ≡ length xs
  unfolding insertion_sort
  length-insertion_sort [] = refl
  length-insertion_sort (x ∷ xs) =
      ground (arith, length-place x (insertion_sort xs), length-insertion_sort xs)

pub insertion_sort-IsSort : IsSort insertion_sort
insertion_sort-IsSort = record {
  same_count = λ less xs k. count-insertion_sort less k xs;
  same_length = λ less xs. length-insertion_sort less xs;
  ordered = λ less xs w. insertion_sort-Ordered less w xs;
}
