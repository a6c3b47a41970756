-- ===== src/Orderbook/Top.antt =====
-- The levels that an update carries: `getTopLevels` against the book.
use Prim.Native.Nat.{min}
use pred_sx.Base.{
  ℕ, ◌<◌, ◌≡◌, refl, ap, Bool, true, false, ◌⊎◌, inl, inr, some, List, [], ◌∷◌, map, String, arith,
  str_eq, eq_iff, length, length-take, take, All, All-take, Bool-cases,
}
use pred_sx.Base.Dict.{Dict, lookup, keys}
use pred_sx.Number.{Arith}
use pred_sx.Json.{Json}
use pred_sx.Event.{PriceLevel}
use pred_sx.Orderbook.{size_at, get_top_levels}
use pred_sx.Orderbook.Sort.{
  count, IsStrictWeak, Ordered, SortFunction, IsSort, take-Ordered, take-best,
}

abbrev pub prices : List PriceLevel → List String
prices levels = map (λ l. l.price) levels

-- The best `limit` levels of the side `m`, best first.
pub record IsTop (less : String → String → Bool) (m : Dict String) (limit : ℕ)
    (levels : List PriceLevel) : Type 0 where
  pub size : length levels ≡ min limit (length m)
  pub quoted : All (λ l. lookup l.price m ≡ some l.size) levels
  pub sorted : Ordered less (prices levels)
  pub best :
      (k s : String)
      → lookup k m ≡ some s
      → (0 < count k (prices levels)) ⊎ All (λ p. less k p ≡ false) (prices levels)

-- A key that is counted has an entry, and the other way round.
count-lookup :
    (k : String) (m : Dict String) → 0 < count k (keys m) → (s : String) × (lookup k m ≡ some s)
unfolding lookup
count-lookup k [] c = elim c [ ]
count-lookup k ((j, v) ∷ m) c = elim (Bool-cases (str_eq j k)) [
  | inl e ↦ (v, rw e)
  | inr e ↦ rw e (count-lookup k m (ground arith))
]

lookup-size_at :
    (k : String) (m : Dict String) → 0 < count k (keys m) → lookup k m ≡ some (size_at m k)
unfolding size_at
lookup-size_at k m c = let (s, e) = count-lookup k m c in rw (e, size_at)

lookup-count : (k s : String) (m : Dict String) → lookup k m ≡ some s → 0 < count k (keys m)
unfolding lookup
lookup-count k s [] e = cc
lookup-count k s ((j, v) ∷ m) e = ground (arith, lookup-count k s m)

-- Every element of a list is counted in it.
All-counted :
    (P : String → Type 0) (xs : List String) → ((k : String) → 0 < count k xs → P k) → All P xs
All-counted P [] h = tt
All-counted P (x ∷ xs) h =
    (h x (rw ((eq_iff x x).1 refl) (omega arith)), All-counted P xs (λ k c. h k (ground arith)))

prices-levels :
    (f : String → String) (ks : List String)
    → prices (map (λ k. record { price = k; size = f k }) ks) ≡ ks
prices-levels f [] = refl
prices-levels f (k ∷ ks) = ap (◌∷◌ k) (prices-levels f ks)

All-levels :
    (P : PriceLevel → Type 0) (f : String → String) (ks : List String)
    → All (λ k. P (record { price = k; size = f k })) ks
    → All P (map (λ k. record { price = k; size = f k }) ks)
All-levels P f [] h = tt
All-levels P f (k ∷ ks) h = (h.0, All-levels P f ks h.1)

length-levels : (f : String → PriceLevel) (ks : List String) → length (map f ks) ≡ length ks
length-levels f [] = refl
length-levels f (k ∷ ks) = omega (arith, length-levels f ks)

length-keys : (m : Dict String) → length (keys m) ≡ length m
length-keys [] = refl
length-keys (e ∷ m) = omega (arith, length-keys m)

IsStrictWeak-flip :
    (less : String → String → Bool) → IsStrictWeak less → IsStrictWeak (λ x y. less y x)
IsStrictWeak-flip less w = record {
  irrefl = w.irrefl;
  trans = λ x y z e e'. w.trans z y x e' e;
  weak = λ x y z e. elim (w.weak z y x e) [ inl l ↦ inr l | inr r ↦ inl r ];
}

module _ {F : Type 0} (a : Arith F) where
  -- One price is below another, or above it.
  abbrev pub lower : String → String → Bool
  lower x y = a.lt (a.parse x) (a.parse y)

  abbrev pub higher : String → String → Bool
  higher x y = a.lt (a.parse y) (a.parse x)

module _ {F : Type 0} (a : Arith F) (composite : Json F → String) (sort : SortFunction)
    (s : IsSort sort) where
  sorted-IsTop :
      (less : String → String → Bool) (m : Dict String) (limit : ℕ)
      → IsStrictWeak less
      → IsTop less m limit
          (map (λ k. record { price = k; size = size_at m k }) (take limit (sort less (keys m))))
  sorted-IsTop less m limit w =
      let ks = sort less (keys m) in
      let o = s.ordered less (keys m) w in
      let counted = s.same_count less (keys m) in
      let same = prices-levels (size_at m) (take limit ks) in
      record {
        size = omega (
          arith,
          length-levels (λ k. record { price = k; size = size_at m k }) (take limit ks),
          length-take limit ks,
          s.same_length less (keys m),
          length-keys m,
        );
        quoted =
            All-levels (λ l. lookup l.price m ≡ some l.size) (size_at m) (take limit ks)
              (All-take _ limit ks
                (All-counted _ ks (λ k c. lookup-size_at k m (rw (counted k) at c))));
        sorted = rw same (take-Ordered less limit ks o);
        best = λ k size e.
            rw same (take-best less k limit ks o (rw (counted k) (lookup-count k size m e)));
      }

  -- If the prices compare as numbers do, NaN aside, `getTopLevels` gives the best `limit` levels of
  -- a side in order: with `desc`, as the engine calls it for the bids, the highest prices, highest
  -- first, and without, as for the asks, the lowest, lowest first. They are as many as the side has,
  -- or `limit`, each with the size that the book has at its price, and no price of the side that is
  -- left out is better than one that is in.
  pub get_top_levels-IsTop :
      (m : Dict String) (limit : ℕ)
      → IsStrictWeak (lower a)
      → IsTop (higher a) m limit (get_top_levels a composite sort m true limit)
        × IsTop (lower a) m limit (get_top_levels a composite sort m false limit)
  unfolding get_top_levels pred_sx.Orderbook.better
  get_top_levels-IsTop m limit w = (
    sorted-IsTop (higher a) m limit (IsStrictWeak-flip (lower a) w),
    sorted-IsTop (lower a) m limit w,
  )
