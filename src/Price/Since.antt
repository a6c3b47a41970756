-- ===== src/Price/Since.antt =====
-- Windows of a list of points in order of time, and what the clean-up of a window keeps.
use pred_sx.Base.{
  ℕ, ◌≤◌, ◌≡◌, refl, List, [], ◌∷◌, ◌++◌, arith, if◌then◌else◌, ltb, All, All-append, Bool-cases,
  inl, inr,
}
use pred_sx.Number.{Arith}
use pred_sx.Price.{TradePoint, evict}

module _ {F : Type 0} (a : Arith F) where
  -- Arithmetic without rounding, as far as the volume needs it.
  pub record IsExact : Type 0 where
    pub add_assoc : (x y z : F) → a.add (a.add x y) z ≡ a.add x (a.add y z)
    pub zero-add : (x : F) → a.add (a.lit 0 0) x ≡ x
    pub add-zero : (x : F) → a.add x (a.lit 0 0) ≡ x
    pub sub-add : (x y : F) → a.sub (a.add x y) x ≡ y

  unfoldable pub total : List (TradePoint F) → F
  total [] = a.lit 0 0
  total (p ∷ points) = a.add p.val (total points)

module _ {F : Type 0} where
  -- The points that are not before the cutoff.
  unfoldable pub since : ℕ → List (TradePoint F) → List (TradePoint F)
  since cutoff [] = []
  since cutoff (p ∷ points) =
      if ltb p.ts cutoff then since cutoff points else p ∷ since cutoff points

  -- Points in order of time, none after `latest`.
  abbrev pub UpTo : ℕ → List (TradePoint F) → Type 0
  UpTo latest points = All (λ p. p.ts ≤ latest) points

  abbrev pub InOrder : List (TradePoint F) → Type 0
  InOrder [] = Unit
  InOrder (p ∷ points) = All (λ q. p.ts ≤ q.ts) points × InOrder points

  pub since-whole :
      (cutoff : ℕ) (points : List (TradePoint F))
      → All (λ q. cutoff ≤ q.ts) points
      → since cutoff points ≡ points
  unfolding since
  since-whole cutoff [] h = refl
  since-whole cutoff (p ∷ points) h = ground (arith, since-whole cutoff points h.1)

  pub later-All :
      (t u : ℕ) (points : List (TradePoint F))
      → t ≤ u
      → All (λ q. u ≤ q.ts) points
      → All (λ q. t ≤ q.ts) points
  later-All t u [] h b = tt
  later-All t u (p ∷ points) h b = (omega arith, later-All t u points h b.1)

  pub since-append :
      (cutoff : ℕ) (xs ys : List (TradePoint F))
      → since cutoff (xs ++ ys) ≡ since cutoff xs ++ since cutoff ys
  unfolding since
  since-append cutoff [] ys = refl
  since-append cutoff (x ∷ xs) ys = ground (arith, since-append cutoff xs ys)

  pub since-since :
      (c d : ℕ) (points : List (TradePoint F)) → c ≤ d → since d (since c points) ≡ since d points
  unfolding since
  since-since c d [] h = refl
  since-since c d (p ∷ points) h = ground (arith, since-since c d points h)

module _ {F : Type 0} (a : Arith F) where
  -- The loop keeps exactly the points since the cutoff, if they are in order.
  pub evict-since :
      (cutoff : ℕ) (volume : F) (points : List (TradePoint F))
      → InOrder points
      → (evict a cutoff volume points).1 ≡ since cutoff points
  unfolding evict since
  evict-since cutoff volume [] o = refl
  evict-since cutoff volume (p ∷ points) o = elim (Bool-cases (ltb p.ts cutoff)) [
    | inl old ↦ rw old (evict-since cutoff (a.sub volume p.val) points o.1)
    | inr young ↦
        rw (young, since-whole cutoff points (later-All cutoff p.ts points (ground arith) o.0))
  ]

  pub evict-total :
      IsExact a
      → (cutoff : ℕ) (volume : F) (points : List (TradePoint F)) → volume ≡ total a points
      → (evict a cutoff volume points).0 ≡ total a (evict a cutoff volume points).1
  unfolding evict total
  evict-total x cutoff volume [] e = e
  evict-total x cutoff volume (p ∷ points) e = elim (Bool-cases (ltb p.ts cutoff)) [
    | inl old ↦
        rw old (
          evict-total x cutoff (a.sub volume p.val) points
            (rw e (x.sub-add p.val (total a points))))
    | inr young ↦ rw young e
  ]

  pub total-append :
      IsExact a
      → (points : List (TradePoint F)) (p : TradePoint F)
      → total a (points ++ p ∷ []) ≡ a.add (total a points) p.val
  unfolding total
  total-append x [] p = cc (x.zero-add p.val, x.add-zero p.val)
  total-append x (q ∷ points) p =
      cc (total-append x points p, x.add_assoc q.val (total a points) p.val)

module _ {F : Type 0} where
  pub All-since :
      (P : TradePoint F → Type 0) (c : ℕ) (points : List (TradePoint F))
      → All P points
      → All P (since c points)
  unfolding since
  All-since P c [] h = tt
  All-since P c (p ∷ points) h = elim (Bool-cases (ltb p.ts c)) [
    | inl old ↦ rw old (All-since P c points h.1)
    | inr young ↦ rw young (h.0, All-since P c points h.1)
  ]

  pub since-InOrder :
      (c : ℕ) (points : List (TradePoint F)) → InOrder points → InOrder (since c points)
  unfolding since
  since-InOrder c [] o = tt
  since-InOrder c (p ∷ points) o = elim (Bool-cases (ltb p.ts c)) [
    | inl old ↦ rw old (since-InOrder c points o.1)
    | inr young ↦ rw young (All-since _ c points o.0, since-InOrder c points o.1)
  ]

  pub snoc-InOrder :
      (points : List (TradePoint F)) (p : TradePoint F)
      → InOrder points
      → UpTo p.ts points
      → InOrder (points ++ p ∷ [])
  snoc-InOrder [] p o u = (tt, tt)
  snoc-InOrder (q ∷ points) p o u =
      (All-append _ points (p ∷ []) o.0 (u.0, tt), snoc-InOrder points p o.1 u.1)

  pub UpTo-mono : (m n : ℕ) (points : List (TradePoint F)) → m ≤ n → UpTo m points → UpTo n points
  UpTo-mono m n [] h u = tt
  UpTo-mono m n (p ∷ points) h u = (omega arith, UpTo-mono m n points h u.1)
