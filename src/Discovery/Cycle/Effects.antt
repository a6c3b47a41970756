-- ===== src/Discovery/Cycle/Effects.antt =====
-- What a key of Redis holds after some effects, by those that set it.
use pred_sx.Base.{
  ◌≡◌, refl, ◌∙◌, inl, inr, Bool, true, false, ◌||◌, some, List, [], ◌∷◌, ◌++◌, String, arith,
  str_eq, All, Bool-cases,
}
use pred_sx.Base.Dict.{Dict, lookup, insert, lookup-insert}
use pred_sx.Discovery.{Effect, publish_market, publish_token, set, add, apply}
use pred_sx.Discovery.Cycle.{Interleaved, neither, left, right}

-- Some effect sets the key.
abbrev pub sets : String → List Effect → Bool
sets key [] = false
sets key (publish_market id m ∷ es) = sets key es
sets key (publish_token id t ∷ es) = sets key es
sets key (set k v ∷ es) = str_eq k key || sets key es
sets key (add id ∷ es) = sets key es

module _ (P : String → Type 0) (key : String) where
  -- What the effect sets the key to has the property.
  abbrev pub SetsTo : Effect → Type 0
  SetsTo (publish_market id m) = Unit
  SetsTo (publish_token id t) = Unit
  SetsTo (set k v) = str_eq k key ≡ true → P v
  SetsTo (add id) = Unit

  -- What the key holds has it.
  abbrev pub Holds : Dict String → Type 0
  Holds r = (v : String) × (lookup key r ≡ some v) × P v

  insert-Holds :
      (k v : String) (r : Dict String)
      → (str_eq k key ≡ true → P v)
      → Holds r
      → Holds (insert k v r)
  insert-Holds k v r p (w, at, q) = elim (Bool-cases (str_eq k key)) [
    | inl this ↦ (v, lookup-insert k key v r ∙ rw this refl, p this)
    | inr other ↦ (w, lookup-insert k key v r ∙ rw other at, q)
  ]

  apply-Holds : (es : List Effect) (r : Dict String) → All SetsTo es → Holds r → Holds (apply es r)
  unfolding apply
  apply-Holds [] r p h = h
  apply-Holds (publish_market id m ∷ es) r p h = apply-Holds es r p.1 h
  apply-Holds (publish_token id t ∷ es) r p h = apply-Holds es r p.1 h
  apply-Holds (set k v ∷ es) r p h = apply-Holds es (insert k v r) p.1 (insert-Holds k v r p.0 h)
  apply-Holds (add id ∷ es) r p h = apply-Holds es r p.1 h

  pub apply-sets :
      (es : List Effect) (r : Dict String) → All SetsTo es → sets key es ≡ true → Holds (apply es r)
  unfolding apply
  apply-sets [] r p h = absurd (ground (arith, h))
  apply-sets (publish_market id m ∷ es) r p h = apply-sets es r p.1 h
  apply-sets (publish_token id t ∷ es) r p h = apply-sets es r p.1 h
  apply-sets (set k v ∷ es) r p h = elim (Bool-cases (str_eq k key)) [
    | inl this ↦
        apply-Holds es (insert k v r) p.1 (v, lookup-insert k key v r ∙ rw this refl, p.0 this)
    | inr other ↦ apply-sets es (insert k v r) p.1 (ground (arith, h))
  ]
  apply-sets (add id ∷ es) r p h = apply-sets es r p.1 h

  pub sets-append_left : (xs ys : List Effect) → sets key xs ≡ true → sets key (xs ++ ys) ≡ true
  sets-append_left [] ys h = absurd (ground (arith, h))
  sets-append_left (publish_market id m ∷ xs) ys h = sets-append_left xs ys h
  sets-append_left (publish_token id t ∷ xs) ys h = sets-append_left xs ys h
  sets-append_left (set k v ∷ xs) ys h = ground (arith, h, sets-append_left xs ys)
  sets-append_left (add id ∷ xs) ys h = sets-append_left xs ys h

  -- An effect before others that set the key.
  pub sets-cons : (e : Effect) (es : List Effect) → sets key es ≡ true → sets key (e ∷ es) ≡ true
  sets-cons (publish_market id m) es h = h
  sets-cons (publish_token id t) es h = h
  sets-cons (set k v) es h = ground (arith, h)
  sets-cons (add id) es h = h

  pub sets-append_right : (xs ys : List Effect) → sets key ys ≡ true → sets key (xs ++ ys) ≡ true
  sets-append_right [] ys h = h
  sets-append_right (x ∷ xs) ys h = sets-cons x (xs ++ ys) (sets-append_right xs ys h)

  -- The same effect before two lists.
  sets-both :
      (e : Effect) (xs ys : List Effect)
      → (sets key xs ≡ true → sets key ys ≡ true)
      → sets key (e ∷ xs) ≡ true
      → sets key (e ∷ ys) ≡ true
  sets-both (publish_market id m) xs ys f h = f h
  sets-both (publish_token id t) xs ys f h = f h
  sets-both (set k v) xs ys f h = ground (arith, h, f)
  sets-both (add id) xs ys f h = f h

  pub Interleaved-left :
      {xs ys zs : List Effect} → Interleaved xs ys zs → sets key xs ≡ true → sets key zs ≡ true
  Interleaved-left neither h = h
  Interleaved-left (left x i) h = sets-both x _ _ (Interleaved-left i) h
  Interleaved-left (right y i) h = sets-cons y _ (Interleaved-left i h)

  pub Interleaved-right :
      {xs ys zs : List Effect} → Interleaved xs ys zs → sets key ys ≡ true → sets key zs ≡ true
  Interleaved-right neither h = h
  Interleaved-right (left x i) h = sets-cons x _ (Interleaved-right i h)
  Interleaved-right (right y i) h = sets-both y _ _ (Interleaved-right i) h

  pub Interleaved-All :
      {xs ys zs : List Effect}
      → Interleaved xs ys zs
      → All SetsTo xs
      → All SetsTo ys
      → All SetsTo zs
  Interleaved-All neither p q = tt
  Interleaved-All (left x i) p q = (p.0, Interleaved-All i p.1 q)
  Interleaved-All (right y i) p q = (q.0, Interleaved-All i p q.1)
