-- ===== src/Aggregator/Candle.antt =====
-- A bucket is the candle of the trades that share its key.
use mathlib.Core.List.{append-nil, append_assoc}
use pred_sx.Base.{
  ℕ, ◌%◌, ◌^◌, ◌≡◌, refl, sym, ap, Bool, true, false, ◌⊎◌, inl, inr, Bool-cases, Option, none, some,
  List, [], ◌∷◌, ◌++◌, String, arith, if◌then◌else◌, str_eq, eq_iff, length, length-append, All,
  All-append,
}
use pred_sx.Base.Dict.{Dict, lookup, lookup-insert}
use pred_sx.Number.{Arith, IsOrdered}
use pred_sx.Event.{TradeEvent}
use pred_sx.Aggregator.{
  MetricBucket, window_of, bucket_key, new_bucket, absorb, found_or_new, update_bucket,
  update_buckets,
}

module _ {F : Type 0} where
  -- Some trade of the list has the price.
  abbrev pub HasPrice : F → List (TradeEvent F) → Type 0
  HasPrice p [] = ⊥
  HasPrice p (t ∷ ts) = (t.price ≡ p) ⊎ HasPrice p ts

  unfoldable pub last_price : TradeEvent F → List (TradeEvent F) → F
  last_price t [] = t.price
  last_price t (u ∷ ts) = last_price u ts

  unfoldable pub sum_from : (F → F → F) → (TradeEvent F → F) → F → List (TradeEvent F) → F
  sum_from add term acc [] = acc
  sum_from add term acc (t ∷ ts) = sum_from add term (add acc (term t)) ts

module _ {F : Type 0} (a : Arith F) where
  -- The trades whose bucket has the key.
  unfoldable pub trades_at : ℕ → String → List (TradeEvent F) → List (TradeEvent F)
  trades_at d k [] = []
  trades_at d k (t ∷ ts) =
      if str_eq (bucket_key a d t) k then t ∷ trades_at d k ts else trades_at d k ts

  -- The candle of the trades `t ∷ ts`: first and last price, a price that none exceeds and one
  -- that none undercuts, the number of trades in a uint32, and the sums in the order of arrival.
  pub record IsCandle (d : ℕ) (b : MetricBucket F) (t : TradeEvent F) (ts : List (TradeEvent F))
      : Type 0 where
    pub market : b.market_id ≡ t.market_id
    pub window : b.window ≡ window_of d t.timestamp
    pub opening : b.open_price ≡ t.price
    pub closing : b.close ≡ last_price t ts
    pub high_bound : All (λ u. a.lt b.high u.price ≡ false) (t ∷ ts)
    pub high_attained : HasPrice b.high (t ∷ ts)
    pub low_bound : All (λ u. a.lt u.price b.low ≡ false) (t ∷ ts)
    pub low_attained : HasPrice b.low (t ∷ ts)
    pub count : b.trade_count ≡ length (t ∷ ts) % 2 ^ 32
    pub volume : b.volume ≡ sum_from a.add (λ u. u.size) (a.lit 0 0) (t ∷ ts)
    pub notional : b.price_sum_wt ≡ sum_from a.add (λ u. a.mul u.price u.size) (a.lit 0 0) (t ∷ ts)

  -- No bucket for no trades, and the candle for some.
  abbrev pub Summary : ℕ → Option (MetricBucket F) → List (TradeEvent F) → Type 0
  Summary d none [] = Unit
  Summary d (some b) (t ∷ ts) = IsCandle d b t ts
  Summary d none (t ∷ ts) = ⊥
  Summary d (some b) [] = ⊥

module _ {F : Type 0} where
  HasPrice-snoc_left :
      (p : F) (ts : List (TradeEvent F)) (u : TradeEvent F)
      → HasPrice p ts
      → HasPrice p (ts ++ u ∷ [])
  HasPrice-snoc_left p [] u h = elim h [ ]
  HasPrice-snoc_left p (t ∷ ts) u (inl e) = inl e
  HasPrice-snoc_left p (t ∷ ts) u (inr h) = inr (HasPrice-snoc_left p ts u h)

  HasPrice-snoc_self :
      (ts : List (TradeEvent F)) (u : TradeEvent F) → HasPrice u.price (ts ++ u ∷ [])
  HasPrice-snoc_self [] u = inl refl
  HasPrice-snoc_self (t ∷ ts) u = inr (HasPrice-snoc_self ts u)

  last_price-snoc :
      (t : TradeEvent F) (ts : List (TradeEvent F)) (u : TradeEvent F)
      → last_price t (ts ++ u ∷ []) ≡ u.price
  unfolding last_price
  last_price-snoc t [] u = refl
  last_price-snoc t (v ∷ ts) u = last_price-snoc v ts u

  sum_from-snoc :
      (add : F → F → F) (term : TradeEvent F → F) (acc : F) (ts : List (TradeEvent F))
      (u : TradeEvent F)
      → sum_from add term acc (ts ++ u ∷ []) ≡ add (sum_from add term acc ts) (term u)
  unfolding sum_from
  sum_from-snoc add term acc [] u = refl
  sum_from-snoc add term acc (t ∷ ts) u = sum_from-snoc add term (add acc (term t)) ts u

module _ {F : Type 0} (a : Arith F) (o : IsOrdered a) (d : ℕ) where
  new_bucket-IsCandle : (t : TradeEvent F) → IsCandle a d (absorb a (new_bucket a d t) t) t []
  unfolding absorb new_bucket last_price sum_from
  new_bucket-IsCandle t = record {
    market = refl;
    window = refl;
    opening = refl;
    closing = refl;
    high_bound = ground (arith, o.lt_irrefl t.price);
    high_attained = ground arith;
    low_bound = ground (arith, o.lt_irrefl t.price);
    low_attained = ground arith;
    count = refl;
    volume = refl;
    notional = refl;
  }

  All-raise :
      (h p : F) (ts : List (TradeEvent F))
      → a.lt h p ≡ true
      → All (λ u. a.lt h u.price ≡ false) ts
      → All (λ u. a.lt p u.price ≡ false) ts
  All-raise h p [] above bound = tt
  All-raise h p (t ∷ ts) above bound =
      (ground (arith, bound.0, o.lt_trans h p t.price above), All-raise h p ts above bound.1)

  All-lower :
      (l p : F) (ts : List (TradeEvent F))
      → a.lt p l ≡ true
      → All (λ u. a.lt u.price l ≡ false) ts
      → All (λ u. a.lt u.price p ≡ false) ts
  All-lower l p [] below bound = tt
  All-lower l p (t ∷ ts) below bound = (
    ground (arith, bound.0, λ (h : a.lt t.price p ≡ true). o.lt_trans t.price p l h below),
    All-lower l p ts below bound.1,
  )

  module _ (b : MetricBucket F) (t : TradeEvent F) (ts : List (TradeEvent F))
      (c : IsCandle a d b t ts) (u : TradeEvent F) where
    raised :
        (above : Bool)
        → a.lt b.high u.price ≡ above
        → All (λ v. a.lt (if above then u.price else b.high) v.price ≡ false) ((t ∷ ts) ++ u ∷ [])
          × HasPrice (if above then u.price else b.high) ((t ∷ ts) ++ u ∷ [])
    raised true e = (
      All-append _ (t ∷ ts) (u ∷ []) (All-raise b.high u.price (t ∷ ts) e c.high_bound)
          (o.lt_irrefl u.price, tt),
      HasPrice-snoc_self (t ∷ ts) u,
    )
    raised false e = (
      All-append _ (t ∷ ts) (u ∷ []) c.high_bound (e, tt),
      HasPrice-snoc_left b.high (t ∷ ts) u c.high_attained,
    )

    lowered :
        (below : Bool)
        → a.lt u.price b.low ≡ below
        → All (λ v. a.lt v.price (if below then u.price else b.low) ≡ false) ((t ∷ ts) ++ u ∷ [])
          × HasPrice (if below then u.price else b.low) ((t ∷ ts) ++ u ∷ [])
    lowered true e = (
      All-append _ (t ∷ ts) (u ∷ []) (All-lower b.low u.price (t ∷ ts) e c.low_bound)
          (o.lt_irrefl u.price, tt),
      HasPrice-snoc_self (t ∷ ts) u,
    )
    lowered false e = (
      All-append _ (t ∷ ts) (u ∷ []) c.low_bound (e, tt),
      HasPrice-snoc_left b.low (t ∷ ts) u c.low_attained,
    )

    absorb-IsCandle : IsCandle a d (absorb a b u) t (ts ++ u ∷ [])
    unfolding absorb
    absorb-IsCandle = record {
      market = c.market;
      window = c.window;
      opening = c.opening;
      closing = sym (last_price-snoc t ts u);
      high_bound = (raised (a.lt b.high u.price) refl).0;
      high_attained = (raised (a.lt b.high u.price) refl).1;
      low_bound = (lowered (a.lt u.price b.low) refl).0;
      low_attained = (lowered (a.lt u.price b.low) refl).1;
      count = rw c.count (ground (arith, length-append ts (u ∷ [])));
      volume = rw c.volume (sym (sum_from-snoc a.add (λ v. v.size) (a.lit 0 0) (t ∷ ts) u));
      notional =
          rw c.notional
            (sym (sum_from-snoc a.add (λ v. a.mul v.price v.size) (a.lit 0 0) (t ∷ ts) u));
    }

  found-Summary :
      (found : Option (MetricBucket F)) (seen : List (TradeEvent F)) (u : TradeEvent F)
      → Summary a d found seen
      → Summary a d (some (absorb a (found_or_new a d u found) u)) (seen ++ u ∷ [])
  unfolding found_or_new
  found-Summary none [] u s = new_bucket-IsCandle u
  found-Summary none (t ∷ ts) u s = elim s [ ]
  found-Summary (some b) [] u s = elim s [ ]
  found-Summary (some b) (t ∷ ts) u s = absorb-IsCandle b t ts s u

  lookup-update_bucket :
      (k : String) (m : Dict (MetricBucket F)) (t : TradeEvent F)
      → lookup k (update_bucket a d m t) ≡ (
          if str_eq (bucket_key a d t) k
          then some (absorb a (found_or_new a d t (lookup k m)) t)
          else lookup k m)
  unfolding update_bucket
  lookup-update_bucket k m t =
      let key = bucket_key a d t in
      let b = absorb a (found_or_new a d t (lookup key m)) t in
      elim (Bool-cases (str_eq key k)) [
        | inl hit ↦
            rw (lookup-insert key k b m, hit)
              (ap (λ j. some (absorb a (found_or_new a d t (lookup j m)) t)) ((eq_iff key k).0 hit))
        | inr miss ↦ rw (lookup-insert key k b m, miss)
      ]

  step-Summary :
      (k : String) (m : Dict (MetricBucket F)) (seen : List (TradeEvent F)) (t : TradeEvent F)
      → Summary a d (lookup k m) seen
      → Summary a d
          (lookup k (update_bucket a d m t))
          (if str_eq (bucket_key a d t) k then seen ++ t ∷ [] else seen)
  step-Summary k m seen t s =
      rw (lookup-update_bucket k m t) (elim (Bool-cases (str_eq (bucket_key a d t) k)) [
        | inl hit ↦ rw hit (found-Summary (lookup k m) seen t s)
        | inr miss ↦ rw miss s
      ])

  update_buckets-from :
      (k : String) (trades seen : List (TradeEvent F)) (m : Dict (MetricBucket F))
      → Summary a d (lookup k m) seen
      → Summary a d (lookup k (update_buckets a d m trades)) (seen ++ trades_at a d k trades)
  unfolding update_buckets trades_at
  update_buckets-from k [] seen m s = rw append-nil s
  update_buckets-from k (t ∷ ts) seen m s =
      let s' = step-Summary k m seen t s in
      let m' = update_bucket a d m t in
      elim (Bool-cases (str_eq (bucket_key a d t) k)) [
        | inl hit ↦
            let next = update_buckets-from k ts (seen ++ t ∷ []) m' (rw hit at s') in
            rw hit (rw (append_assoc seen (t ∷ []) (trades_at a d k ts)) at next)
        | inr miss ↦ rw miss (update_buckets-from k ts seen m' (rw miss at s'))
      ]

  -- After any sequence of trades from an empty map, the bucket of each key is the candle of exactly
  -- the trades with that key, in order of arrival, and there is no bucket where there are none.
  pub update_buckets-Summary :
      (k : String) (trades : List (TradeEvent F))
      → Summary a d (lookup k (update_buckets a d [] trades)) (trades_at a d k trades)
  unfolding lookup
  update_buckets-Summary k trades = update_buckets-from k trades [] [] tt
