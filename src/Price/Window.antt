-- ===== src/Price/Window.antt =====
-- The 24 hour window of a market against the whole history of its trades.
use mathlib.Core.List.{append-nil, append_assoc}
use pred_sx.Base.{
  ℕ, ◌-◌, ◌≤◌, ◌≡◌, refl, sym, ap, ◌∙◌, List, [], ◌∷◌, ◌++◌, String, arith, if◌then◌else◌, str_eq,
  eq_iff, All, All-append, Bool-cases, inl, inr,
}
use pred_sx.Base.Dict.{Dict, lookup, lookup-insert}
use pred_sx.Number.{Arith}
use pred_sx.Event.{TradeEvent, OrderbookUpdate}
use pred_sx.Price.{
  TradePoint, MarketPriceState, day, state_of, add_trade, on_trade, on_orderbook, Event, handle,
  run,
}
use pred_sx.Price.Since.{
  InOrder, IsExact, UpTo, UpTo-mono, evict-since, evict-total, since, since-InOrder, since-append,
  since-since, since-whole, snoc-InOrder, total, total-append,
}

module _ {F : Type 0} where
  -- What a state owes to the trades `seen`: `last` is the time of the last clean-up, and no trade
  -- is later than `latest`.
  record Tracks (seen : List (TradePoint F)) (last latest : ℕ) (s : MarketPriceState F)
      : Type 0 where
    trades : s.trades ≡ since (last - day) seen
    ordered : InOrder seen
    upto : UpTo latest seen
    cleaned : last ≤ latest

  Tracks-later :
      {seen : List (TradePoint F)} {last latest next : ℕ} {s : MarketPriceState F}
      → latest ≤ next
      → Tracks seen last latest s
      → Tracks seen last next s
  Tracks-later {seen} {latest = latest} {next = next} h t = record {
    trades = t.trades;
    ordered = t.ordered;
    upto = UpTo-mono latest next seen h t.upto;
    cleaned = omega arith;
  }

module _ {F : Type 0} (a : Arith F) where
  abbrev point : ℕ → TradeEvent F → TradePoint F
  point now t = record { ts = now; val = a.mul t.price t.size }

  add_trade-Tracks :
      (seen : List (TradePoint F)) (last latest now later : ℕ) (t : TradeEvent F)
      (s : MarketPriceState F)
      → latest ≤ now
      → now ≤ later
      → Tracks seen last latest s
      → Tracks (seen ++ point now t ∷ []) later later (add_trade a now later t s)
  unfolding add_trade
  add_trade-Tracks seen last latest now later t s h k r =
      let c = last - day in
      let p = point now t in
      let o = snoc-InOrder seen p r.ordered (UpTo-mono latest now seen h r.upto) in
      let young : All (λ q. c ≤ q.ts) (p ∷ []) = (omega arith, tt) in
      let e : s.trades ++ p ∷ [] ≡ since c (seen ++ p ∷ []) =
        cc (r.trades, since-append c seen (p ∷ []), since-whole c (p ∷ []) young) in
      record {
        trades = rw e (
            evict-since a (later - day) _ _ (since-InOrder c _ o)
            ∙ since-since c (later - day) (seen ++ p ∷ []) (omega arith));
        ordered = o;
        upto =
            All-append _ seen (p ∷ []) (UpTo-mono latest later seen (omega arith) r.upto) (k, tt);
        cleaned = omega arith;
      }

  add_trade-total :
      IsExact a
      → (now later : ℕ) (t : TradeEvent F) (s : MarketPriceState F)
      → s.volume_24h ≡ total a s.trades
      → (add_trade a now later t s).volume_24h ≡ total a (add_trade a now later t s).trades
  unfolding add_trade
  add_trade-total x now later t s e =
      evict-total a x (later - day) _ (s.trades ++ point now t ∷ [])
        (rw e (sym (total-append a x s.trades (point now t))))

  -- The trades of a market in a history, and the time of the last one's clean-up.
  unfoldable pub history : String → List (Event F) → List (TradePoint F)
  history k [] = []
  history k (Event.trade now later t ∷ es) =
      if str_eq t.market_id k then point now t ∷ history k es else history k es
  history k (Event.orderbook now ob ∷ es) = history k es

  unfoldable pub last_trade : String → ℕ → List (Event F) → ℕ
  last_trade k last [] = last
  last_trade k last (Event.trade now later t ∷ es) =
      last_trade k (if str_eq t.market_id k then later else last) es
  last_trade k last (Event.orderbook now ob ∷ es) = last_trade k last es

-- The clock of the history never goes back.
abbrev pub Clock : {F : Type 0} → ℕ → List (Event F) → Type 0
Clock latest [] = Unit
Clock latest (Event.trade now later t ∷ es) = (latest ≤ now) × (now ≤ later) × Clock later es
Clock latest (Event.orderbook now ob ∷ es) = Clock latest es

module _ {F : Type 0} (a : Arith F) (k : String) where
  abbrev at_market : Dict (MarketPriceState F) → MarketPriceState F
  at_market states = state_of a (lookup k states)

  at_market-trade :
      (now later : ℕ) (t : TradeEvent F) (states : Dict (MarketPriceState F))
      → at_market (handle a (Event.trade now later t) states).0 ≡ (
          if str_eq t.market_id k
          then add_trade a now later t (at_market states)
          else at_market states)
  unfolding handle on_trade
  at_market-trade now later t states =
      let s = add_trade a now later t (state_of a (lookup t.market_id states)) in
      elim (Bool-cases (str_eq t.market_id k)) [
        | inl hit ↦
            rw (lookup-insert t.market_id k s states, hit)
              (ap (λ j. add_trade a now later t (state_of a (lookup j states)))
                ((eq_iff t.market_id k).0 hit))
        | inr miss ↦ rw (lookup-insert t.market_id k s states, miss)
      ]

  -- An order book changes neither the trades nor the volume of any market.
  at_market-orderbook :
      (now : ℕ) (ob : OrderbookUpdate) (states : Dict (MarketPriceState F))
      → ((at_market (handle a (Event.orderbook now ob) states).0).trades
          ≡ (at_market states).trades)
        × ((at_market (handle a (Event.orderbook now ob) states).0).volume_24h
            ≡ (at_market states).volume_24h)
  unfolding handle on_orderbook
  at_market-orderbook now ob states =
      let bid = a.parse ob.best_bid in
      let ask = a.parse ob.best_ask in
      let s = record (at_market' states) { best_bid = bid; best_ask = ask } in
      ground (arith, lookup-insert ob.market_id k s states, eq_iff ob.market_id k)
    where
      at_market' : Dict (MarketPriceState F) → MarketPriceState F
      at_market' states = state_of a (lookup ob.market_id states)

  trade-total :
      IsExact a
      → (now later : ℕ) (t : TradeEvent F) (states : Dict (MarketPriceState F))
      → (at_market states).volume_24h ≡ total a (at_market states).trades
      → (at_market (handle a (Event.trade now later t) states).0).volume_24h
        ≡ total a (at_market (handle a (Event.trade now later t) states).0).trades
  trade-total x now later t states e =
      let step = at_market-trade now later t states in
      elim (Bool-cases (str_eq t.market_id k)) [
        | inl hit ↦ rw (step, hit) (add_trade-total a x now later t (at_market states) e)
        | inr miss ↦ rw (step, miss) e
      ]

  run-trades :
      (es : List (Event F)) (seen : List (TradePoint F)) (last latest : ℕ)
      (states : Dict (MarketPriceState F))
      → Clock latest es
      → Tracks seen last latest (at_market states)
      → (at_market (run a es states).0).trades
        ≡ since (last_trade a k last es - day) (seen ++ history a k es)
  unfolding run history last_trade
  run-trades [] seen last latest states c t = rw append-nil t.trades
  run-trades (Event.trade now later t ∷ es) seen last latest states c r =
      elim (Bool-cases (str_eq t.market_id k)) [
        | inl hit ↦
            let r' = add_trade-Tracks a seen last latest now later t (at_market states) c.0 c.1 r in
            let e = at_market-trade now later t states in
            let next =
              run-trades es (seen ++ point a now t ∷ []) later later
                (handle a (Event.trade now later t) states).0 c.2 (rw (e, hit) r') in
            rw hit (rw (append_assoc seen (point a now t ∷ []) (history a k es)) at next)
        | inr miss ↦
            let e = at_market-trade now later t states in
            rw miss (
              run-trades es seen last later (handle a (Event.trade now later t) states).0 c.2
                (rw (e, miss) (Tracks-later {latest = latest} (omega arith) r)))
      ]
  run-trades (Event.orderbook now ob ∷ es) seen last latest states c t =
      let kept = at_market-orderbook now ob states in
      run-trades es seen last latest (handle a (Event.orderbook now ob) states).0 c (record {
        trades = kept.0 ∙ t.trades;
        ordered = t.ordered;
        upto = t.upto;
        cleaned = t.cleaned;
      })

  run-total :
      IsExact a
      → (es : List (Event F)) (states : Dict (MarketPriceState F))
      → (at_market states).volume_24h ≡ total a (at_market states).trades
      → (at_market (run a es states).0).volume_24h ≡ total a (at_market (run a es states).0).trades
  unfolding run
  run-total x [] states e = e
  run-total x (Event.trade now later t ∷ es) states e =
      run-total x es (handle a (Event.trade now later t) states).0
        (trade-total x now later t states e)
  run-total x (Event.orderbook now ob ∷ es) states e =
      let kept = at_market-orderbook now ob states in
      run-total x es (handle a (Event.orderbook now ob) states).0 (rw (kept.0, kept.1) e)

  -- After any history of trades and order books in which the clock never goes back, the trades that
  -- a market's state keeps are exactly the trades of that market that were not older than 24 hours
  -- when its last trade was handled, in order; order books do not touch them.
  pub run-since :
      (es : List (Event F))
      → Clock 0 es
      → (at_market (run a es []).0).trades ≡ since (last_trade a k 0 es - day) (history a k es)
  unfolding lookup since
  run-since es c = run-trades es [] 0 0 [] c start
    where
      start : Tracks [] 0 0 (at_market [])
      start = record { trades = refl; ordered = tt; upto = tt; cleaned = omega arith }

  -- If arithmetic does not round, the 24 hour volume of a market is at all times the sum of the
  -- notionals of the trades that its state keeps.
  pub volume-total :
      IsExact a
      → (es : List (Event F))
      → (at_market (run a es []).0).volume_24h ≡ total a (at_market (run a es []).0).trades
  unfolding total lookup
  volume-total x es = run-total x es [] refl
