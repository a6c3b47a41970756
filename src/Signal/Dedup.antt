-- ===== src/Signal/Dedup.antt =====
-- When the trade engine processes a trade.
use pred_sx.Base.{
  ℕ, ◌+◌, ◌*◌, ◌≡◌, refl, ap, ◌∙◌, Bool, true, ◌&&◌, List, [], ◌∷◌, String, arith, if◌then◌else◌,
  leb, str_eq, eq_iff, append_text,
}
use pred_sx.Event.{TradeEvent}
use pred_sx.Signal.{process_trades, dedup_key}

module _ {R : Type 0} (set_nx : ℕ → String → ℕ → R → Bool × R) (until : String → R → ℕ) where
  -- `SetNX` of a Redis that answers. A key is there before the time `until`, which is 0 for one that
  -- was never set. `SetNX` sets a key that is not there, up to its expiration, and says whether it did.
  pub record IsSetNx : Type 0 where
    pub answer : (now time : ℕ) (k : String) (r : R) → (set_nx now k time r).0 ≡ leb (until k r) now
    pub state :
        (now time : ℕ) (j k : String) (r : R)
        → until j (set_nx now k time r).1
          ≡ (if str_eq k j && leb (until k r) now then now + time else until j r)

module _ {F : Type 0} where
  -- The times of the trades whose key is `k`.
  abbrev pub times : String → List (ℕ × TradeEvent F) → List ℕ
  times k [] = []
  times k ((now, t) ∷ ts) =
      let rest = times k ts in
      if str_eq (append_text "trade:dedup:" t.trade_id) k then now ∷ rest else rest

-- Of some times, the first that is not before the time `from`, then the first after it that is not
-- before a day later, and so on.
abbrev pub daily : ℕ → List ℕ → List ℕ
daily from [] = []
daily from (now ∷ later) =
    let kept = daily from later in
    let next = daily (now + 24 * 60 * 60 * 1_000_000_000) later in
    if leb from now then now ∷ next else kept

module _ {F R : Type 0} (set_nx : ℕ → String → ℕ → R → Bool × R) (until : String → R → ℕ) where
  -- For a Redis that answers and does what `SetNX` says, and each key of a trade: of the trades
  -- fetched with this key, the engine processes the first one that comes once the key that Redis had
  -- at the start is over, then the first one that comes 24 hours after that or later, and so on, and
  -- no other.
  pub times-process_trades :
      (k : String) (ts : List (ℕ × TradeEvent F)) (r : R)
      → IsSetNx set_nx until
      → times k (process_trades set_nx ts r) ≡ daily (until k r) (times k ts)
  unfolding process_trades dedup_key
  times-process_trades k [] r law = refl
  times-process_trades k ((now, t) ∷ ts) r law =
      let key = dedup_key t.trade_id in
      let time : ℕ = 86_400_000_000_000 in
      let later = times-process_trades k ts (set_nx now key time r).1 law in
      let from = ap (λ n. daily n (times k ts)) (law.state now time k key r) in
      let same : str_eq key k ≡ true → until key r ≡ until k r =
        λ e. ap (λ j. until j r) ((eq_iff key k).0 e) in
      ground (arith, later ∙ from, law.answer now time key r, same)
