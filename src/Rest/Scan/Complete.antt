-- ===== src/Rest/Scan/Complete.antt =====
-- A scan of Redis that comes to its end is read to its end.
use text.Mathlib.TextLemmas.{append_assoc}
use pred_sx.Base.{
  ℕ, zero, suc, ◌<◌, ◌≡◌, ◌≢◌, ◌⊎◌, refl, sym, ap, ◌∙◌, subst, if◌then◌else◌, Bool, true, false,
  inl, inr, Option, none, some, List, [], ◌∷◌, ◌++◌, String, arith, ◌==◌, Bool-cases, Option-cases,
  append_text, is_empty, ◌&&◌,
}
use pred_sx.Number.{Arith}
use pred_sx.Json.{Json, Members}
use pred_sx.Rest.Backend.{Backend}
use pred_sx.Rest.Held.{held, object_of, get_object-held}
use pred_sx.Rest.Market.{get_object}
use pred_sx.Rest.Reply.{of_map}
use pred_sx.Rest.Scan.{
  read_keys, scan_loop, signal_pattern, read_signal, collect_signals, read_market,
  get_debug_markets,
}

-- The pattern of the keys of the latest signals: a market or a type that is not given is a star,
-- and one star stands for both.
abbrev star : String → String
star name = if is_empty name then "*" else name

abbrev pub latest : String → String → String
latest market_id signal_type = append_text "signal:latest:" (
    if is_empty market_id && is_empty signal_type
    then "*"
    else append_text (star market_id) (append_text ":" (star signal_type)))

signal_pattern-latest :
    (market_id signal_type : String)
    → signal_pattern market_id signal_type ≡ latest market_id signal_type
signal_pattern-latest market_id signal_type = elim (Bool-cases (is_empty market_id)) [
  | inl no_market ↦ elim (Bool-cases (is_empty signal_type)) [
    | inl no_type ↦ rw (no_market, no_type) refl
    | inr typed ↦
        rw (no_market, typed)
          (append_assoc "signal:latest:" "*:" signal_type
            ∙ ap (append_text "signal:latest:") (append_assoc "*" ":" signal_type))
  ]
  | inr market ↦ elim (Bool-cases (is_empty signal_type)) [
    | inl no_type ↦ rw (market, no_type) refl
    | inr typed ↦ rw (market, typed) refl
  ]
]

module _ {F : Type 0} (a : Arith F) (b : Backend F) where
  signal-object :
      (o : Option (Option (Members F))) (v : Option (Json F))
      → object_of a b o ≡ v
      → (elim o [ none ↦ none | some ms ↦ some (of_map ms) ]) ≡ v
  signal-object none v e = e
  signal-object (some none) v e = e
  signal-object (some (some ms)) v e = e

  read_keys-append :
      (read : String → Option (Json F)) (xs ys : List String)
      → read_keys a b read (xs ++ ys) ≡ read_keys a b read xs ++ read_keys a b read ys
  unfolding read_keys
  read_keys-append read [] ys = refl
  read_keys-append read (key ∷ xs) ys = elim (Option-cases (read key)) [
    | inl nothing ↦ rw (read_keys, nothing) (read_keys-append read xs ys)
    | inr (v, found) ↦ rw (read_keys, found) (ap (λ vs. v ∷ vs) (read_keys-append read xs ys))
  ]

  -- The keys that Redis gives from a cursor on: up to the cursor 0, or up to an error.
  pub data Visits (pattern : String) (count : ℕ) : ℕ → Bool → List String → Type 0 where
    broken : {cursor : ℕ} → b.scan pattern count cursor ≡ none → Visits pattern count cursor true []
    last :
        {cursor : ℕ} {keys : List String}
        → b.scan pattern count cursor ≡ some (keys, 0)
        → Visits pattern count cursor false keys
    more :
        {cursor next : ℕ} {failed : Bool} {keys rest : List String}
        → b.scan pattern count cursor ≡ some (keys, next)
        → next ≢ 0
        → Visits pattern count next failed rest
        → Visits pattern count cursor failed (keys ++ rest)

  -- A scan comes to its end: some measure of the cursor falls until the cursor is 0 again.
  abbrev pub Ends : String → ℕ → (ℕ → ℕ) → Type 0
  Ends pattern count rank =
      (cursor next : ℕ) (keys : List String)
      → b.scan pattern count cursor ≡ some (keys, next)
      → (next ≡ 0) ⊎ (rank next < rank cursor)

  scan_loop-Visits :
      (read : String → Option (Json F)) (pattern : String) (count fuel cursor : ℕ) (rank : ℕ → ℕ)
      → Ends pattern count rank
      → rank cursor < fuel
      → (failed : Bool) × (keys : List String) × Visits pattern count cursor failed keys
        × (scan_loop a b read pattern count fuel cursor ≡ some (failed, read_keys a b read keys))
  unfolding scan_loop read_keys
  scan_loop-Visits read pattern count zero cursor rank ends enough = elim enough [ ]
  scan_loop-Visits read pattern count (suc fuel) cursor rank ends enough =
      elim (Option-cases (b.scan pattern count cursor)) [
        | inl failed ↦ (true, [], broken failed, rw (scan_loop, failed) refl)
        | inr ((keys, next), found) ↦ elim (Bool-cases (next == 0)) [
          | inl over ↦
              let zero_next : next ≡ 0 = ground arith in
              (
                false,
                keys,
                last (subst (λ n. b.scan pattern count cursor ≡ some (keys, n)) zero_next found),
                rw (scan_loop, found, over) refl,
              )
          | inr goes_on ↦
              let apart : next ≢ 0 = ground arith in
              let fall = ends cursor next keys found in
              let lower : rank next < fuel = ground arith in
              let (failed, rest, visits, read_rest) =
                scan_loop-Visits read pattern count fuel next rank ends lower in
              (
                failed,
                keys ++ rest,
                more found apart visits,
                rw (scan_loop, found, goes_on, read_rest)
                    (ap (λ vs. some (failed, vs)) (sym (read_keys-append read keys rest))),
              )
        ]
      ]

  -- The objects that Redis holds under some keys, in order.
  abbrev pub signals_under : List String → List (Json F)
  signals_under [] = []
  signals_under (key ∷ keys) =
      let rest = signals_under keys in elim (held a b key) [ none ↦ rest | some v ↦ v ∷ rest ]

  read_signal-held : (key : String) → read_signal a b key ≡ held a b key
  unfolding read_signal
  read_signal-held key = signal-object (get_object a b key) _ (get_object-held a b key)

  signals-under : (keys : List String) → read_keys a b (read_signal a b) keys ≡ signals_under keys
  unfolding read_keys
  signals-under [] = refl
  signals-under (key ∷ keys) = elim (Option-cases (held a b key)) [
    | inl nothing ↦
        rw (read_keys, signals_under, read_signal-held key, nothing) (signals-under keys)
    | inr (v, found) ↦
        rw (read_keys, signals_under, read_signal-held key, found)
          (ap (λ vs. v ∷ vs) (signals-under keys))
  ]

  -- If the scan of Redis for the keys of the signals comes to its end, `collectSignals` returns, and
  -- what it returns are the objects that Redis holds under all the keys that it gave, for the pattern
  -- of the latest signals of the market and the type, until the cursor was 0 again or an error came,
  -- in their order, without the keys under which it holds none.
  pub collect_signals-Visits :
      (fuel : ℕ) (market_id signal_type : String) (rank : ℕ → ℕ)
      → Ends (latest market_id signal_type) 200 rank
      → rank 0 < fuel
      → (failed : Bool) × (keys : List String) × Visits
          (latest market_id signal_type)
          200
          0
          failed
          keys
        × (collect_signals a b fuel market_id signal_type ≡ some (signals_under keys))
  unfolding collect_signals
  collect_signals-Visits fuel market_id signal_type rank ends enough =
      let (failed, keys, visits, whole) =
        scan_loop-Visits (read_signal a b) (latest market_id signal_type) 200 fuel 0 rank ends
          enough in
      let at =
        subst
          (λ p.
            scan_loop a b (read_signal a b) p 200 fuel 0
            ≡ some (failed, read_keys a b (read_signal a b) keys))
          (sym (signal_pattern-latest market_id signal_type)) whole in
      (failed, keys, visits, rw (collect_signals, at) (ap some (signals-under keys)))

  -- If the scan of Redis for the markets comes to its end, `GetDebugMarkets` answers: with the
  -- markets of all the keys that Redis gave, in their order, or with an error where Redis had one.
  pub get_debug_markets-Visits :
      (fuel : ℕ) (rank : ℕ → ℕ)
      → Ends "market:*:tokens" 100 rank
      → rank 0 < fuel
      → (failed : Bool) × (keys : List String) × Visits "market:*:tokens" 100 0 failed keys
        × (get_debug_markets a b fuel
            ≡ some (if failed then none else some (read_keys a b (read_market a b) keys)))
  unfolding get_debug_markets
  get_debug_markets-Visits fuel rank ends enough =
      let (failed, keys, visits, whole) =
        scan_loop-Visits (read_market a b) "market:*:tokens" 100 fuel 0 rank ends enough in
      (failed, keys, visits, rw (get_debug_markets, whole) refl)
