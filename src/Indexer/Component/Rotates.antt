-- ===== src/Indexer/Component/Rotates.antt =====
-- The indexer leaves an endpoint that failed alone for a while.
use pred_sx.Base.{
  ℕ, ◌+◌, ◌≤◌, ◌≡◌, ◌≢◌, ◌⊎◌, refl, sym, ap, ◌∙◌, true, false, inl, inr, some, List, String, arith,
  ltb, length,
}
use pred_sx.Base.Dict.{lookup-insert_self}
use pred_sx.Event.{OnChainTradeEvent}
use pred_sx.Rotator.{RpcRotator, is_available, pick, bench}
use pred_sx.Rotator.Pick.{IsPool, Benched, pick-Picked, Picked-IsPool, Picked-available}
use pred_sx.Indexer.Component.{Attempt, cycle, cooldown, published, round}

bench-IsPool :
    (now : ℕ) (url : String) (time : ℕ) (r : RpcRotator) → IsPool r → IsPool (bench now url time r)
unfolding bench
bench-IsPool now url time r p = record { within = p.within }

bench-unavailable :
    (now time t : ℕ) (url : String) (r : RpcRotator)
    → t ≤ now + time
    → is_available t (bench now url time r).benched url ≡ false
unfolding bench is_available
bench-unavailable now time t url r early =
    let late : ltb (now + time) t ≡ false = ground arith in
    rw (is_available, lookup-insert_self url (now + time) r.benched) late

apart : true ≢ false
apart e = ground arith

module _ (hash_hex address_hex : ℕ → String) (sig : ℕ) where
  -- A round of a pool that is not empty, whose cycle ends with an error, comes to its end; and for
  -- the two minutes after it the next endpoint is another one, unless every endpoint is benched.
  pub round-Rotates :
      (now later t : ℕ) (attempt : Attempt) (r : RpcRotator)
      → IsPool r
      → (cycle attempt).1 ≡ true
      → t ≤ later + 120_000_000_000
      → (url next : String) × (events : List OnChainTradeEvent) × (r' r'' : RpcRotator) × (round
            hash_hex address_hex sig now later attempt r
          ≡ some (url, events, r'))
        × (pick t r' ≡ some (next, r''))
        × ((next ≢ url) ⊎ Benched t (length r'.urls) r')
  unfolding round
  round-Rotates now later t attempt r p failed early =
      let (url, r1, first, picked) = pick-Picked now r p in
      let p' = bench-IsPool later url cooldown r1 (Picked-IsPool now r r1 url p picked) in
      let r' = bench later url cooldown r1 in
      let (next, r'', second, picked') = pick-Picked t r' p' in
      (
        url,
        next,
        published hash_hex address_hex sig later (cycle attempt).0,
        r',
        r'',
        rw (round, first, failed) refl,
        second,
        elim (Picked-available t r' r'' next picked') [
          | inl free ↦ inl (λ same. apart (
              sym free
              ∙ ap (λ u. is_available t r'.benched u) same
              ∙ bench-unavailable later cooldown t url r1 early))
          | inr all ↦ inr all
        ],
      )
