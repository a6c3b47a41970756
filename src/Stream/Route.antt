-- ===== src/Stream/Route.antt =====
-- Which worker gets a market's tokens.
use native.Mathlib.Nat.{mod-lt}
use pred_sx.Base.{
  ℕ, zero, suc, ◌%◌, ◌<◌, ◌≡◌, refl, ap, ◌∙◌, Bool, true, false, inl, inr, Option, none, some, List,
  [], ◌∷◌, String, arith, if◌then◌else◌, str_eq_refl, Bool-cases, Option-cases, length, get_elem?,
  All,
}
use pred_sx.Event.{TokenExtracted}
use pred_sx.Stream.{
  Connection, StreamWorker, has_token, announce, send_initial, send_initial_to, add_token,
  set_client, clear_subscribed, write_ping, get_worker_id,
}
use pred_sx.Stream.Manager.{
  Write, guarded, add_token_to, add_at, Work, connecting, clearing, subscribing, pinging, work_of,
  work_at, work_all, TokenMessage, on_token,
}

-- The worker has the token.
abbrev pub HasToken : List StreamWorker → ℕ → String → Type 0
HasToken ws id token =
    (w : StreamWorker) × (get_elem? ws id ≡ some w) × (has_token token w.tokens ≡ true)

-- No worker has lost a token.
pub record Kept (ws ws' : List StreamWorker) : Type 0 where
  pub same_length : length ws' ≡ length ws
  pub keeps : (j : ℕ) (other : String) → HasToken ws j other → HasToken ws' j other

pub Kept-refl : (ws : List StreamWorker) → Kept ws ws
Kept-refl ws = record { same_length = refl; keeps = λ j other h. h }

pub Kept-trans : {ws ws1 ws2 : List StreamWorker} → Kept ws ws1 → Kept ws1 ws2 → Kept ws ws2
Kept-trans k k' = record {
  same_length = k'.same_length ∙ k.same_length;
  keeps = λ j other h. k'.keeps j other (k.keeps j other h);
}

Kept-first :
    (w w' : StreamWorker) (ws : List StreamWorker)
    → ((other : String) → has_token other w.tokens ≡ true → has_token other w'.tokens ≡ true)
    → Kept (w ∷ ws) (w' ∷ ws)
Kept-first w w' ws keeps = record { same_length = refl; keeps = go }
  where
    go : (j : ℕ) (other : String) → HasToken (w ∷ ws) j other → HasToken (w' ∷ ws) j other
    go zero other (v, at, h) =
        let same = ap (λ o. elim o [ none ↦ true | some u ↦ has_token other u.tokens ]) at in
        (w', refl, keeps other (same ∙ h))
    go (suc j) other h = h

Kept-later : (w : StreamWorker) {ws ws' : List StreamWorker} → Kept ws ws' → Kept (w ∷ ws) (w ∷ ws')
Kept-later w {ws} {ws'} k = record { same_length = ap suc k.same_length; keeps = go }
  where
    go : (j : ℕ) (other : String) → HasToken (w ∷ ws) j other → HasToken (w ∷ ws') j other
    go zero other h = h
    go (suc j) other h = k.keeps j other h

module _ (visit : List String → List String) where
  send_initial-tokens :
      (ok : Bool) (tokens : List String) (client : Option Connection) (subscribed : Bool)
      → (send_initial visit ok
          (record { tokens = tokens; client = client; subscribed = subscribed })).tokens
        ≡ tokens
  unfolding send_initial send_initial_to
  send_initial-tokens ok tokens none subscribed = refl
  send_initial-tokens ok [] (some c) subscribed = refl
  send_initial-tokens ok (t ∷ ts) (some c) subscribed = refl

  announce-tokens :
      (token : String) (ok : Bool) (client : Option Connection) (w : StreamWorker)
      → (announce visit token ok client w).tokens ≡ w.tokens
  unfolding announce
  announce-tokens token ok none w = refl
  announce-tokens token ok (some c) w = elim (Bool-cases w.subscribed) [
    | inl old ↦ rw old refl
    | inr new ↦ rw new (send_initial-tokens ok w.tokens w.client false)
  ]

  add_token-tokens :
      (token : String) (ok : Bool) (w : StreamWorker)
      → (add_token visit token ok w).tokens
        ≡ (if has_token token w.tokens then w.tokens else token ∷ w.tokens)
  unfolding add_token
  add_token-tokens token ok w = elim (Bool-cases (has_token token w.tokens)) [
    | inl known ↦ rw known refl
    | inr new ↦ rw new (announce-tokens token ok w.client (record w { tokens = token ∷ w.tokens }))
  ]

  add_token-has :
      (token : String) (ok : Bool) (w : StreamWorker)
      → has_token token (add_token visit token ok w).tokens ≡ true
  unfolding has_token
  add_token-has token ok w = ground (arith, add_token-tokens token ok w, str_eq_refl token)

  add_token-keeps :
      (token : String) (ok : Bool) (other : String) (w : StreamWorker)
      → has_token other w.tokens ≡ true
      → has_token other (add_token visit token ok w).tokens ≡ true
  unfolding has_token
  add_token-keeps token ok other w h = ground (arith, add_token-tokens token ok w)

  guarded-some :
      (is_written : Bool) (write : Write) (w : StreamWorker)
      → write.collides ≡ false
      → guarded is_written write w ≡ some w
  unfolding guarded
  guarded-some is_written write w alone = ground (arith, alone)

  add_at-Kept :
      (token : String) (write : Write) (id : ℕ) (ws : List StreamWorker)
      → write.collides ≡ false
      → id < length ws
      → (ws' : List StreamWorker) × (add_at visit token write id ws ≡ some ws')
        × Kept ws ws'
        × HasToken ws' id token
  unfolding add_at add_token_to
  add_at-Kept token write id [] alone lt = elim lt [ ]
  add_at-Kept token write zero (w ∷ ws) alone lt =
      let w' = add_token visit token write.ok w in
      let eq : add_token_to visit token write w ≡ some w' = guarded-some _ write w' alone in
      (
        w' ∷ ws,
        rw (add_at, eq) refl,
        Kept-first w w' ws (λ other h. add_token-keeps token write.ok other w h),
        (w', refl, add_token-has token write.ok w),
      )
  add_at-Kept token write (suc id) (w ∷ ws) alone lt =
      let (ws', eq, k, has) = add_at-Kept token write id ws alone (omega arith) in
      (w ∷ ws', rw (add_at, eq) refl, Kept-later w k, has)

  -- The write of some work, if it has one, meets no other.
  abbrev pub IsAlone : Work → Type 0
  IsAlone (subscribing write) = write.collides ≡ false
  IsAlone (pinging write) = write.collides ≡ false
  IsAlone _ = Unit

  work_of-tokens :
      (work : Work) (w : StreamWorker)
      → IsAlone work
      → (w' : StreamWorker) × (work_of visit work w ≡ some w') × (w'.tokens ≡ w.tokens)
  unfolding work_of set_client clear_subscribed write_ping
  work_of-tokens connecting w alone = (set_client w, refl, refl)
  work_of-tokens clearing w alone = (clear_subscribed w, refl, refl)
  work_of-tokens (subscribing write) w alone = (
    send_initial visit write.ok w,
    guarded-some _ write _ alone,
    send_initial-tokens write.ok w.tokens w.client w.subscribed,
  )
  work_of-tokens (pinging write) w alone = (
    write_ping write.ok w,
    guarded-some _ write _ alone,
    elim (Option-cases w.client) [
      | inl away ↦ rw (write_ping, away) refl
      | inr (c, is) ↦ rw (write_ping, is) refl
    ],
  )

  pub work_at-Kept :
      (id : ℕ) (work : Work) (ws : List StreamWorker)
      → IsAlone work
      → (ws' : List StreamWorker) × (work_at visit id work ws ≡ some ws') × Kept ws ws'
  unfolding work_at
  work_at-Kept id work [] alone = ([], refl, Kept-refl [])
  work_at-Kept zero work (w ∷ ws) alone =
      let (w', eq, same) = work_of-tokens work w alone in
      (
        w' ∷ ws,
        rw (work_at, eq) refl,
        Kept-first w w' ws (λ other h. ap (λ ts. has_token other ts) same ∙ h),
      )
  work_at-Kept (suc id) work (w ∷ ws) alone =
      let (ws', eq, k) = work_at-Kept id work ws alone in
      (w ∷ ws', rw (work_at, eq) refl, Kept-later w k)

  abbrev pub AreAlone : List (ℕ × Work) → Type 0
  AreAlone works = All (λ v. IsAlone v.1) works

  work_all-Kept :
      (works : List (ℕ × Work)) (ws : List StreamWorker)
      → AreAlone works
      → (ws' : List StreamWorker) × (work_all visit works ws ≡ some ws') × Kept ws ws'
  unfolding work_all
  work_all-Kept [] ws alone = (ws, refl, Kept-refl ws)
  work_all-Kept ((id, work) ∷ works) ws alone =
      let (ws1, eq1, k1) = work_at-Kept id work ws alone.0 in
      let (ws2, eq2, k2) = work_all-Kept works ws1 alone.1 in
      (ws2, rw (work_all, eq1) eq2, Kept-trans k1 k2)

  -- No write for a message, or between its tokens, meets another one.
  abbrev pub IsAloneAt : TokenMessage → Type 0
  IsAloneAt m = (m.first.collides ≡ false) × (m.second.collides ≡ false) × AreAlone m.between

  module _ (sum32 : String → ℕ) where
    -- `getWorkerID` where there are workers.
    abbrev pub worker_of : ℕ → TokenExtracted → ℕ
    worker_of n e = sum32 e.token_yes % n

    -- One of the workers has both tokens.
    abbrev pub Placed : List StreamWorker → ℕ → TokenMessage → Type 0
    Placed ws n m =
        HasToken ws (worker_of n m.event) m.event.token_yes
        × HasToken ws (worker_of n m.event) m.event.token_no

    get_worker_id-some :
        (n : ℕ) (key : String)
        → 0 < n
        → (get_worker_id sum32 n key ≡ some (sum32 key % n)) × (sum32 key % n < n)
    unfolding get_worker_id
    get_worker_id-some zero key h = elim h [ ]
    get_worker_id-some (suc n) key h = (refl, mod-lt (sum32 key) h)

    -- What the manager did with a message.
    pub on_token-Placed :
        (m : TokenMessage) (ws : List StreamWorker)
        → IsAloneAt m
        → 0 < length ws
        → (ws' : List StreamWorker) × (on_token visit sum32 m ws ≡ some ws')
          × Kept ws ws'
          × Placed ws' (length ws) m
    unfolding on_token
    on_token-Placed m ws (alone, alone', between) lt =
        let id = worker_of (length ws) m.event in
        let (at, within) = get_worker_id-some (length ws) m.event.token_yes lt in
        let (ws1, eq1, k1, has_yes) = add_at-Kept m.event.token_yes m.first id ws alone within in
        let (ws2, eq2, k2) = work_all-Kept m.between ws1 between in
        let (ws3, eq3, k3, has_no) =
          add_at-Kept m.event.token_no m.second id ws2 alone'
            (omega (arith, k1.same_length, k2.same_length, within)) in
        (
          ws3,
          rw (on_token, at) (rw eq1 (rw eq2 eq3)),
          Kept-trans (Kept-trans k1 k2) k3,
          (k3.keeps id m.event.token_yes (k2.keeps id m.event.token_yes has_yes), has_no),
        )
