-- ===== src/Stream/Start/Managed.antt =====
-- What the workers hold after the stream component has run for a while.
use pred_sx.Base.{
  ℕ, zero, suc, ◌<◌, ◌≡◌, refl, ap, ◌∙◌, some, List, [], ◌∷◌, String, arith, length, All, subst,
}
use pred_sx.Base.Text.{positive}
use pred_sx.Stream.{StreamWorker}
use pred_sx.Stream.Manager.{TokenMessage}
use pred_sx.Stream.Route.{
  Kept, Kept-refl, Kept-trans, IsAlone, IsAloneAt, Placed, worker_of, work_at-Kept, on_token-Placed,
}
use pred_sx.Stream.Start.{
  new_workers, start_workers, ManagerEvent, not_fetched, fetched, worked, manage,
  start_stream_component,
}

-- The messages that were fetched, in order.
abbrev pub messages_in : List ManagerEvent → List TokenMessage
messages_in [] = []
messages_in (not_fetched ∷ events) = messages_in events
messages_in (fetched m ∷ events) = m ∷ messages_in events
messages_in (worked id work ∷ events) = messages_in events

length-new_workers : (n : ℕ) → length (new_workers n) ≡ n
unfolding new_workers
length-new_workers zero = refl
length-new_workers (suc n) = ap suc (length-new_workers n)

module _ (visit : List String → List String) (sum32 : String → ℕ) where
  -- No write of an event meets another one on its connection.
  abbrev pub IsUndisturbed : ManagerEvent → Type 0
  IsUndisturbed not_fetched = Unit
  IsUndisturbed (fetched m) = IsAloneAt visit m
  IsUndisturbed (worked id work) = IsAlone visit work

  manage-Placed :
      (events : List ManagerEvent) (ws : List StreamWorker)
      → All IsUndisturbed events
      → 0 < length ws
      → (ws' : List StreamWorker) × (manage visit sum32 events ws ≡ some ws')
        × Kept ws ws'
        × All (Placed visit sum32 ws' (length ws)) (messages_in events)
  unfolding manage
  manage-Placed [] ws alone lt = (ws, refl, Kept-refl ws, tt)
  manage-Placed (not_fetched ∷ events) ws alone lt = manage-Placed events ws alone.1 lt
  manage-Placed (fetched m ∷ events) ws alone lt =
      let (ws1, eq1, k1, placed) = on_token-Placed visit sum32 m ws alone.0 lt in
      let (ws2, eq2, k2, all) = manage-Placed events ws1 alone.1 (omega (arith, k1.same_length)) in
      let id = worker_of visit sum32 (length ws) m.event in
      (
        ws2,
        rw (manage, eq1) eq2,
        Kept-trans k1 k2,
        (
          (k2.keeps id m.event.token_yes placed.0, k2.keeps id m.event.token_no placed.1),
          subst (λ k. All (Placed visit sum32 ws2 k) (messages_in events)) k1.same_length all,
        ),
      )
  manage-Placed (worked id work ∷ events) ws alone lt =
      let (ws1, eq1, k1) = work_at-Kept visit id work ws alone.0 in
      let (ws2, eq2, k2, all) = manage-Placed events ws1 alone.1 (omega (arith, k1.same_length)) in
      (
        ws2,
        rw (manage, eq1) eq2,
        Kept-trans k1 k2,
        subst (λ k. All (Placed visit sum32 ws2 k) (messages_in events)) k1.same_length all,
      )

  -- With WS_CONNECTIONS at least 1, whatever `startStreamComponent` fetches, and whatever the
  -- goroutines of its workers do before, after and between the two calls of `AddToken` for a
  -- message: if no write to a connection meets another one, as the PING, which takes no lock, can meet
  -- that of a token, then nothing panics, there are as many workers as connections, and both tokens of each message are
  -- among the tokens of one worker, the one that the hash of the YES token names.
  pub start_stream_component-Placed :
      (n : ℕ) (events : List ManagerEvent)
      → 0 < n
      → All IsUndisturbed events
      → (ws : List StreamWorker) × (start_stream_component visit sum32 (positive n) events
          ≡ some ws)
        × (length ws ≡ n)
        × All (Placed visit sum32 ws n) (messages_in events)
  unfolding start_stream_component start_workers
  start_stream_component-Placed n events lt alone =
      let same = length-new_workers n in
      let (ws, eq, k, all) = manage-Placed events (new_workers n) alone (omega (arith, same)) in
      (
        ws,
        eq,
        k.same_length ∙ same,
        subst (λ m. All (Placed visit sum32 ws m) (messages_in events)) same all,
      )
