-- ===== src/Hub/Valid.antt =====
-- The invariant of the hub, and what its lists and its heap satisfy.
use pred_sx.Base.{
  ℕ, ◌≤◌, ◌<◌, ◌≡◌, refl, true, false, not, ◌&&◌, some, List, [], ◌∷◌, String, arith, inl, inr,
  Bool-cases, ◌==◌, length,
}
use pred_sx.Hub.{
  Hub, new_hub, send_capacity, member, remove, update, unregister, subscribe, serve_ws, receive,
  on_message, ClientMsg,
}

-- Every registered client has an open channel and lies below the next free address; no buffer
-- holds more than its capacity.
pub record IsValid (h : Hub) : Type 0 where
  pub live : (c : ℕ) → member c h.clients ≡ true → (h.heap c).closed ≡ false
  pub bounded : (c : ℕ) → length (h.heap c).send ≤ send_capacity
  pub below : (c : ℕ) → member c h.clients ≡ true → c < h.next

pub member-remove : (c d : ℕ) (ds : List ℕ) → member d (remove c ds) ≡ (member d ds && not (c == d))
unfolding member remove
member-remove c d [] = refl
member-remove c d (e ∷ ds) = ground (arith, member-remove c d ds)

pub new_hub-IsValid : IsValid new_hub
unfolding member
new_hub-IsValid = record {
  live = λ c h. ground arith;
  bounded = λ c. omega arith;
  below = λ c h. ground arith;
}

module _ (h : Hub) (v : IsValid h) where
  pub serve_ws-IsValid : IsValid (serve_ws h)
  unfolding serve_ws member
  serve_ws-IsValid = record {
    live = λ d m. ground (arith, v.live d, v.below d, v.below h.next);
    bounded = λ d. ground (arith, v.bounded d);
    below = λ d m. ground (arith, v.below d);
  }

  -- A client that is not registered, as one that was dropped, is left alone.
  pub unregister-IsValid : (c : ℕ) → (h' : Hub) × (unregister c h ≡ some h') × IsValid h'
  unfolding unregister
  unregister-IsValid c = elim (Bool-cases (member c h.clients)) [
    | inl registered ↦ (
      record h {
        clients = remove c h.clients;
        heap = update h.heap c (record (h.heap c) { closed = true });
      },
      rw registered (ground (arith, v.live c)),
      record {
        live = λ d m. ground (arith, v.live d, member-remove c d h.clients);
        bounded = λ d. ground (arith, v.bounded d, v.bounded c);
        below = λ d m. ground (arith, v.below d, member-remove c d h.clients);
      },
    )
    | inr other ↦ (h, rw other, v)
  ]

  pub subscribe-IsValid : (c : ℕ) (markets : List String) → IsValid (subscribe c markets h)
  unfolding subscribe
  subscribe-IsValid c markets = record {
    live = λ d m. ground (arith, v.live d);
    bounded = λ d. ground (arith, v.bounded d);
    below = λ d m. ground (arith, v.below d);
  }

  pub receive-IsValid : (c : ℕ) → IsValid (receive c h)
  unfolding receive
  receive-IsValid c = record {
    live = λ d m. ground (arith, v.live d);
    bounded = λ d. ground (arith, v.bounded d);
    below = λ d m. ground (arith, v.below d);
  }

  pub on_message-IsValid : (c : ℕ) (cm : ClientMsg) → IsValid (on_message c cm h)
  unfolding on_message
  on_message-IsValid c cm = record {
    live = λ d m. ground (arith, v.live d);
    bounded = λ d. ground (arith, v.bounded d);
    below = λ d m. ground (arith, v.below d);
  }
