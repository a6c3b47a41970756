-- ===== src/Hub/Deliver.antt =====
-- What a broadcast does to every client, whatever the order in which the map is visited.
use pred_sx.Base.{
  ℕ, ◌≡◌, refl, Bool, true, false, not, ◌&&◌, some, List, [], ◌∷◌, ◌++◌, arith, ltb, if◌then◌else◌,
  length, length-append, All,
}
use pred_sx.Hub.{
  Hub, Client, BroadcastMsg, send_capacity, member, remove, update, skips, deliver, broadcast,
}
use pred_sx.Hub.Valid.{IsValid, member-remove}

-- The client's side of one delivery: filtered, queued behind what waits, or cut off.
unfoldable pub offer : BroadcastMsg → Client → Client
offer msg c =
    if skips msg c
    then c
    else if ltb (length c.send) send_capacity
    then record c { send = c.send ++ msg.payload ∷ [] }
    else record c { closed = true }

-- The client is dropped: the message is for it and its buffer is full.
unfoldable pub drops : BroadcastMsg → Client → Bool
drops msg c = not (skips msg c) && not (ltb (length c.send) send_capacity)

-- The clients `order` are each offered the message, and nobody else changes.
pub record Delivered (msg : BroadcastMsg) (order : List ℕ) (h h' : Hub) : Type 0 where
  pub heap : (c : ℕ) → h'.heap c ≡ (if member c order then offer msg (h.heap c) else h.heap c)
  pub clients :
      (c : ℕ)
      → member c h'.clients ≡ (member c h.clients && not (member c order && drops msg (h.heap c)))
  pub next : h'.next ≡ h.next

abbrev pub IsDistinct : List ℕ → Type 0
IsDistinct [] = Unit
IsDistinct (c ∷ cs) = (member c cs ≡ false) × IsDistinct cs

-- A visit of the map `clients`: every key once.
pub record IsVisit (clients order : List ℕ) : Type 0 where
  pub same : (c : ℕ) → member c order ≡ member c clients
  pub distinct : IsDistinct order

after : BroadcastMsg → ℕ → Hub → Hub
after msg c h = record h {
  clients = if drops msg (h.heap c) then remove c h.clients else h.clients;
  heap = if skips msg (h.heap c) then h.heap else update h.heap c (offer msg (h.heap c));
}

module _ (msg : BroadcastMsg) (c : ℕ) (h : Hub) where
  deliver-after : (h.heap c).closed ≡ false → deliver msg c h ≡ some (after msg c h)
  unfolding deliver after offer drops
  deliver-after live = ground arith

  after-Delivered : Delivered msg (c ∷ []) h (after msg c h)
  unfolding after offer drops member update
  after-Delivered = record {
    heap = λ d. ground arith;
    clients = λ d. ground (arith, member-remove c d h.clients);
    next = refl;
  }

  after-IsValid : IsValid h → IsValid (after msg c h)
  unfolding after offer drops update
  after-IsValid v = record {
    live = λ d m. ground (arith, v.live d, member-remove c d h.clients);
    bounded = λ d. ground (arith, v.bounded d, length-append (h.heap c).send (msg.payload ∷ []));
    below = λ d m. ground (arith, v.below d, member-remove c d h.clients);
  }

-- One client, then the others: the offers compose because no client is visited twice.
Delivered-cons :
    (msg : BroadcastMsg) (c : ℕ) (order : List ℕ) (h h' h'' : Hub)
    → member c order ≡ false
    → Delivered msg (c ∷ []) h h'
    → Delivered msg order h' h''
    → Delivered msg (c ∷ order) h h''
unfolding member
Delivered-cons msg c order h h' h'' new one rest = record {
  heap = λ d. ground (arith, one.heap d, rest.heap d);
  clients = λ d. ground (arith, one.heap d, one.clients d, rest.clients d);
  next = ground arith;
}

Delivered-nil : (msg : BroadcastMsg) (h : Hub) → Delivered msg [] h h
unfolding member
Delivered-nil msg h = record { heap = λ c. refl; clients = λ c. ground arith; next = refl }

-- A delivery to `c` leaves the others registered.
Delivered-registered :
    (msg : BroadcastMsg) (c : ℕ) (h h' : Hub)
    → Delivered msg (c ∷ []) h h'
    → (order : List ℕ) → member c order ≡ false
    → All (λ d. member d h.clients ≡ true) order
    → All (λ d. member d h'.clients ≡ true) order
unfolding member
Delivered-registered msg c h h' one [] new registered = tt
Delivered-registered msg c h h' one (d ∷ order) new registered = (
  ground (arith, one.clients d),
  Delivered-registered msg c h h' one order (ground arith) registered.1,
)

-- A broadcast to registered clients never panics, offers each the message and keeps the invariant.
broadcast-total :
    (msg : BroadcastMsg) (order : List ℕ) (h : Hub)
    → IsValid h
    → IsDistinct order
    → All (λ c. member c h.clients ≡ true) order
    → (h' : Hub) × (broadcast msg order h ≡ some h') × Delivered msg order h h' × IsValid h'
unfolding broadcast
broadcast-total msg [] h v distinct registered = (h, refl, Delivered-nil msg h, v)
broadcast-total msg (c ∷ order) h v distinct registered =
    let one = after-Delivered msg c h in
    let still = Delivered-registered msg c h _ one order distinct.0 registered.1 in
    let (h', run, all, v') =
      broadcast-total msg order (after msg c h) (after-IsValid msg c h v) distinct.1 still in
    (
      h',
      rw (deliver-after msg c h (v.live c registered.0)) run,
      Delivered-cons msg c order h _ h' distinct.0 one all,
      v',
    )

-- The specification of a broadcast: it speaks of the registered clients, not of an order.
pub record Broadcasts (msg : BroadcastMsg) (h h' : Hub) : Type 0 where
  pub heap : (c : ℕ) → h'.heap c ≡ (if member c h.clients then offer msg (h.heap c) else h.heap c)
  pub clients : (c : ℕ) → member c h'.clients ≡ (member c h.clients && not (drops msg (h.heap c)))
  pub next : h'.next ≡ h.next

members-registered :
    (clients order : List ℕ)
    → ((c : ℕ) → member c order ≡ true → member c clients ≡ true)
    → All (λ c. member c clients ≡ true) order
unfolding member
members-registered clients [] sub = tt
members-registered clients (c ∷ order) sub =
    (sub c (ground arith), members-registered clients order (λ d m. sub d (ground arith)))

-- In whatever order the runtime visits the map of a valid hub, a broadcast does not panic, keeps
-- the invariant, offers the message to every registered client, drops exactly the registered
-- clients that want it and have a full buffer, and changes nobody else.
pub broadcast-Broadcasts :
    (msg : BroadcastMsg) (order : List ℕ) (h : Hub)
    → IsValid h
    → IsVisit h.clients order
    → (h' : Hub) × (broadcast msg order h ≡ some h') × Broadcasts msg h h' × IsValid h'
broadcast-Broadcasts msg order h v visit =
    let registered = members-registered h.clients order (λ c m. ground (arith, visit.same c)) in
    let (h', run, all, v') = broadcast-total msg order h v visit.distinct registered in
    (
      h',
      run,
      record {
        heap = λ c. ground (arith, all.heap c, visit.same c);
        clients = λ c. ground (arith, all.clients c, visit.same c);
        next = all.next;
      },
      v',
    )
