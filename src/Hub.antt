-- ===== src/Hub.antt =====
-- The WebSocket hub: predsx/services/api/ws/hub.go, client.go and handler.go.
-- A client is a pointer into a heap of client objects. `Run` handles one message at a time, so
-- each case of its `select` is a function from hub to hub; `none` is a panic of the Go runtime (a
-- send on a closed channel, or a second close). A `range` over the map of clients visits them in
-- any order: the order is an argument of the broadcast.

pub mod Valid
pub mod Deliver
pub mod Filter
pub mod Run
pub mod Pump
mod Tests
use pred_sx.Base.{
  ℕ, suc, ◌+◌, ◌<◌, ◌≡◌, Bool, true, false, not, ◌&&◌, ◌||◌, Option, none, some, List, [], ◌∷◌,
  ◌++◌, String, ltb, ◌==◌, if◌then◌else◌, str_eq, is_empty, length,
}
use pred_sx.Base.Dict.{Dict, lookup, insert}

pub record BroadcastMsg : Type 0 where
  pub payload : String
  pub market_id : String

-- The bytes that wait in `send`, whether `send` is closed, and the market filter.
pub record Client : Type 0 where
  pub send : List String
  pub closed : Bool
  pub subscriptions : Dict Bool

-- `clients` lists the keys of the map; `next` is the next free address.
pub record Hub : Type 0 where
  pub clients : List ℕ
  pub heap : ℕ → Client
  pub next : ℕ

-- `make(chan []byte, 256)`
abbrev pub send_capacity : ℕ
send_capacity = 256

abbrev pub new_client : Client
new_client = record { send = []; closed = false; subscriptions = [] }

abbrev pub new_hub : Hub
new_hub = record { clients = []; heap = λ c. new_client; next = 0 }

pub member : ℕ → List ℕ → Bool
member c [] = false
member c (d ∷ ds) = d == c || member c ds

pub remove : ℕ → List ℕ → List ℕ
remove c [] = []
remove c (d ∷ ds) = if d == c then remove c ds else d ∷ remove c ds

pub update : (ℕ → Client) → ℕ → Client → ℕ → Client
update heap c v d = if c == d then v else heap d

-- `close(client.send)`: closing twice panics.
pub close : ℕ → Hub → Option Hub
unfolding update
close c h =
    if (h.heap c).closed
    then none
    else some (record h { heap = update h.heap c (record (h.heap c) { closed = true }) })

-- `case client := <-h.register`
pub register : ℕ → Hub → Hub
unfolding member
register c h = record h { clients = if member c h.clients then h.clients else c ∷ h.clients }

-- `case client := <-h.unregister`
pub unregister : ℕ → Hub → Option Hub
unfolding member remove close
unregister c h =
    if member c h.clients then close c (record h { clients = remove c h.clients }) else some h

-- The loop that fills the new subscription set; empty names are left out.
pub subscription_set : Dict Bool → List String → Dict Bool
subscription_set subs [] = subs
subscription_set subs (m ∷ ms) =
    subscription_set (if is_empty m then subs else insert m true subs) ms

-- `case sub := <-h.subscribe`
pub subscribe : ℕ → List String → Hub → Hub
unfolding member update
subscribe c markets h =
    if member c h.clients
    then record h {
      heap = update h.heap c (record (h.heap c) { subscriptions = subscription_set [] markets });
    }
    else h

-- `client.subscriptions[msg.marketID]`: a missing key reads as false.
pub is_subscribed : Dict Bool → String → Bool
is_subscribed subs m = elim (lookup m subs) [ none ↦ false | some b ↦ b ]

-- The filter at the head of the broadcast loop.
pub skips : BroadcastMsg → Client → Bool
unfolding is_subscribed
skips msg c =
    ltb 0 (length c.subscriptions)
    && not (is_empty msg.market_id)
    && not (is_subscribed c.subscriptions msg.market_id)

-- One round of the broadcast loop: filter, send, or drop a client whose buffer is full.
pub deliver : BroadcastMsg → ℕ → Hub → Option Hub
unfolding update close remove
deliver msg c h =
    if skips msg (h.heap c)
    then some h
    else if (h.heap c).closed
    then none
    else if ltb (length (h.heap c).send) send_capacity
    then some (record h {
      heap = update h.heap c (record (h.heap c) { send = (h.heap c).send ++ msg.payload ∷ [] });
    })
    else close c (record h { clients = remove c h.clients })

infixl 5 ◌>>=◌
abbrev pub ◌>>=◌ : Option Hub → (Hub → Option Hub) → Option Hub
none >>= f = none
some h >>= f = f h

-- `case msg := <-h.broadcast`, the map visited in the given order.
pub broadcast : BroadcastMsg → List ℕ → Hub → Option Hub
broadcast msg [] h = some h
broadcast msg (c ∷ order) h = deliver msg c h >>= broadcast msg order

-- `NewClient` and the registration in `ServeWS`.
pub serve_ws : Hub → Hub
unfolding register update
serve_ws h =
    register h.next (record h { heap = update h.heap h.next new_client; next = h.next + 1 })

-- One receive in `writePump`: the oldest message in the buffer, if there is one.
pub receive : ℕ → Hub → Hub
unfolding update
receive c h = elim (h.heap c).send [
  | [] ↦ h
  | m ∷ rest ↦ record h { heap = update h.heap c (record (h.heap c) { send = rest }) }
]

-- A message from the browser, as `readPump` decodes it.
pub record ClientMsg : Type 0 where
  pub action : String
  pub markets : List String

-- What `readPump` does with a decoded message.
pub on_message : ℕ → ClientMsg → Hub → Hub
unfolding subscribe
on_message c cm h =
    if str_eq cm.action "subscribe"
    then subscribe c cm.markets h
    else if str_eq cm.action "unsubscribe"
    then subscribe c [] h
    else h
