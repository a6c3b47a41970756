-- ===== src/Hub/Run.antt =====
-- Histories of the hub: connections, disconnections, subscriptions, broadcasts and sends, in any
-- order that the channels of `Run` can deliver them.
use mathlib.Core.Option.{some-injective}
use pred_sx.Base.{ℕ, ◌≡◌, refl, sym, ◌∙◌, subst, Option, some, List}
use pred_sx.Hub.{
  Hub, BroadcastMsg, ClientMsg, new_hub, unregister, broadcast, serve_ws, receive, on_message,
}
use pred_sx.Hub.Valid.{
  IsValid, new_hub-IsValid, serve_ws-IsValid, unregister-IsValid, receive-IsValid,
  on_message-IsValid,
}
use pred_sx.Hub.Deliver.{IsVisit, broadcast-Broadcasts}

pub data Event : Type 0 where
  connect : Event
  disconnect : ℕ → Event
  command : ℕ → ClientMsg → Event
  message : BroadcastMsg → List ℕ → Event
  sent : ℕ → Event

unfoldable pub handle : Event → Hub → Option Hub
handle connect h = some (serve_ws h)
handle (disconnect c) h = unregister c h
handle (command c cm) h = some (on_message c cm h)
handle (message msg order) h = broadcast msg order h
handle (sent c) h = some (receive c h)

-- The only thing that the runtime owes: a `range` visits every key of the map once.
abbrev pub Allowed : Event → Hub → Type 0
Allowed (message msg order) h = IsVisit h.clients order
Allowed connect h = Unit
Allowed (disconnect c) h = Unit
Allowed (command c cm) h = Unit
Allowed (sent c) h = Unit

pub data Reach : Hub → Type 0 where
  start : Reach new_hub
  next : {h h' : Hub} (e : Event) → Reach h → Allowed e h → handle e h ≡ some h' → Reach h'

handle-IsValid :
    (e : Event) (h : Hub)
    → IsValid h
    → Allowed e h
    → (h' : Hub) × (handle e h ≡ some h') × IsValid h'
unfolding handle
handle-IsValid connect h v a = (serve_ws h, refl, serve_ws-IsValid h v)
handle-IsValid (disconnect c) h v a = unregister-IsValid h v c
handle-IsValid (command c cm) h v a = (on_message c cm h, refl, on_message-IsValid h v c cm)
handle-IsValid (message msg order) h v a =
    let (h', run, all, v') = broadcast-Broadcasts msg order h v a in (h', run, v')
handle-IsValid (sent c) h v a = (receive c h, refl, receive-IsValid h v c)

-- In every reachable state the registered clients have open channels and no buffer holds more
-- than 256 messages.
pub Reach-IsValid : {h : Hub} → Reach h → IsValid h
Reach-IsValid start = new_hub-IsValid
Reach-IsValid (next {h = before} e r a run) =
    let (after, run', v) = handle-IsValid e before (Reach-IsValid r) a in
    subst IsValid (some-injective _ _ (sym run' ∙ run)) v

-- Whatever happened since the hub started, the next event is handled without a panic: no channel
-- is closed twice and nothing is sent on a closed channel.
pub Reach-handles :
    {h : Hub} → Reach h → (e : Event) → Allowed e h → (h' : Hub) × (handle e h ≡ some h')
Reach-handles {h} r e a = let (h', run, v) = handle-IsValid e h (Reach-IsValid r) a in (h', run)
