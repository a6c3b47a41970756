-- ===== src/Hub/Filter.antt =====
-- What a subscription means for the messages that follow it.
use pred_sx.Base.{
  ℕ, ◌<◌, ◌≡◌, refl, Bool, true, false, not, ◌&&◌, ◌||◌, some, List, [], ◌∷◌, ◌++◌, String, arith,
  ltb, if◌then◌else◌, str_eq, eq_iff, is_empty, length,
}
use pred_sx.Base.Dict.{Dict, lookup, insert, lookup-insert}
use pred_sx.Hub.{
  Hub, BroadcastMsg, send_capacity, member, subscription_set, subscribe, skips, broadcast,
}
use pred_sx.Hub.Valid.{IsValid, subscribe-IsValid}
use pred_sx.Hub.Deliver.{IsVisit, offer, broadcast-Broadcasts}

unfoldable pub contains : String → List String → Bool
contains m [] = false
contains m (n ∷ ns) = str_eq n m || contains m ns

-- No market is named: the client asks for everything.
unfoldable pub all_blank : List String → Bool
all_blank [] = true
all_blank (n ∷ ns) = is_empty n && all_blank ns

is_empty-eq : (m n : String) → is_empty n ≡ true → is_empty m ≡ false → str_eq n m ≡ false
is_empty-eq m n e f = ground (arith, eq_iff n m)

lookup-subscription_set :
    (subs : Dict Bool) (ms : List String) (m : String)
    → is_empty m ≡ false
    → lookup m (subscription_set subs ms) ≡ (if contains m ms then some true else lookup m subs)
unfolding subscription_set contains
lookup-subscription_set subs [] m h = refl
lookup-subscription_set subs (n ∷ ns) m h = ground (
  arith,
  lookup-subscription_set (insert n true subs) ns m h,
  lookup-subscription_set subs ns m h,
  lookup-insert n m true subs,
  is_empty-eq m n,
)

insert-pos : (k : String) (subs : Dict Bool) → 0 < length (insert k true subs)
unfolding insert
insert-pos k [] = omega arith
insert-pos k ((j, v) ∷ subs) = ground arith

subscription_set-pos :
    (subs : Dict Bool) (ms : List String)
    → ltb 0 (length (subscription_set subs ms)) ≡ (ltb 0 (length subs) || not (all_blank ms))
unfolding subscription_set all_blank
subscription_set-pos subs [] = ground arith
subscription_set-pos subs (n ∷ ns) = ground (
  arith,
  subscription_set-pos (insert n true subs) ns,
  subscription_set-pos subs ns,
  insert-pos n subs,
)

-- The filter of a client that has just subscribed to `markets`, for a message with a market.
pub skips-subscribe :
    (h : Hub) (c : ℕ) (markets : List String) (msg : BroadcastMsg)
    → member c h.clients ≡ true
    → is_empty msg.market_id ≡ false
    → skips msg ((subscribe c markets h).heap c)
      ≡ (not (all_blank markets) && not (contains msg.market_id markets))
unfolding subscribe skips lookup
skips-subscribe h c markets msg registered named =
    ground (
      arith,
      lookup-subscription_set [] markets msg.market_id named,
      subscription_set-pos [] markets,
    )

-- After a client of a valid hub has subscribed to `markets`, the next broadcast of a message about a market puts the
-- payload behind what waits for the client if the message's market is in `markets`, or if no
-- market in `markets` has a name, and otherwise leaves the client's buffer as it was; the client's
-- buffer is taken to have room, the message to name a market.
pub subscribe-broadcast :
    (h : Hub) (c : ℕ) (markets : List String) (msg : BroadcastMsg) (order : List ℕ)
    → IsValid h
    → member c h.clients ≡ true
    → IsVisit (subscribe c markets h).clients order
    → is_empty msg.market_id ≡ false
    → length (h.heap c).send < send_capacity
    → (h' : Hub) × (broadcast msg order (subscribe c markets h) ≡ some h')
      × ((h'.heap c).send ≡ (
          if all_blank markets || contains msg.market_id markets
          then (h.heap c).send ++ msg.payload ∷ []
          else (h.heap c).send))
unfolding subscribe offer
subscribe-broadcast h c markets msg order v registered visit named room =
    let (h', run, all, v') =
      broadcast-Broadcasts msg order (subscribe c markets h) (subscribe-IsValid h v c markets)
        visit in
    (h', run, ground (arith, all.heap c, skips-subscribe h c markets msg registered named))
