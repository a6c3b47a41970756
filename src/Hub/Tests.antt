-- ===== src/Hub/Tests.antt =====
-- Runs of the hub, and the theorems about it at concrete inputs.
use pred_sx.Base.{◌≡◌, refl, true, some, List, [], ◌∷◌, String, arith}
use pred_sx.Base.Dict.{lookup, insert}
use pred_sx.Hub.{
  Hub, BroadcastMsg, new_hub, member, subscribe, serve_ws, unregister, receive, on_message, skips,
  broadcast, deliver, subscription_set,
}
use pred_sx.Hub.Valid.{IsValid}
use pred_sx.Hub.Deliver.{IsVisit, Broadcasts, broadcast-Broadcasts}
use pred_sx.Hub.Filter.{contains, all_blank, subscribe-broadcast}
use pred_sx.Hub.Run.{Event, Reach, Reach-IsValid, Reach-handles, handle}

program : Unit {0}
unfolding broadcast serve_ws unregister receive on_message subscribe skips deliver lookup insert
    subscription_set handle contains all_blank member
program = tt

abbrev quote_msg : BroadcastMsg
quote_msg = record { payload = "{}"; market_id = "m1" }

abbrev markets : List String
markets = "m1" ∷ "" ∷ []

one_client : Hub
one_client = serve_ws new_hub

one_client-Reach : Reach one_client
unfolding one_client handle
one_client-Reach = Reach.next Event.connect Reach.start tt refl

one_client-IsVisit : IsVisit one_client.clients (0 ∷ [])
unfolding one_client program
one_client-IsVisit = record { same = λ c. refl; distinct = (refl, tt) }

-- A message for a market that the client did not name is filtered.
filtered :
    skips (record quote_msg { market_id = "m2" }) ((subscribe 0 markets one_client).heap 0) ≡ true
unfolding one_client program
filtered = refl

broadcast-Broadcasts_example :
    (h' : Hub) × (broadcast quote_msg (0 ∷ []) one_client ≡ some h')
    × Broadcasts quote_msg one_client h'
    × IsValid h'
broadcast-Broadcasts_example =
    broadcast-Broadcasts quote_msg (0 ∷ []) one_client (Reach-IsValid one_client-Reach)
      one_client-IsVisit

subscribe-broadcast_example :
    (h' : Hub) × (broadcast quote_msg (0 ∷ []) (subscribe 0 markets one_client) ≡ some h')
    × ((h'.heap 0).send ≡ "{}" ∷ [])
unfolding one_client program
subscribe-broadcast_example =
    subscribe-broadcast one_client 0 markets quote_msg (0 ∷ []) (Reach-IsValid one_client-Reach)
      refl one_client-IsVisit refl (omega arith)

Reach-IsValid_example : IsValid one_client
Reach-IsValid_example = Reach-IsValid one_client-Reach

Reach-handles_example : (h' : Hub) × (handle (Event.disconnect 0) one_client ≡ some h')
Reach-handles_example = Reach-handles one_client-Reach (Event.disconnect 0) tt
