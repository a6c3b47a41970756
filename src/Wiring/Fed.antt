-- ===== src/Wiring/Fed.antt =====
-- Which consumers get events.
use pred_sx.Base.{◌≡◌, ◌⊎◌, true, List, [], ◌∷◌, String}
use pred_sx.Base.Dict.{Dict}
use pred_sx.Wiring.{
  EventType, historical, Producer, Consumer, orderbook_topic, orderbook_updates_topic,
}

-- Some producer of the list that its service publishes with has the topic and the type of events.
abbrev pub Feeds : List Producer → String → EventType → Type 0
Feeds [] topic kind = ⊥
Feeds (p ∷ ps) topic kind =
    ((p.topic ≡ topic) × (p.event_type ≡ kind) × (p.is_used ≡ true)) ⊎ Feeds ps topic kind

-- There is one for what the consumer reads.
abbrev pub IsFed : List Producer → Consumer → Type 0
IsFed ps c = Feeds ps c.topic c.event_type

-- There is one, or the consumer reads historical events and there is none.
abbrev pub IsSupplied : List Producer → Consumer → Type 0
IsSupplied ps c = IsFed ps c ⊎ ((c.event_type ≡ historical) × ¬ IsFed ps c)

-- The two names of the topic of order books agree, as they do when neither is set.
abbrev pub SameOrderbooks : Dict String → Type 0
SameOrderbooks env = orderbook_topic env ≡ orderbook_updates_topic env
