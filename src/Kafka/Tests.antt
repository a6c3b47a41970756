-- ===== src/Kafka/Tests.antt =====
-- A topic with a refused message, a broker that starts late, and the theorems about them.
use pred_sx.Base.{
  ℕ, ◌≡◌, ◌↔◌, sym, ap, Bool, false, Option, none, some, List, [], ◌∷◌, String, if◌then◌else◌, ltb,
}
use pred_sx.Base.Dict.{Dict}
use pred_sx.Kafka.{KafkaMessage, Call, publish_message, handled}
use pred_sx.Kafka.Typed.{done, failed, next, handled-handed}
use pred_sx.Kafka.Topics.{TopicConfig, ok, ensure_topics}
use pred_sx.Kafka.Topics.Created.{Connects, ensure_topics-requested}

abbrev marshal : String → Option String
marshal s = some s

abbrev unmarshal : String → String × Bool
unmarshal s = (s, false)

abbrev accepted : KafkaMessage → Option ℕ
accepted m = none

abbrev refused : KafkaMessage → Option ℕ
refused m = some 1

abbrev calls : List (Call String ℕ)
calls =
    record { key = "m"; value = "a"; write = accepted }
    ∷ record { key = "m"; value = "b"; write = refused }
    ∷ record { key = "n"; value = "c"; write = refused }
    ∷ record { key = "n"; value = "c"; write = accepted }
    ∷ []

abbrev first : KafkaMessage
first = record { key = "m"; value = "a" }

abbrev other : KafkaMessage
other = record { key = "m"; value = "b" }

abbrev second : KafkaMessage
second = record { key = "n"; value = "c" }

-- The refused message is in the topic, and the last one twice.
handled-handed_example :
    handled "" unmarshal (some first ∷ some other ∷ none ∷ some second ∷ some second ∷ [])
    ≡ "a" ∷ "b" ∷ "c" ∷ "c" ∷ []
unfolding publish_message
handled-handed_example =
    handled-handed marshal "" unmarshal calls
      (some first ∷ some other ∷ none ∷ some second ∷ some second ∷ [])
      (λ value bytes h. ap (λ o. (elim o [ none ↦ bytes | some s ↦ s ], false)) (sym h))
      (next first _ _ (next other _ _ (failed _ _ (next second _ _ (next second _ _ done)))))

abbrev open_context : ℕ → Bool
open_context n = false

-- The third dial connects.
abbrev late : ℕ → Option ℕ
late n = if ltb n 2 then some n else none

abbrev late_broker : String → ℕ → Option ℕ
late_broker broker = late

abbrev takes_all : List TopicConfig → Option ℕ
takes_all configs = none

abbrev topics : Dict ℕ
topics = ("predsx.ws.raw", 6) ∷ ("predsx.metrics.trades", 3) ∷ []

abbrev no_error : Option ℕ
no_error = none

ensure_topics-requested_example :
    (Connects open_context (late_broker "localhost:9092")
      × (no_error ≡ none)
      × Connects open_context late)
    ↔ (ensure_topics
          ("localhost:9092" ∷ [])
          open_context
          open_context
          late_broker
          late
          no_error
          takes_all
          topics
        ≡ record {
          verdict = ok;
          requested = some (
              record { topic = "predsx.ws.raw"; num_partitions = 6; replication_factor = 1 }
              ∷ record {
                topic = "predsx.metrics.trades";
                num_partitions = 3;
                replication_factor = 1;
              }
              ∷ []);
        })
ensure_topics-requested_example =
    ensure_topics-requested "localhost:9092" [] open_context open_context late_broker late no_error
      takes_all topics
