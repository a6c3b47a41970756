-- ===== src/Kafka.antt =====
-- The typed producers and consumers of predsx/libs/kafka-client/kafka.go.
-- Parameters: `marshal`, and `unmarshal` with the value that it leaves and whether there was an
-- error; what the broker answers to a write. A `none` of type `Option E` is a nil error.
pub mod Typed
pub mod Topics
mod Tests
use pred_sx.Base.{Bool, true, false, Option, none, some, List, [], ◌∷◌, String}

pub record KafkaMessage : Type 0 where
  pub key : String
  pub value : String

pub data PublishError (E : Type 0) : Type 0 where
  not_marshalled : PublishError E
  not_written : E → PublishError E

-- What `Publish` returns, and the message that it hands to the writer.
pub record Published (E : Type 0) : Type 0 where
  pub error : Option (PublishError E)
  pub message : Option KafkaMessage

-- A call of `Publish`, with the writer's answer.
pub record Call (T E : Type 0) : Type 0 where
  pub key : String
  pub value : T
  pub write : KafkaMessage → Option E

-- What `Fetch` returns: the value, and whether there is an error.
pub record Consumed (T : Type 0) : Type 0 where
  pub value : T
  pub is_error : Bool

pub write_result : {E : Type 0} → Option E → Option (PublishError E)
write_result none = none
write_result (some e) = some (not_written e)

module _ {T E : Type 0} (marshal : T → Option String) where
  -- `Publish`
  pub publish_message : Call T E → Published E
  unfolding write_result
  publish_message c = elim (marshal c.value) [
    | none ↦ record { error = some not_marshalled; message = none }
    | some bytes ↦
        let m : KafkaMessage = record { key = c.key; value = bytes } in
        record { error = write_result (c.write m); message = some m }
  ]

module _ {T : Type 0} (zero_value : T) (unmarshal : String → T × Bool) where
  -- `Fetch`, by what `ReadMessage` returned.
  pub fetch_message : Option KafkaMessage → Consumed T
  fetch_message none = record { value = zero_value; is_error = true }
  fetch_message (some m) = record {
    value = (unmarshal m.value).0;
    is_error = (unmarshal m.value).1;
  }

  -- The values that a loop handles that goes on after an error.
  pub handled : List (Option KafkaMessage) → List T
  unfolding fetch_message
  handled [] = []
  handled (r ∷ rs) = elim (fetch_message r).is_error [
    | true ↦ handled rs
    | false ↦ (fetch_message r).value ∷ handled rs
  ]

  -- Those of a loop that drops the error.
  pub handled_unchecked : List (Option KafkaMessage) → List T
  unfolding fetch_message
  handled_unchecked [] = []
  handled_unchecked (r ∷ rs) = (fetch_message r).value ∷ handled_unchecked rs
