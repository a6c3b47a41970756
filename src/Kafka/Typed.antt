-- ===== src/Kafka/Typed.antt =====
-- What a consumer makes of what a producer has published.
use pred_sx.Base.{
  ◌≡◌, refl, ap, ◌∙◌, Bool, false, Option, none, some, List, [], ◌∷◌, String, map, Option-cases,
  inl, inr, All,
}
use pred_sx.Kafka.{KafkaMessage, Call, publish_message, fetch_message, handled}

-- What `ReadMessage` returns for the messages of a topic: each one in order, after some errors.
pub data Reads : List KafkaMessage → List (Option KafkaMessage) → Type 0 where
  done : Reads [] []
  failed :
      (ms : List KafkaMessage) (rs : List (Option KafkaMessage))
      → Reads ms rs
      → Reads ms (none ∷ rs)
  next :
      (m : KafkaMessage) (ms : List KafkaMessage) (rs : List (Option KafkaMessage))
      → Reads ms rs
      → Reads (m ∷ ms) (some m ∷ rs)

module _ {T : Type 0} (marshal : T → Option String) (zero_value : T)
    (unmarshal : String → T × Bool) where
  -- Reading back what was written.
  abbrev pub RoundTrip : Type 0
  RoundTrip =
      (value : T) (bytes : String) → marshal value ≡ some bytes → unmarshal bytes ≡ (value, false)

  -- The values of some messages.
  abbrev values : List KafkaMessage → List T
  values ms = map (λ m. (unmarshal m.value).0) ms

  abbrev Readable : KafkaMessage → Type 0
  Readable m = (unmarshal m.value).1 ≡ false

  handled-Reads :
      {ms : List KafkaMessage} {rs : List (Option KafkaMessage)}
      → Reads ms rs
      → All Readable ms
      → handled zero_value unmarshal rs ≡ values ms
  unfolding handled fetch_message
  handled-Reads done readable = refl
  handled-Reads (failed ms rs reads) readable = handled-Reads reads readable
  handled-Reads (next m ms rs reads) readable =
      rw (handled, readable.0)
        (ap (λ vs. (unmarshal m.value).0 ∷ vs) (handled-Reads reads readable.1))

  module _ {E : Type 0} where
    -- The messages that some calls handed to the writer, in order.
    abbrev pub handed : List (Call T E) → List KafkaMessage
    handed [] = []
    handed (c ∷ calls) = elim (publish_message marshal c).message [
      | none ↦ handed calls
      | some m ↦ m ∷ handed calls
    ]

    -- The values of the calls that can be marshalled, in order.
    abbrev pub marshalled : List (Call T E) → List T
    marshalled [] = []
    marshalled (c ∷ calls) = elim (marshal c.value) [
      | none ↦ marshalled calls
      | some bytes ↦ c.value ∷ marshalled calls
    ]

    handed-read :
        (calls : List (Call T E))
        → RoundTrip
        → (values (handed calls) ≡ marshalled calls) × All Readable (handed calls)
    unfolding publish_message
    handed-read [] law = (refl, tt)
    handed-read (c ∷ calls) law =
        let (later, readable) = handed-read calls law in
        elim (Option-cases (marshal c.value)) [
          | inl bad ↦ rw (handed, marshalled, publish_message, bad) (later, readable)
          | inr (bytes, good) ↦
              let back = law c.value bytes good in
              rw (handed, marshalled, publish_message, good)
                (
                  ap (λ v. v.0 ∷ values (handed calls)) back ∙ ap (λ vs. c.value ∷ vs) later,
                  (ap (λ v. v.1) back, readable),
                )
        ]

    -- Where reading back what was written gives the value again: if the messages of a topic are, in
    -- order, those that some calls of `Publish` handed to the writer, whichever calls these are and
    -- however often each is among them, then a consumer that reads each message once and in order,
    -- and goes on after an error, handles the values of these calls, once for each message and in
    -- order, whatever reads fail in between.
    pub handled-handed :
        (calls : List (Call T E)) (reads : List (Option KafkaMessage))
        → RoundTrip
        → Reads (handed calls) reads
        → handled zero_value unmarshal reads ≡ marshalled calls
    handled-handed calls reads law delivered =
        let (same, readable) = handed-read calls law in handled-Reads delivered readable ∙ same
