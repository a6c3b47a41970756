-- ===== src/Kafka/Topics.antt =====
-- `EnsureTopics` of predsx/libs/kafka-client/admin.go.
-- Parameters: what each dial comes to (`none` is a connection), whether the context is over before
-- it, the answer of the broker about the controller, and that of the controller. The waits are
-- left out.
pub mod Created
use pred_sx.Base.{
  ℕ, zero, suc, ◌+◌, Bool, true, false, Option, none, some, List, [], ◌∷◌, map, String,
  if◌then◌else◌, ◌==◌,
}
use pred_sx.Base.Dict.{Dict}

pub data Dialled (E : Type 0) : Type 0 where
  connected : Dialled E
  cancelled : Dialled E
  failed : E → Dialled E

pub record TopicConfig : Type 0 where
  pub topic : String
  pub num_partitions : ℕ
  pub replication_factor : ℕ

abbrev pub max_dials : ℕ
max_dials = 5

-- What `EnsureTopics` returned, and the topics that it asked for, if it did.
pub data EnsureVerdict (E : Type 0) : Type 0 where
  ok context_error : EnsureVerdict E
  error : E → EnsureVerdict E

pub record Ensured (E : Type 0) : Type 0 where
  pub verdict : EnsureVerdict E
  pub requested : Option (List TopicConfig)

-- The request for the topics, by the loop over the map in some order.
pub topic_configs : Dict ℕ → List TopicConfig
topic_configs topics =
    map (λ t. record { topic = t.0; num_partitions = t.1; replication_factor = 1 }) topics

module _ {E : Type 0} where
  -- The loop of a dial with `left` attempts to go.
  pub dial_loop : (ℕ → Bool) → (ℕ → Option E) → (left i : ℕ) → Option E → Dialled E
  dial_loop done dial zero i err = elim err [ none ↦ connected | some e ↦ failed e ]
  dial_loop done dial (suc left) i err =
      let rest : Option E → Dialled E = dial_loop done dial left (i + 1) in
      if done i then cancelled else (elim (dial i) [ none ↦ connected | some e ↦ rest (some e) ])

  abbrev pub stopped : EnsureVerdict E → Ensured E
  stopped v = record { verdict = v; requested = none }

  pub verdict_of : Option E → EnsureVerdict E
  verdict_of none = ok
  verdict_of (some e) = error e

  -- What follows a dial: the rest, or the error.
  pub on_dialled : Dialled E → Ensured E → Ensured E
  on_dialled connected rest = rest
  on_dialled cancelled rest = stopped context_error
  on_dialled (failed e) rest = stopped (error e)

  pub create_topics : (List TopicConfig → Option E) → Dict ℕ → Ensured E
  unfolding verdict_of topic_configs
  create_topics create topics = record {
    verdict = verdict_of (create (topic_configs topics));
    requested = some (topic_configs topics);
  }

  -- `EnsureTopics`; only the first broker is dialled. `controller` is `conn.Controller()`; the
  -- loops have their own contexts and dials.
  pub ensure_topics :
      List String
      → (done done' : ℕ → Bool) (dial : String → ℕ → Option E) (dial' : ℕ → Option E)
        (controller : Option E)
      → (List TopicConfig → Option E)
      → Dict ℕ
      → Ensured E
  unfolding dial_loop on_dialled create_topics
  ensure_topics [] done done' dial dial' controller create topics = stopped ok
  ensure_topics (broker ∷ brokers) done done' dial dial' controller create topics =
      on_dialled (dial_loop done (dial broker) max_dials 0 none) (elim controller [
        | some e ↦ stopped (error e)
        | none ↦ on_dialled (dial_loop done' dial' max_dials 0 none) (create_topics create topics)
      ])
