-- ===== src/Kafka/Topics/Created.antt =====
-- When the topics are asked for, and when they are not.
use pred_sx.Base.{
  ℕ, zero, suc, ◌+◌, ◌<◌, ◌≡◌, refl, ap, ◌∙◌, Bool, false, Option, none, some, List, ◌∷◌, String,
  arith, map, ◌↔◌, inl, inr, Bool-cases, Option-cases,
}
use pred_sx.Base.Dict.{Dict}
use pred_sx.Kafka.Topics.{
  Dialled, connected, cancelled, failed, TopicConfig, EnsureVerdict, ok, error, Ensured, max_dials,
  dial_loop, on_dialled, topic_configs, create_topics, verdict_of, ensure_topics,
}

-- The request that a map stands for: each topic with its number of partitions and one replica.
abbrev pub request_for : Dict ℕ → List TopicConfig
request_for topics =
    map (λ t. record { topic = t.0; num_partitions = t.1; replication_factor = 1 }) topics

module _ {E : Type 0} where
  -- The dials before number `n` fail with the context open.
  abbrev pub FailsBefore : (ℕ → Bool) → (ℕ → Option E) → (i n : ℕ) → Type 0
  FailsBefore done dial i zero = Unit
  FailsBefore done dial i (suc n) =
      (done i ≡ false) × ((e : E) × (dial i ≡ some e)) × FailsBefore done dial (i + 1) n

  -- Some dial among the first five connects, and the context is open until then.
  abbrev pub Connects : (ℕ → Bool) → (ℕ → Option E) → Type 0
  Connects done dial =
      (n : ℕ) × (n < 5) × FailsBefore done dial 0 n × (done n ≡ false) × (dial n ≡ none)

  dial_loop-connected :
      (done : ℕ → Bool) (dial : ℕ → Option E) (n left i : ℕ) (err : Option E)
      → n < left
      → FailsBefore done dial i n
      → done (i + n) ≡ false
      → dial (i + n) ≡ none
      → dial_loop done dial left i err ≡ connected
  unfolding dial_loop
  dial_loop-connected done dial n zero i err lt fails is_open hit = elim lt [ ]
  dial_loop-connected done dial zero (suc left) i err lt fails is_open hit =
      let here : i + 0 ≡ i = omega arith in ground (arith, ap done here, ap dial here)
  dial_loop-connected done dial (suc n) (suc left) i err lt (o, (e, bad), fails) is_open hit =
      let next : i + 1 + n ≡ i + suc n = omega arith in
      rw (o, bad)
        (dial_loop-connected done dial n left (i + 1) (some e) (omega arith) fails
          (ap done next ∙ is_open) (ap dial next ∙ hit))

  -- The five dials fail with the context open, the last one with an error.
  abbrev pub Unreachable : (ℕ → Bool) → (ℕ → Option E) → E → Type 0
  Unreachable done dial e = FailsBefore done dial 0 4 × (done 4 ≡ false) × (dial 4 ≡ some e)

  dial_loop-failed :
      (done : ℕ → Bool) (dial : ℕ → Option E) (n i : ℕ) (err : Option E) (e : E)
      → FailsBefore done dial i n
      → done (i + n) ≡ false
      → dial (i + n) ≡ some e
      → dial_loop done dial (suc n) i err ≡ failed e
  unfolding dial_loop
  dial_loop-failed done dial zero i err e fails is_open last =
      let here : i + 0 ≡ i = omega arith in ground (arith, ap done here, ap dial here)
  dial_loop-failed done dial (suc n) i err e (o, (e', bad), fails) is_open last =
      let next : i + 1 + n ≡ i + suc n = omega arith in
      rw (o, bad)
        (dial_loop-failed done dial n (i + 1) (some e') e fails (ap done next ∙ is_open)
          (ap dial next ∙ last))

  loop-Connects :
      (done : ℕ → Bool) (dial : ℕ → Option E)
      → Connects done dial
      → dial_loop done dial max_dials 0 none ≡ connected
  loop-Connects done dial (n, lt, fails, is_open, hit) =
      let from : 0 + n ≡ n = omega arith in
      dial_loop-connected done dial n max_dials 0 none lt fails (ap done from ∙ is_open)
        (ap dial from ∙ hit)

  -- The dials that a loop needs to connect, from number `i`.
  ConnectsFrom : (ℕ → Bool) → (ℕ → Option E) → (left i : ℕ) → Type 0
  ConnectsFrom done dial left i =
      (n : ℕ) × (n < left)
      × FailsBefore done dial i n
      × (done (i + n) ≡ false)
      × (dial (i + n) ≡ none)

  first_dial :
      (done : ℕ → Bool) (dial : ℕ → Option E) (left i : ℕ) (err : Option E)
      → ((e : E)
          → dial_loop done dial left (i + 1) (some e) ≡ connected
          → ConnectsFrom done dial left (i + 1))
      → dial_loop done dial (suc left) i err ≡ connected
      → ConnectsFrom done dial (suc left) i
  unfolding dial_loop ConnectsFrom
  first_dial done dial left i err later at =
      let here : i + 0 ≡ i = omega arith in
      elim (Bool-cases (done i)) [
        | inl over ↦ absurd (ground (arith, rw over at at))
        | inr is_open ↦ elim (Option-cases (dial i)) [
          | inl hit ↦ (0, omega arith, tt, ap done here ∙ is_open, ap dial here ∙ hit)
          | inr (e, bad) ↦
              let (n, lt, fails, is_open', hit) = later e (rw (is_open, bad) at at) in
              let next : i + suc n ≡ i + 1 + n = omega arith in
              (
                suc n,
                omega arith,
                (is_open, (e, bad), fails),
                ap done next ∙ is_open',
                ap dial next ∙ hit,
              )
        ]
      ]

  connected-dial_loop :
      (done : ℕ → Bool) (dial : ℕ → Option E) (left i : ℕ) (e : E)
      → dial_loop done dial left i (some e) ≡ connected
      → ConnectsFrom done dial left i
  unfolding dial_loop ConnectsFrom
  connected-dial_loop done dial zero i e at = absurd (ground (arith, at))
  connected-dial_loop done dial (suc left) i e at =
      first_dial done dial left i (some e) (λ e' h. connected-dial_loop done dial left (i + 1) e' h)
        at

  loop-connected :
      (done : ℕ → Bool) (dial : ℕ → Option E)
      → dial_loop done dial max_dials 0 none ≡ connected
      → Connects done dial
  unfolding ConnectsFrom
  loop-connected done dial at =
      let (n, lt, fails, is_open, hit) =
        first_dial done dial 4 0 none (λ e h. connected-dial_loop done dial 4 1 e h) at in
      let from : n ≡ 0 + n = omega arith in
      (n, lt, fails, ap done from ∙ is_open, ap dial from ∙ hit)

  -- What `EnsureTopics` makes of the controller's answer.
  abbrev pub answer_of : Option E → EnsureVerdict E
  answer_of none = ok
  answer_of (some e) = error e

  verdict-answer : (o : Option E) → verdict_of o ≡ answer_of o
  unfolding verdict_of
  verdict-answer none = refl
  verdict-answer (some e) = refl

  -- Where something is asked for, the dial before it has connected.
  asked-connected :
      (d : Dialled E) (rest : Ensured E) (configs : List TopicConfig)
      → (on_dialled d rest).requested ≡ some configs
      → (d ≡ connected) × (rest.requested ≡ some configs)
  unfolding on_dialled
  asked-connected connected rest configs at = (refl, at)
  asked-connected cancelled rest configs at = absurd (ground (arith, at))
  asked-connected (failed e) rest configs at = absurd (ground (arith, at))

  -- With at least one broker: `EnsureTopics` asks the controller for every topic of the map, with
  -- its number of partitions and one replica, and returns the controller's answer, just when one of
  -- five dials reaches the first broker, the broker names its controller, and one of five dials
  -- reaches this, with the context open until then.
  pub ensure_topics-requested :
      (broker : String) (brokers : List String) (done done' : ℕ → Bool)
      (dial : String → ℕ → Option E) (dial' : ℕ → Option E) (controller : Option E)
      (create : List TopicConfig → Option E) (topics : Dict ℕ)
      → (Connects done (dial broker) × (controller ≡ none) × Connects done' dial') ↔ (
          ensure_topics (broker ∷ brokers) done done' dial dial' controller create topics ≡ record {
            verdict = answer_of (create (request_for topics));
            requested = some (request_for topics);
          })
  unfolding ensure_topics create_topics topic_configs
  ensure_topics-requested broker brokers done done' dial dial' controller create topics = (
    λ (h, named, h').
        rw
          (
            ensure_topics,
            loop-Connects done (dial broker) h,
            named,
            loop-Connects done' dial' h',
            verdict-answer (create (request_for topics)),
          )
          refl,
    λ at.
        let first =
          asked-connected (dial_loop done (dial broker) max_dials 0 none) _ _
            (ap (λ r. r.requested) at) in
        elim (Option-cases controller) [
          | inl named ↦
              let second =
                asked-connected (dial_loop done' dial' max_dials 0 none) _ _
                  (rw named at first.1) in
              (
                loop-connected done (dial broker) first.0,
                named,
                loop-connected done' dial' second.0,
              )
          | inr (e, unnamed) ↦ absurd (ground (arith, rw unnamed at first.1))
        ],
  )

  -- When all five dials of the broker fail, it asks for nothing and returns the last error.
  ensure_topics-Unreachable :
      (broker : String) (brokers : List String) (done done' : ℕ → Bool)
      (dial : String → ℕ → Option E) (dial' : ℕ → Option E) (controller : Option E)
      (create : List TopicConfig → Option E) (topics : Dict ℕ) (e : E)
      → Unreachable done (dial broker) e
      → ensure_topics (broker ∷ brokers) done done' dial dial' controller create topics
        ≡ record { verdict = error e; requested = none }
  unfolding ensure_topics on_dialled
  ensure_topics-Unreachable broker brokers done done' dial dial' controller create topics e
        (fails, is_open, last) =
      rw (ensure_topics, dial_loop-failed done (dial broker) 4 0 none e fails is_open last) refl
