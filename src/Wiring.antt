-- ===== src/Wiring.antt =====
-- The topics that tie the services together: the producers and consumers that the `main` of
-- predsx/services/discovery, ingestion, storage and processor and `StartKafkaBroadcaster` of
-- predsx/services/api/ws/broadcaster.go make, and the topics that a service asks for.
-- All services have the same environment.
pub mod Fed
mod Tests
use pred_sx.Base.{ℕ, Bool, true, false, List, [], ◌∷◌, ◌++◌, String}
use pred_sx.Base.Dict.{Dict}
use pred_sx.Config.{get_env}

-- The type of the events of a producer or consumer.
pub data EventType : Type 0 where
  raw_websocket market_discovered token_extracted trade orderbook price signal : EventType
  historical on_chain : EventType

-- `is_used` says that the service calls `Publish` of it somewhere.
pub record Producer : Type 0 where
  pub topic : String
  pub event_type : EventType
  pub is_used : Bool

-- `from_end` is the start at the last offset in place of the first.
pub record Consumer : Type 0 where
  pub topic : String
  pub event_type : EventType
  pub group : String
  pub from_end : Bool

module _ (env : Dict String) where
  abbrev pub discovery_topic : String
  discovery_topic = get_env env "MARKET_DISCOVERY_TOPIC" "predsx.markets.discovered"

  abbrev pub token_topic : String
  token_topic = get_env env "TOKEN_EXTRACTOR_TOPIC" "predsx.tokens.extracted"

  abbrev pub ws_raw_topic : String
  ws_raw_topic = get_env env "WS_RAW_TOPIC" "predsx.ws.raw"

  abbrev pub on_chain_topic : String
  on_chain_topic = get_env env "ONCHAIN_TRADES_TOPIC" "predsx.trades.onchain"

  abbrev pub trades_topic : String
  trades_topic = get_env env "TRADES_LIVE_TOPIC" "predsx.trades.live"

  abbrev pub metrics_topic : String
  metrics_topic = get_env env "METRICS_TRADES_TOPIC" "predsx.metrics.trades"

  abbrev pub backfill_topic : String
  backfill_topic = get_env env "TRADES_BACKFILL_TOPIC" "predsx.trades.backfill"

  -- The topic of order books in storage and in the API, and in the processor.
  abbrev pub orderbook_updates_topic : String
  orderbook_updates_topic = get_env env "ORDERBOOK_UPDATES_TOPIC" "predsx.orderbook.updates"

  abbrev pub orderbook_topic : String
  orderbook_topic = get_env env "ORDERBOOK_TOPIC" "predsx.orderbook.updates"

  abbrev pub prices_topic : String
  prices_topic = get_env env "PRICES_TOPIC" "predsx.prices"

  abbrev pub signals_topic : String
  signals_topic = get_env env "SIGNALS_TOPIC" "predsx.signals.live"

  abbrev pub discovery_group : String
  discovery_group = get_env env "MARKET_DISCOVERY_GROUP" "storage-norm-dis-v10"

  abbrev produces : String → EventType → Producer
  produces topic event_type = record { topic = topic; event_type = event_type; is_used = true }

  -- A producer that is made and never used.
  abbrev idle : String → EventType → Producer
  idle topic event_type = record { topic = topic; event_type = event_type; is_used = false }

  abbrev consumes : String → EventType → String → Consumer
  consumes topic event_type group = record {
    topic = topic;
    event_type = event_type;
    group = group;
    from_end = false;
  }

  abbrev consumes_new : String → EventType → String → Consumer
  consumes_new topic event_type group = record {
    topic = topic;
    event_type = event_type;
    group = group;
    from_end = true;
  }

  pub discovery_producers : List Producer
  discovery_producers =
      produces discovery_topic market_discovered ∷ produces token_topic token_extracted ∷ []

  pub ingestion_producers : List Producer
  ingestion_producers =
      produces ws_raw_topic raw_websocket
      ∷ produces on_chain_topic on_chain
      ∷ idle metrics_topic price
      ∷ []

  pub storage_producers : List Producer
  storage_producers = produces trades_topic trade ∷ idle backfill_topic historical ∷ []

  pub processor_producers : List Producer
  processor_producers =
      produces orderbook_topic orderbook
      ∷ produces prices_topic price
      ∷ produces signals_topic signal
      ∷ []

  pub producers : List Producer
  unfolding discovery_producers ingestion_producers storage_producers processor_producers
  producers = discovery_producers ++ ingestion_producers ++ storage_producers ++ processor_producers

  pub ingestion_consumers : List Consumer
  ingestion_consumers =
      consumes token_topic token_extracted "ingestion-hub-stream"
      ∷ consumes trades_topic trade "ingestion-hub-agg"
      ∷ []

  pub storage_consumers : List Consumer
  storage_consumers =
      consumes ws_raw_topic raw_websocket "storage-norm-ws"
      ∷ consumes backfill_topic historical "storage-norm-bf"
      ∷ consumes orderbook_updates_topic orderbook "storage-norm-ob"
      ∷ consumes on_chain_topic on_chain "storage-norm-onc"
      ∷ consumes discovery_topic market_discovered discovery_group
      ∷ []

  pub processor_consumers : List Consumer
  processor_consumers =
      consumes trades_topic trade "processor-trade-group"
      ∷ consumes ws_raw_topic raw_websocket "processor-ob-group"
      ∷ consumes trades_topic trade "processor-price-trades"
      ∷ consumes orderbook_topic orderbook "processor-price-ob"
      ∷ consumes trades_topic trade "processor-analyzer-trades"
      ∷ consumes orderbook_topic orderbook "processor-analyzer-ob"
      ∷ consumes on_chain_topic on_chain "processor-analyzer-onchain"
      ∷ []

  pub api_consumers : List Consumer
  api_consumers =
      consumes_new trades_topic trade "api-ws-trades"
      ∷ consumes_new orderbook_updates_topic orderbook "api-ws-orderbook"
      ∷ consumes_new prices_topic price "api-ws-prices"
      ∷ consumes_new signals_topic signal "api-ws-signals"
      ∷ []

  pub consumers : List Consumer
  unfolding ingestion_consumers storage_consumers processor_consumers api_consumers
  consumers = ingestion_consumers ++ storage_consumers ++ processor_consumers ++ api_consumers

  -- The maps that the services hand to `EnsureTopics`, with the numbers of partitions.
  pub discovery_topics : Dict ℕ
  discovery_topics = (discovery_topic, 1) ∷ (token_topic, 1) ∷ []

  pub ingestion_topics : Dict ℕ
  ingestion_topics = (ws_raw_topic, 6) ∷ (on_chain_topic, 6) ∷ (metrics_topic, 3) ∷ []

  pub processor_topics : Dict ℕ
  processor_topics =
      (trades_topic, 6) ∷ (orderbook_topic, 6) ∷ (prices_topic, 3) ∷ (signals_topic, 6) ∷ []
