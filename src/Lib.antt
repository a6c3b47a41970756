-- ===== src/Lib.antt =====
-- A model of PredSX, a stream processor for prediction markets, and theorems about it.
--
-- The program is a set of Go services that talk through Kafka topics, with Redis as a cache and
-- ClickHouse as a store (predsx/services). Discovery finds markets and their tokens. Ingestion reads
-- the exchange and the chain; the processor and storage read its raw messages and publish order
-- books, prices, trades and signals; the API fans these out to WebSocket clients. A message is an
-- event of predsx/libs/schemas.
--
-- Which file models what:
--   Event: the records of predsx/libs/schemas/events.go, their `Validate`, and `GenerateEventID` of
--     predsx/libs/crypto/identity.go. A payload of bytes is a String, a time a natural number.
--   Json: decoded JSON and the readers `getString` and `toFloat`. Decoding itself is a parameter.
--   Number: float64 as a record of operations; a theorem names the laws that it needs of
--     them. Number/Integers is the instance that the tests run with.
--   Retry: `Do` of predsx/libs/retry-utils/retry.go as a function of the results of its calls.
--   Stream, Rotator, Indexer, Aggregator: the parts of predsx/services/ingestion/main.go, that is
--     `StreamManager` and `StreamWorker` (Stream/Manager has the writes that can meet), `rpcRotator`, `startIndexerComponent` with
--     `runIndexerCycle` and `processLog`, and `startAggregatorComponent` with `updateBucket` and
--     `flushMetrics`.
--   Orderbook, Price, Signal: `startOrderbookEngine`, `startPriceEngine`, and `startTradeEngine`
--     with `startAnalyzerEngine`, of predsx/services/processor/main.go.
--   Kafka: `Publish` and `Fetch` of predsx/libs/kafka-client/kafka.go; Kafka/Topics is
--     `EnsureTopics` of admin.go beside it. Service: predsx/libs/service/service.go.
--   Storage: the handlers of predsx/services/storage/main.go; Storage/Schema has the tables of
--     `ensureSchemas`, Storage/Schema/Insert the statements that fill them, Storage/Normalizer the
--     loops of `startNormalizerComponent`.
--   Discovery: what predsx/services/discovery/main.go does for a market; Discovery/Crawl is the
--     request of a page with its retries, `discoverMarkets` and `discoverEvents`, Discovery/Cycle
--     the two of them at once.
--   Rest: predsx/services/api/handlers/rest.go. Params and Market have what the handlers share,
--     Markets, Search, Detail, History, Batch, Scan, Proxy and Debug the handlers, Query the texts
--     of the queries, Reply the answers and their cache, Backend what the handlers call.
--   Http, Middleware, Router: predsx/services/api/middleware (auth.go, cors.go and
--     securityheaders.go) and the routes of predsx/services/api/main.go.
--   Wiring: the topics, producers and consumers of all services. Backtester: `startBacktesterAPI`
--     of predsx/services/processor/main.go. Router/Server: the start of predsx/services/api/main.go.
--   Cli: predsx/cmd/predsx (client/client.go and cmd/root.go).
--   Broadcaster: predsx/services/api/ws/broadcaster.go. Config: predsx/libs/config/config.go.
--   RateLimit: predsx/services/api/middleware/ratelimit.go.
--   Hub: predsx/services/api/ws (hub.go, client.go and handler.go); Hub/Pump has the two pumps of
--     a client. A panic of the Go runtime, such
--     as a send on a closed channel, is `none`.
--   Base: lists, dictionaries, sets, `strings.Split`, decimal numbers, `strconv.Atoi` and base64
--     over the native natural numbers.
--
-- A service's loop is a function over the list of what it receives; goroutines that share state
-- under a lock, or send to one loop, are steps in any order. A Go map is an association list with
-- one entry for a key, and the order in which Go visits it is a parameter. Machine integers keep
-- their width: blocks and counters wrap at 2 ^ 64 and 2 ^ 32.
-- Fuel: `itoa` has one round for each unit of its number, more than it has digits, `pick` one round
-- for each endpoint, as in the source, and the loop over pages of discovery one for each
-- page with items and one more. The loops over the keys that Redis scans have fuel, which is enough when it is
-- above the number of steps to the end of the scan. All other recursion is on the data.
--
-- Parameters, for code outside of the repository: Redis, the rows that ClickHouse gives, SHA-1,
-- FNV-1a, the sort of the standard library, JSON encoding and decoding, times as text, upper and
-- lower case of Unicode, the packages net and net/url, the choice of a route by gorilla/mux, the
-- hexadecimal texts of go-ethereum, and the answers of the node and of other servers.
-- Not modelled: the clients of Redis, ClickHouse and Postgres and the connections of that of Kafka,
-- logging, the HTTP server, deadlines and pauses, and the views of ClickHouse and what it does with
-- rows that are stored.
pub mod Base
pub mod Number
pub mod Json
pub mod Event
pub mod Retry
pub mod Kafka
pub mod Service
pub mod Wiring
pub mod Backtester
pub mod Aggregator
pub mod Orderbook
pub mod Price
pub mod Signal
pub mod Rotator
pub mod Indexer
pub mod Stream
pub mod Storage
pub mod Hub
pub mod Rest
pub mod Config
pub mod Broadcaster
pub mod Http
pub mod Middleware
pub mod Router
pub mod RateLimit
pub mod Cli
pub mod Discovery
