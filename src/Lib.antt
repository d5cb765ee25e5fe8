-- ===== src/Lib.antt =====
-- A verification library for ripestream, a server that reads measurement results of RIPE Atlas from a
-- stream, writes them to ClickHouse and, as a topology graph, to FalkorDB, evaluates alert rules over
-- the graph, and serves a read API. The records of the stream pass a tee, which gives each to the
-- writers and counts it in the ingestion meter; the evaluator reads the graph and keeps its states
-- and events in SQLite; the API reads all of them.
--
-- Which file is about which code:
--   Store/Escape, Store/Statements: EscStr of internal/store/query.go and splitStatements of
--     internal/store/store.go, over byte strings. A scan state is the locals of the loop; a round
--     takes one byte or two, as the source moves its index. Trimming knows the ASCII spaces.
--   Store/Retry, Store/Writer: insertWithRetry and Run of internal/store/store.go. What the context
--     and the server do is a list of attempts, one for each round of the retry loop; a list that is
--     too short gives the outcome retrying, and the theorems say which attempts are enough. The
--     select of Run is a list of events. Counters are uint64 and wrap at 2^64.
--   Pipeline/Meter: internal/pipeline/ingestion_meter.go, the ring of 60 buckets. The mutex makes
--     each call one step; the time of a call is an argument.
--   Pipeline/Tee: TeeObserved of internal/pipeline/tee.go. A sink is a buffered channel with its
--     reader; a run is any interleaving of records, receives and the end of the loop.
--   Api/Page, Api/Issues, Api/Cache: qInt, pageParams and respondPage of internal/api/respond.go, the
--     ranking and deduplication of internal/api/issues.go, and internal/api/cache.go.
--   Alert/Rule, Alert/Rows, Alert/Database, Alert/Evaluator: internal/alert/model.go, store.go and
--     evaluator.go. The tables are lists, a statement of SQL is an operation on them, and whether the
--     database carries a statement out is an argument. The JSON of filters, what the graph returns, the
--     clock and the order in which a map is visited are arguments as well.
--   Graph/Parse, Graph/Writer, Graph/Loop: parse.go of internal/graph, and what store.go makes of a
--     record and of the batches. The JSON decoders and the ASN database are arguments, and so is whether
--     a flush succeeds; a batch is the lists of rows that the source gives to its queries.
--   Graph/Sort, Graph/Retention: internal/graph/sort.go, and Prune of internal/graph/retention.go over
--     a graph that answers each query. The rounds of pruneBatches are bounded by the 100 of the source.
--   Atlas/Stream, Atlas/Subscription: internal/atlas/stream.go. A connection is a list of reads with the
--     decoders of encoding/json as arguments; a subscription is a list of connections, each with how it
--     ends and what the context does.
--   Graph/Values, Graph/Routes, Graph/Routes/Reply: the readings of values and the clamping of limits in
--     internal/graph/query.go, and IPRouteGraph of internal/graph/queries_read.go. What FalkorDB answers
--     is an argument, and where a theorem needs the queries to answer as Cypher documents, Answers of
--     Graph/Routes/Trails says how. The loop over the depths takes one round of fuel more than the
--     depth limit, which is enough for it to end by its own test.
--   Graph/Search, Graph/Search/Query: internal/graph/search.go, with the answers of its queries as
--     arguments.
--   Atlas/Probes, Graph/Inventory: internal/atlas/probes.go with the answer to each request as an
--     argument, and the writing and reading of a probe's properties in internal/graph/probe_metadata.go
--     and query.go. Fetch takes 500 identifiers a round, so their number is fuel enough.
--   Graph/Paths, Graph/Topology: Path, Subgraph and scanHotHops of internal/graph/queries_read.go and
--     internal/graph/reachable.go, from the rows of their queries on.
--   Store/Windows: PingWindowSummary of internal/store/window.go, and the bounded lists that the queries
--     of window.go and internal/store/timeseries.go name.
--   Alert/Manager: internal/alert/manager.go with the views of internal/api/views.go, and the lists of
--     internal/alert/store.go that it shows.
--   Graph/Conditions: EvaluateAlert and buildAlertCypher of internal/graph/alert.go. The pattern and the
--     columns of a query are a constant text for each scope, which stands for them.
--   Wiring, Wiring/Lists: parseIntCSV of main.go.
--   Base: numbers, byte strings, lists, maps with string keys, the backoff of the loops, and the
--     operations on float64 as a parameter (Base/Float); a theorem that needs a law of it says so.
--   Examples: tests, and the theorems at concrete inputs.
--
-- An int64 is an integer without bound, since no modelled operation comes near 2^63; loops are
-- structural recursion on the list, the number of rounds or the events, and, but for the walk of
-- IPRouteGraph, the batches of Fetch and the 20 digits of FormatInt, need no fuel.
--
-- Not modelled: ClickHouse, FalkorDB, SQLite, the MaxMind database, encoding/json and net/http, which
-- the source only calls; Cypher and SQL text, but for the conditions of an alert's query; the other
-- readers of the graph (internal/graph), the rest of the wiring in main.go, and the web interface.
pub mod Base
pub mod Pipeline
pub mod Store
pub mod Wiring
pub mod Api
pub mod Examples
pub mod Alert
pub mod Graph
pub mod Atlas
