-- ===== src/Lib.antt =====
-- A model of the Solana Prometheus exporter.
--
-- The program has a loop that watches the slots of the chain and an HTTP handler that answers each
-- scrape. Both ask the node through the RPC client; a scrape also asks an API which software versions
-- the Solana foundation requires. The loop writes counters and gauges, a scrape sends metrics, and
-- they share nothing but the configuration and the client.
--
-- The parts, and the files that model them:
--   cmd/solana-exporter/main.go       Main: the start, from the command line to the server; Metrics has
--                                     the registry, which is a parameter; the names of the metrics are
--                                     in Slots.Registering and Collector.Describing
--   cmd/solana-exporter/slots.go      Slots: State (`SlotWatcher`, and each call that leaves the
--                                     program as a value), Production, Infos, Rewards, Cleaning and
--                                     Watching (`WatchSlots`, `trackEpoch`, `closeCurrentEpoch`,
--                                     `moveSlotWatermark`), one function for each method and for each
--                                     part of a long one; the proofs on what it asks for are in
--                                     Requests, Quiet, Watermark, Advances, Rounds and FirstRound, on a
--                                     cleaning in Series, on labels in Vectors, on the interval in
--                                     Pace, on a node that follows a chain in Live, on the epochs in
--                                     their order in Order, on the order of a map in Orders, and on
--                                     light mode in Light; Registering is `NewSlotWatcher`
--   cmd/solana-exporter/collector.go  Collector: Desc (the descriptors of `NewSolanaCollector`, and
--                                     cmd/solana-exporter/desc.go), Votes, Node, Required, Versions
--                                     (`compareVersions`), Collecting (`Collect`) and Describing
--                                     (`Describe`); Sent, Labels, Light and Accounts are on what is
--                                     sent
--   cmd/solana-exporter/utils.go      Utils: Tracker, Schedule, Accounts, Unique, Blocks and Health;
--                                     `assertf` is in Exec
--   cmd/solana-exporter/config.go     Config: `ExporterConfig` and `NewExporterConfig`; Config.Cli:
--                                     `NewExporterConfigFromCLI`, whose argument is the list of the
--                                     flags that the command line sets, in its order
--   pkg/api/client.go, types.go       Api: both requests and the cache that they share; Api.Sharing:
--                                     calls that run at the same time, cut at the locks
--   pkg/rpc/responses.go, errors.go   Rpc.Types, Rpc.Errors and Rpc.Decoding
--                                     (`HostProduction.UnmarshalJSON`)
--   pkg/rpc/client.go                 Rpc.Transport (`getResponse`), Rpc.Queries (what each method
--                                     sends), Rpc.Methods (the methods, over the HTTP library), and
--                                     Rpc.Client, the interface that the other parts take as a
--                                     parameter; Rpc.Node makes one of the methods, on
--                                     requests that are read in Rpc.Questions. Rpc.Cluster
--   pkg/rpc/mock.go                   Rpc.Mock: the mock server's state and `SetOpt`, Answers
--                                     (`getResult`) and Serving (`handleRPCRequest`, and the server as
--                                     the HTTP library of a client); Slots.Mocked is the watcher on it
--   pkg/api/mock.go                   Api.Mock
--   pkg/slog/logger.go                Logging: the level that the environment sets
--
-- Function names are the source's in snake case. Base has the shared types and lemmas; Exec is the monad
-- in which the watcher and the collector run. A run gives a result, the calls it made as a list of
-- events in their order, and the state: the part's own and the world outside. A fatal log line ends the
-- process and an index out of range panics; both are a result that the rest of the run does not follow.
-- Tests has a concrete node on which everything is run.
--
-- Numbers: an `int64` or `int` is an integer, with the wrap-around of its sums and differences written
-- out; a `float64` is a parameter with the operations that the program uses. A string is the list of its
-- character codes. A map is an association list, and a loop over a map goes in that order, which may
-- be any.
--
-- Loops are structural recursion. `WatchSlots` is a function of the number of rounds before its context
-- is done, any number. `compareVersions` runs as many rounds as the longer version has parts. The digits
-- of a number are printed with one unit of fuel more than the number, which is more than it has digits.
--
-- The HTTP library, `json.Unmarshal`, the HTTP request of the API client and the clock are parameters
-- that may answer anything and change the world at each call; no theorem assumes anything of them but
-- what it states. Of the libraries these stops are modelled: `Counter.Add` panics at a negative value,
-- `time.NewTicker` panics unless its interval is positive, and `MustNewConstMetric` panics where the
-- number of label values is wrong. Its other stop, at a label value that is not valid UTF-8, cannot happen to a
-- string that is a list of character codes; bytes that are no characters are not modelled. `json.Marshal` of a request is taken to succeed.
--
-- Not modelled: how the flag library reads the text of the command line, the set-up of the logger and
-- the output of log lines, the help texts of the metrics, and the listener of the mock server. Of
-- the Prometheus library the registry is a parameter, of which a theorem assumes what `Register`
-- documents: a collector with valid descriptors whose names are new is registered.
-- Goroutines: the watcher starts a cleaning as an event, and a cleaning is a function of its own; each
-- call of a locked object is one step. The two are not interleaved step by step; Slots.Series.Apart
-- and Slots.Order are on the series and on the order of what they do.

pub mod Base
pub mod Exec
pub mod Logging
pub mod Rpc
pub mod Utils
pub mod Config
pub mod Metrics
pub mod Main
pub mod Slots
pub mod Api
pub mod Collector
pub mod Tests
