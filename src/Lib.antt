-- ===== src/Lib.antt =====
-- A verification library of csm-metrics-powermax, the service that collects capacity, performance and
-- topology metrics of Dell PowerMax arrays for the volumes of a Kubernetes cluster and exports them
-- over OpenTelemetry.
--
-- The parts and their files:
--   Main        cmd/metrics-powermax/main.go: the settings from the environment (Settings,
--               Intervals, Atoi, Logging), the update of the connected arrays (Arrays), the server of
--               the program's own metrics (Server), configure, the callbacks and main as a whole
--               (Program) and the theorems on them (Updates)
--   Entrypoint  internal/entrypoint/run.go: Config and ValidateConfig (Config), the select loop of
--               Run as a function of its events (Loop), the goroutines that Run starts before it
--               (Startup, with their error channel), the liveness probe and the recording of
--               export failures (Probe); Tickers, Leadership, PerformanceExports, Intervals and
--               Startup.Failure hold the theorems
--   Exporter    opentelemetry/exporters/opentelemetry_collector_exporter.go: the start and the stop
--               of the exporter
--   Pmax        internal/k8spmax/k8spmax.go: the arrays of a proxy configuration (Arrays), their
--               clients and authentication (Connect), and what comes of them (Connected)
--   K8s         internal/k8s: the finders of volumes and storage classes, the cached cluster client
--               and the elector (Api)
--   Service     internal/service: the service and its accessors (Clients), the singleton collectors
--               (Instances, Collectors), the self-metrics (Observability), the exports with both
--               and what the loop does through them (Exports)
--   Metric      internal/service/metric: the base of the collectors (Base), volume handles (Handle),
--               the worker pool (Fanout, with its invariant, its termination, its refinement of an
--               abstract collection, what holds of its records, which of them may come first
--               two pools that share a job, and jobs visited in another order),
--               the pushers behind the pool (Push: Stream for performance, Batch for capacity), the
--               two stages of the topology collection (Pipeline), the three collectors (Capacity,
--               Performance, Topology) and the recorder (Recorder); Types holds the records of
--               metrictypes. Performance.SharedCache is the count cache under the concurrent
--               goroutines, Capacity.Collect and Performance.Collect are the collections as a
--               whole, their Schedules under every schedule, Capacity.Collect.Totals the totals of an
--               array against the listing; Isolation compares collections with other clients
--   Units       utilsconverter/unit_converter.go
--   Prelude     shared types and lemmas: texts, lists, maps, results, int64 numbers, float64
--   Examples    concrete inputs and the theorems applied to them
--
-- How they interact: Main reads the settings, connects the arrays through Pmax and gives them to the
-- Service. The loop of Entrypoint asks the service for exports; each export runs a collector of Metric
-- on the clients that the collector keeps. A collector lists the volumes through K8s, queries the
-- arrays in the worker pool and records what it gets through the Recorder.
--
-- How code and model correspond. A Go function keeps its name, in snake case. A Go error is its
-- message, and a (value, error) pair is a Result. A string is the list of its bytes. A map is an
-- association list; its order stands for the order in which range visits the entries, so a statement
-- for every list is one for every order. A nil pointer, interface or map is none. Numbers are native
-- naturals; int64 products wrap around as written. float64 is a record of operations, no law of which
-- is assumed. The PowerMax client, the meter, the cluster and the environment are records of
-- functions that the theorems take as arguments; a client answers the same question alike within
-- one collection. Logging and the measuring of time are left out, but for the clock of the count cache.
--
-- Concurrency. The goroutines of the gather functions are the step relation of Metric.Fanout: the
-- states that it reaches are those of every schedule; those of the topology collection are
-- Metric.Pipeline, and those of the push functions behind a pool are Metric.Push. The goroutines
-- that share the cache of group counts are the step relation of Metric.Performance.SharedCache,
-- those that share the maps of the recorder that of Metric.Recorder.Updates, the goroutines of the
-- startup and their error channel that of Entrypoint.Startup.Channel. The loop of Run is one
-- goroutine; what others decide (ticks, elections, errors, changed settings, cancellation) is in its
-- list of events, and a round sees one configuration; a callback that changes the configuration runs
-- between two rounds.
--
-- Loops are recursion on lists, so nothing runs on fuel. Not modelled: the informer, the watching of
-- the configuration files, the HTTP server of the self-metrics and the election itself, which are
-- library calls (their answers are parameters); internal/k8sutils, a copy of the reverse proxy's
-- utilities that no other package imports; the generated mocks. strings.ToLower and strings.EqualFold
-- are those of ASCII text. A call on the nil client of an active endpoint, which
-- GetPowerMaxArrays never stores, gives no records in the collections where the program would panic;
-- the probe's panics are modelled, and so are those of the calls of Run, as answers of its callees.
-- The meter runs a registered callback once, so that the wait for it always ends.
pub mod Prelude
pub mod K8s
pub mod Units
pub mod Metric
pub mod Service
pub mod Entrypoint
pub mod Exporter
pub mod Pmax
pub mod Main
pub mod Examples
