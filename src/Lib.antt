-- ===== src/Lib.antt =====
-- AsyncTraceDoctor audits OpenTelemetry traces of messaging systems: a receiver keeps recent spans in a
-- bounded store, a correlator attributes each consumer span to the producer spans that sent it, and rules
-- over the correlated spans report what breaks causality.
--
-- Which file models which part:
--   Model        internal/model/model.go: Link, Span and their accessors, toInt; time.Time and
--                time.Duration as nanoseconds; what these use of strconv and fmt
--   Store        internal/server/store.go: Store as a record, NewStore, Add, Snapshot, evictLocked and
--                what they call, each as one step under the store's lock, the moment on the clock an
--                argument. Store.Defs holds the state and the operations, Store.Digest the identity, the
--                content hash and the size of a span, Store.Admission the description of Add without index,
--                hashes or counters, Store.Reachable the histories of a store
--   Correlation  internal/correlation/correlation.go: Correlate and all that it calls. Correlation.Indexes
--                holds the maps that it builds, Correlation.Nearest the walk along a route by time,
--                Correlation.Compatible the tests on two spans, Correlation.Defs the stages and their
--                result, Correlation.Evidence what each method rests on
--   Ingest       internal/ingest/otlp.go: Ingest.Reading holds ReadPath, readFile, DecodeJSON and
--                DecodeRequestJSON, Ingest.Dedup deduplicateSpans, Ingest.Tracking the state of its loop,
--                Ingest.Identifiers normalizeIDs, Ingest.Encodings hexadecimal and base64, Ingest.Conversion
--                FromProto over the getters of the generated messages
--   Config       internal/config/config.go: the configuration, Validate and ViolatesPolicy, and in
--                Config.Validity what Validate accepts
--   Rules        internal/rules/engine.go: Rules.Engine holds run, Audit, AuditWindow and ViolatesPolicy,
--                Rules.Findings the Finding and its making, Rules.Scope the scope of a rule, Rules.Semantic
--                the checks of one span, Rules.Cases what run reports of spans and correlations,
--                Rules.Duplicates the attempts at one message, Rules.Windows the watermark, the closing of a
--                window and splitAttemptWindows, Rules.Batch batchLinkCoverage, Rules.Absence the orphans and
--                the producers that an edge expects, Rules.Topology the match of edges, Rules.Edges
--                buildTopology, Rules.Drift topologyFindings and missingRequiredConsumers, Rules.Summaries
--                summary, Rules.Telemetry baseCoverage
--   Service      internal/server/server.go and Observe of internal/server/metrics.go: Service.State holds
--                the receiver's state, New, Export, audit, ReloadConfig, the probes and the options,
--                Service.Observe the metrics of reports, Service.Decompress decompressContext,
--                Service.Histories the sequences of steps that a receiver goes through, Service.Reloads which
--                configuration is in force after them
--   Command      cmd/async-trace-doctor/main.go: the audit command with the exit codes, and Load of
--                internal/config/config.go
--   Report       internal/report/report.go: Report.Cells holds trim and escapeMarkdownCell, Report.Layout
--                WriteTable and WriteMarkdown
--   Auth         internal/server/auth.go: validBearer and which requests pass it
--   Tests        runs of all of these on sample spans
--   Common       what Go's strings, maps, hash/fnv and integers are here
--
-- The receiver adds to the store what FromProto makes of a request, and its audits hand the store's Snapshot
-- to AuditWindow, which is Correlate and the rules on its result; the audit command does the same with Audit on
-- what ReadPath accepts. A report of the receiver goes to the
-- metrics and to the probes, one of the command to the table and to Markdown.
--
-- Representation:
--   - A Time is a number of nanoseconds since Go's zero time, so that IsZero is a test for 0; a Duration is
--     an integer, and Sub and negation keep to 64 bits as in Go.
--   - A span is named by its position in the input, as in the source. A panic is the result `none`.
--   - A map of attributes is a list in the order of its keys. reflect.DeepEqual on two spans is equality, but
--     false where an attribute is a NaN: the spans are taken to share no map, as those of two exports do not.
--     Two spans of one request that share the map of their resource are equal in Go with a NaN in it, and
--     zeros of two signs in the attributes of a link are; both are told apart here.
--     A floating-point value is the text that fmt prints for it together with its conversion to an int.
--   - Go iterates over maps in any order; nothing modelled depends on it.
--   - Counters of uint64 wrap; the store's byte count does not, since no memory holds spans enough. The
--     store's limits are natural numbers: a limit of bytes at or below zero means none, which is 0 here.
--   - Case is folded for ASCII letters alone: the words that are compared are protocol words.
--   - sort.Slice and sort.Sort order equal elements as they like: the sorting of attempts and of findings is
--     a parameter, of which a theorem says what it needs. The edges of a topology have one order.
--   - The evidence of a finding is a map to values of a few types; a duration and an instant stand for their
--     texts. The ratio of the summary is a quotient of two numbers, a latency sample stands for its seconds.
--   - A report is the list of its lines, written without a failure; the percentage in it is a parameter.
--   - The generated OTLP messages are a parameter: types, and getters that answer their fields.
--   - What the file system answers is an argument of ReadPath. The spaces that are trimmed are those of ASCII;
--     the sizes of the files together stay below 2^63.
--   - The gzip reader is what each round of the loop meets; the deadline makes the rounds finitely many.
--   - An audit of the receiver is one step: no export comes between its snapshot and its report. The SHA-256
--     digest of a service name is a parameter.
--   - make panics above a capacity of 2^44 elements of two words, which is 2^48 bytes.
--
-- Fuel: the binary search and the walk of nearestRouteCandidates run on the length of the route, which each
-- step of either shrinks by one at least; the printing of a number runs on the number.
--
-- Not modelled: the parsing of JSON and YAML, which is third-party code; the listeners, routes and encodings
-- of the HTTP and gRPC servers; the rate limit, which is arithmetic on floating-point numbers; the report as
-- JSON, which encoding/json writes. Logging, the flags
-- and the serve command, the evaluation harness and the demo services are input and output.
pub mod Common
pub mod Model
pub mod Store
pub mod Correlation
pub mod Ingest
pub mod Config
pub mod Rules
pub mod Service
pub mod Report
pub mod Command
pub mod Auth
pub mod Tests
