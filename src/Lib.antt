-- ===== src/Lib.antt =====
-- nebula-mnemosina polls Nebula lighthouses over SSH and keeps what it sees in PostgreSQL.
--
-- The parts, and how they meet. main (cmd/nebula-mnemosina/main.go) reads the configuration
-- (internal/config/config.go), sets up telemetry (internal/telemetry/telemetry.go) and the pool,
-- serves HTTP (internal/httpserver), runs the migrations (internal/migrate/migrate.go), and starts
-- the pruner and the collector. The collector (internal/collector/collector.go) polls every
-- lighthouse at once: each poll runs six commands through the SSH client
-- (internal/sshclient/client.go), parses the answers (internal/nebula/parser.go) into the data model
-- (internal/model/model.go), and sends the result through a channel to the round, which counts it
-- (internal/metrics/metrics.go) and hands it to the storage (internal/storage/storage.go). The
-- storage writes it in one transaction with the generated queries of internal/db. The pruner
-- (internal/retention/retention.go) deletes what is too old, and the HTTP server lists the peers and
-- lighthouses for Prometheus to scrape.
--
--   Prelude      names of the libraries, Boolean tests, lists, and integers over native numbers
--   Text         Go strings as bytes, with the functions of package strings that are called
--   Errors       Go errors: sentinels, fmt.Errorf, errors.Join, errors.Is, Error()
--   Net          net.SplitHostPort and net.JoinHostPort
--   Time         time.Time and time.Duration in nanoseconds
--   Model        internal/model/model.go
--   Config       internal/config/config.go: the records here; Lighthouses is parseLighthouses,
--                Validate the checks, Parse the function Parse
--   Nebula       internal/nebula/parser.go
--   Metrics      internal/metrics/metrics.go
--   Collector    internal/collector/collector.go: Poll is pollLighthouse, Fanout the goroutines of
--                runRound, Round what runRound does behind them, with Round/Stored on Storage,
--                Service the loop of Run
--   Db           internal/db: rows and sessions here, Params the parameters, Select what the queries
--                use of SQL (DISTINCT ON, GROUP BY, ORDER BY), PollRuns the statements of
--                poll_runs.sql.go that write, Peers its query for the present peers, Retention the
--                statements of retention.sql.go, Views the materialized views of
--                db/migrations/views/001_grafana_views.sql with their indexes and their refresh
--   SshClient    internal/sshclient/client.go: Signer is loadSigner, HostKeys the host key
--                callbacks, Client New and Run
--   Migrate      internal/migrate/migrate.go
--   Telemetry    internal/telemetry/telemetry.go
--   Storage      internal/storage/storage.go: conversions here, Save is SavePollResult, with the
--                rows that each part of it adds (Rows, Loops, Reporters, Body), the whole of it
--                (Exact), what it keeps (References), and why its rows are valid (Valid, Total,
--                Succeeds); Expire is the deletions, Peers the list of peers, the views (Refresh) and
--                the chunks; Consistent the tables that any sequence of these operations leaves
--   Retention    internal/retention/retention.go: Prune and what it calls; Loop is Run, Ends how a
--                prune ends, Stored the pruner on Storage
--   HttpServer   internal/httpserver: prometheusTargetGroups here (Targets, Wanted), Handlers the
--                handlers and routes, Lifecycle the goroutines that listen and shut down, Database
--                the handlers on Storage
--   Main         cmd/nebula-mnemosina/main.go
--   Tests        runs at concrete inputs
--
-- State is passed explicitly. The clock, the SSH runner, a store behind an interface, kong,
-- json.Unmarshal and json.Marshal, the packages of golang.org/x/crypto, tern and the OpenTelemetry
-- libraries are parameters. A database session is its tables, its sequences and a list of the
-- failures to come, so that a statement can fail at any place, BEGIN and COMMIT included: before it is
-- carried out, or behind that, when only its answer is lost. A COMMIT that reports an error may thus
-- have committed. A row that breaks a constraint of db/migrations/core/001_schema.sql fails too. An
-- instant that goes to the database, in a row or as a cutoff, is rounded down to microseconds. The known_hosts file likewise comes with the failures
-- of the operations on it, and a write that fails may have written a part. The goroutines of a round
-- are a step relation, and a round reads its results in any order that these steps can leave in the
-- channel. The only fuel is that of the pruner's batch loop, one unit for a batch: the expired rows
-- divided by the batch size, and one more, are enough.
--
-- The life of the HTTP server is a step relation too, in which what ListenAndServe and Shutdown
-- return is a choice of the environment. Of PostgreSQL, collation, date_bin, percentile_cont and the
-- text of an array are parameters; of TimescaleDB, drop_chunks, of which only is relied on that it
-- removes rows of hypertables.
--
-- Not modelled: log lines (but for the errors of the HTTP server) and tracing spans, which nothing
-- reads; signals, which end the context; the routing of paths that the mux cleans first; the SSH
-- transport and its timing, which an attempt gives as what each step returns; the version text;
-- internal/db/db.go, which only passes statements on to the connection; other programs that write
-- the database or the known_hosts file at the same time. Bytes that are not ASCII are kept, but
-- white space is ASCII white space, and the names quoted in errors are escaped as ASCII.
pub mod Prelude
pub mod Text
pub mod Errors
pub mod Net
pub mod Time
pub mod Model
pub mod Config
pub mod Nebula
pub mod Metrics
pub mod Collector
pub mod Db
pub mod SshClient
pub mod Migrate
pub mod Telemetry
pub mod Storage
pub mod Retention
pub mod HttpServer
pub mod Main
pub mod Tests
