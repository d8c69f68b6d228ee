-- ===== src/Lib.antt =====
-- TransisiDB: a proxy between MySQL clients and a MySQL server that rewrites writes to currency
-- columns. This library models the proxy's path of a byte, its protection of the server, the wire
-- format both rest on, the rewriting of a write, the backfill of old rows, and the configuration with
-- the API that manages it, and proves what each of them promises.
--
-- The parts, and the files that model them:
-- Prelude: shared names, Boolean tests on numbers, lists, texts as bytes.
-- Protocol (pkg/protocol). Bytes: byte lists and the little-endian numbers of encoding/binary.
--   Packet: packet.go on a connection, which is the unread input, the output so far and the number
--   of writes that the peer still takes; a read at the end of input and a write beyond that number
--   are errors. Lenenc and Response: resultset.go; an index or slice out of bounds is the result
--   `panic`. Commands: commands.go. Handshake: handshake.go.
-- Session (internal/proxy/session.go). Io: a session is the client's connection, the backend's and
--   the fields `inTx` and `database` with the copies that the backend connection keeps; an
--   operation gives a value, an error or `stuck`, each with the state it leaves. Forward:
--   `forwardCommand` and `handlePrepare`. Query: `handleQuery`. Commands: the handlers and the loop
--   of `handleCommands`. Auth: `Handle`.
-- Parser (internal/parser/parser.go): the analysis of a statement; Parser.Rewrite: the rewriting,
--   and the part of `handleQuery` that parses, converts and rewrites. A map is a function, a text a
--   list of bytes.
-- Breaker (internal/proxy/circuit_breaker.go): the circuit breaker; the time is an argument and
--   the counters wrap.
-- Pool (internal/proxy/backend_pool.go): acquiring, releasing and closing under the mutex;
--   Pool.Cleanup: the worker and its cleanups on the channel itself; Pool.Races: the same
--   operations cut into their atomic steps; Pool.Ledger: histories of clients and cleanups.
-- Dualwrite (internal/dualwrite/orchestrator.go): the other client of the parser, which converts
--   integers only and executes the rewritten query in a transaction.
-- Backfill (internal/backfill): Tracker: progress.go; Backfill itself: the loop of worker.go. The
--   database's answers and the ready branch of the select are a list of timed events, and the loop
--   is recursion on it.
--   Backfill.Control: `Pause`, `Resume` and `Stop`, each a move up to its blocking send, and the
--   goroutine of `Start` as the place where it waits. Backfill.Table: the same loop on the rows of a
--   table, behind an interface of the statements that it sends. Backfill.Report: the snapshot of a
--   progress and its text.
-- Config (internal/config). Config itself: the structures, `Validate` and `Load` of config.go.
--   Config.Redis: the interfaces of Redis and of JSON; Config.Memory: an implementation by lists.
--   Config.Store: redisstore.go, its operations on keys, their history as a map of tables, and the
--   loop that watches for reloads.
-- Api (internal/api/server.go): the key, the handlers and their routes on a store of Config.
-- Rounding (internal/rounding/engine.go): the engine over an interface of floating-point numbers.
--   Ties: the laws of these numbers and of package math, and how the engine rounds.
-- Simulation (internal/simulation/simulator.go): which requests are simulated, and the answer.
-- Session.Serve: the ends of `Handle` in session.go, where the backend connection comes from and
--   where it goes.
-- Listener (internal/proxy/listener.go): the accept loop, the goroutine of each client and `Stop`,
--   as moves of a schedule; the functions give `none` where a goroutine has to wait.
--   `Acquire` is one move there, and is cut in two in Proxy and in Pool.Races.
-- Logger (internal/logger/logger.go): the level, and which calls write a line. Database
--   (internal/database/pool.go): the connection string, the start and the health check.
-- Proxy (cmd/proxy/main.go): the process, with the listener, the cleanup worker of the pool and the
--   goroutine of the signal, each step under a schedule. Its state adds to that of Listener the
--   sessions that are inside `Acquire`, the worker and the exit status. Crashes: a `Stop` that meets
--   an `Acquire`.
-- Startup (cmd/api/main.go): from the configuration file to the server of Api on a store of Config
--   that is filled from it.
-- Program (cmd/backfill/main.go): the tests before the job and the report after it.
-- Every part keeps its witnesses and tests in the file Examples below it.
--
-- A session is served by a connection that the listener's goroutine acquires from Pool, and closes it
-- at its end without a call of `Release`; the packets of a session are those of Protocol. Api writes
-- the store of Config, and validates a configuration before. Program loads a configuration and runs
-- Backfill with it; Simulation converts with Rounding. Startup fills the store of Config that Api then
-- serves; Proxy runs Listener beside the worker of Pool.Cleanup. The texts that Session forwards and
-- those that Dualwrite executes come from the same rewriting of Parser.
--
-- Loops that read run on fuel: one round more than there are unread bytes. Each round takes a packet
-- of at least four bytes or ends the loop, so that this is enough, and `stuck` stands for the fuel's
-- end. A cleanup runs on any fuel: it needs one round more than there are connections. A backfill of a
-- table needs one round more than there are rows to convert, as each batch but the last converts one.
-- What a count of packets asks for is recursion on that count.
--
-- The theorems on a session hold for every function that says whether a query is rewritten and into
-- which text; `rewritten` of Parser.Rewrite is the one that the program uses.
--
-- Parameters: the SQL library, with its parser, printer and literals; the dialer; the health check
-- of a connection; the clock; Redis and JSON, with their laws; floating-point numbers and package
-- math, with their laws; the YAML library; the answers of database/sql, and the SELECT and UPDATE
-- of the table that is migrated. Not modelled: the text of log lines; metrics, which are counters
-- of a library; the closing of the configuration store; the shutdown of cmd/api; the debugging
-- programs.
pub mod Prelude
pub mod Breaker
pub mod Protocol
pub mod Parser
pub mod Config
pub mod Api
pub mod Rounding
pub mod Simulation
pub mod Session
pub mod Listener
pub mod Backfill
pub mod Program
pub mod Proxy
pub mod Startup
pub mod Logger
pub mod Database
pub mod Dualwrite
pub mod Pool
