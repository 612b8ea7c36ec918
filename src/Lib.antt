-- ===== src/Lib.antt =====
-- BitBlocker: a forwardAuth daemon that blocks clients by the country of their address.
--
-- The parts and how they interact. cmd/bitblocker/main.go loads a configuration (internal/config),
-- builds a logger (internal/logging), fills the blocklist source (internal/blocklist/source.go) from
-- the disk cache (internal/diskcache), and starts the HTTP server (internal/server) and the scheduler
-- (internal/scheduler). The scheduler calls the fetcher (internal/fetcher), which downloads a database,
-- writes it through the disk cache, turns it into a trie (internal/mmdb, internal/blocklist/trie.go) and
-- swaps the trie into the source. The server reads the source at each request and at each heartbeat.
--
-- Which file models which part.
-- Base and its children: Boolean tests, lists, integers and results that the parts share.
-- Netip: the addresses and prefixes of Go's net/netip as sequences of bytes; Netip/Bits, their bits.
-- Blocklist/Trie: internal/blocklist/trie.go. `insert` is Insert, `contains` is Contains, `len` is Len;
--   a trie is two binary trees without sharing, and a dereference of nil is `none`.
--   Blocklist/Source: internal/blocklist/source.go.
-- Server/Readiness: internal/server/readiness.go. The state is the tracker's fields; each operation
--   returns the new state and the signals that it logs, with the readings of the clock as arguments.
--   Server/Readiness/Threads: the steps of many goroutines in `observe`, on the flag and the mutex.
--   Server/Readiness/Counting: the atomic operations of many goroutines on the counters of fail-open.
-- Server/ClientIp: internal/server/clientip.go, over any address parser.
-- Server/Handlers: internal/server/server.go. `handle_check`, `handle_healthz` and `beat` take the lookup
--   that the call read and return the server, the response and the log.
--   Server/Running: Run of the server. `Step` is one event of Run, of its listener's goroutine, of its
--   heartbeat, or one handler; `Reach` gives the states of a run, with the state of its context.
--   Server/Routing: Handler, with the cleaning, decoding and matching of paths by http.ServeMux.
-- Scheduler: internal/scheduler/scheduler.go. `cold_start_from` is the loop of runColdStart, on fuel; the
--   budget of attempts is enough fuel.
--   Scheduler/Running: Run of the scheduler. `Step` is one event of the cold start, of Run behind it, or
--   of a job of the cron; the cron is a record of operations with the laws that robfig/cron documents.
--   Scheduler/Running/Met: what a run has met in its cold start, as the world of the loop's function.
-- Config: internal/config/config.go. Logging: internal/logging/logging.go.
-- Mmdb: internal/mmdb/loader.go, over the rows that the database reader yields.
-- Diskcache: internal/diskcache/cache.go. A file system maps paths to files; `write` returns every state
--   that it passes through, for each point at which a call may fail.
-- Fetcher: internal/fetcher/fetcher.go. `refresh` maps the fetcher, the source and the files to the next
--   ones; the HTTP client, the gzip reader and the database reader are parameters.
-- Daemon: cmd/bitblocker/main.go, from the loaded configuration to the constructed components.
--   Daemon/Running: runComponents, whose steps are those of the server, of the scheduler, and its own.
--   Daemon/Entry: main and run, from the command line to the exit code.
--
-- Numbers. A Go int or int64 is an integer `ℤ`; a shift of an int64 and the uint64 counters wrap at 2^64
-- as written. A time is the number of its nanoseconds since 1970, a duration an integer number of them;
-- a difference of times is exact, where Go stops at 292 years.
-- `strconv.Itoa` runs on fuel of 20 digits, which an int64 does not exceed.
--
-- A step relation has no fuel: the theorems on it bound the moves of any run, and say that a move is
-- possible until the end.
--
-- Not modelled: the logger in the context of a request, which is the server's;
-- the interleavings of concurrent calls other than those on the readiness tracker; the timers and the timeout
-- of a refresh, which stand as events that come at any time or not; the rendering of log lines and the
-- message on standard error; the directories and permissions of the file system, and what it loses
-- without a `Sync`; and the escaping of the path in the Location of a redirection.
pub mod Base
pub mod Netip
pub mod Blocklist
pub mod Server
pub mod Scheduler
pub mod Config
pub mod Logging
pub mod Mmdb
pub mod Diskcache
pub mod Fetcher
pub mod Daemon
