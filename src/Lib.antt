-- ===== src/Lib.antt =====
-- Verification of chproxy, the proxy and load balancer in front of ClickHouse (Go).
--
-- A request is authenticated (`getScope`, proxy.go), gets a scope with a user, a cluster user and
-- a host (scope.go), is counted against the limits or waits in the queues, is rewritten for
-- ClickHouse, and is sent with retries or answered from the cache (proxy.go, cache/).
--
-- Parts:
-- - Topology: internal/topology/node.go and internal/counter/counter.go; a `Node` with its
--   activity, connections and penalty. Topology/Load is about its penalty, the two steps of
--   `Penalize` interleaved with those of other calls.
-- - Http: what is read of net/http's requests. Utils: utils.go; Utils/Auth (`getAuth`, sessions),
--   Utils/Query (`getFullQuery`), Utils/Comments (`skipLeadingComments`, `canCacheQuery`),
--   Utils/Hashes, and Utils/Snippet, `getQuerySnippet` over the `cachedReadCloser` of io.go.
-- - Scope: scope.go. Scope/Types has its structs, Scope/Pick the choice of replica and host,
--   Scope/Limits `inc` and `dec`, Scope/Queue `incQueued` and `waitUntilAllowStart`, Scope/Timeouts
--   the timeouts, Scope/Decorate `decorateRequest`. A pointer to a node is a `HostRef`, and the
--   cluster that holds it is passed on from step to step.
-- - Setup: Setup/Types has the structs of config/config.go and the proxy's state; Setup/Build the
--   constructors of scope.go; Setup/Apply `applyConfig` and the caches' constructors (proxy.go,
--   cache/); Setup/Find `getUser` and `getScope`.
-- - Proxy: proxy.go. Proxy/Writers has the response writers of io.go, Proxy/Retry
--   `executeWithRetry`, Proxy/Forward `proxyRequest` and `killQuery`, Proxy/Transaction
--   `completeTransaction`, Proxy/Serve `serveFromCache`, and Proxy/Handler `ServeHTTP`, which
--   composes them all; Proxy/Headers is proxy_handler.go.
-- - Cache: cache/. Cache/Store is the interface of a store and its law, which Cache/Files
--   (filesystem_cache.go) and Cache/Redis (redis_cache.go) fill; Cache/RedisStream is the
--   `redisStreamReader`, which fetches a value in ranges. Cache/Registry is the registry of
--   transactions in memory, Cache/RedisRegistry the one in Redis, Cache/Await the waiting for a
--   transaction, Cache/TmpFile the temporary file of a response, Cache/Codec the stored formats,
--   Cache/Key the keys, Cache/Key/Format their texts.
-- - Config: config/. Config/Validate has the checks of the sections of a file, Config/Load what
--   `LoadFile` does behind the decoding, Config/Duration the durations of types.go, Config/Secrets
--   `withoutSensitiveInfo`, Config/Networks the lists of networks.
-- - Server: main.go; `serveHTTP` in front of the proxy (Server/Gate), and `applyConfig` and
--   `reloadConfig`, which compose Config/Load and Setup/Apply (Server/Reload).
-- - Decompress: chdecompressor/decompressor.go, the reader of ClickHouse's compressed format.
-- - Base has the shared types and lemmas; Tests the concrete examples.
--
-- A machine integer is a natural number with its wrap-around written out; a duration is in
-- nanoseconds; a Go string is its bytes; a map is an association list in the order of its `range`.
-- What other code does meanwhile (other requests, the context, the reverse proxy of net/http) is
-- an argument: a list of naps, attempts, actions or operations. Parameters stand for the client of
-- Redis, the rate limiter of golang.org/x/time/rate, gzip, lz4 and zstd, SHA-256, the verb `%q`,
-- the parsing of URLs and networks, the cut of a reader's bytes into calls, the opening of a
-- cache's store, the session hash where any hash will do, and `strings.TrimSpace` in `sortHeader`.
--
-- Loops: skipping comments takes one round for each byte at most, waiting in the queue as many
-- naps as sleeps fit before the deadline, retries one attempt more than their number, and waiting
-- for a transaction grace / 100 ms + 3 rounds, which is also the fuel of `serveFromCache`; a
-- clean-up has three rounds, as in the code; numbers are printed with at most 64 digits, more than
-- any 64-bit number has.
--
-- A reader is read by a list of calls, with its buffers' sizes; Decompress needs one call for each
-- byte and each block and one more, a stream from Redis one for each byte and two more, which is
-- the number that `Get` makes for its temporary file.
--
-- Not modelled: decoding by the YAML library with environment variables and byte sizes, metrics,
-- logs, the statistics of caches, the options of the Redis client, listeners, certificates and
-- signals (main.go). What the file system answers (a temporary file that cannot be created,
-- flushed or rewound, a write that breaks off, a file that cannot be opened, read or removed, a
-- directory that cannot be read) is an argument, and so are the random numbers of the clean-up.
pub mod Base
pub mod Topology
pub mod Http
pub mod Utils
pub mod Scope
pub mod Setup
pub mod Config
pub mod Server
pub mod Decompress
pub mod Cache
pub mod Proxy
mod Tests
