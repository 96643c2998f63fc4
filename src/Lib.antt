-- ===== src/Lib.antt =====
-- Gatex: the request path of an HTTP gateway, as functions and records, with the theorems about it.
--
-- A request that reaches the gateway is matched to a route by its path. The route's rate limiter and
-- response cache may answer it; else the route's backend pool is asked for an upstream. The pool's
-- circuit breaker gives a permit and its balancer a backend; the backend is called with a rewritten
-- URL; the outcome is recorded on the permit and the backend is released.
--
-- Around that stand, from the outside: the recovery of panics, the choice between the probes, the
-- scrape endpoint and the gateway, the log, the metrics, and the CORS headers. A handler is a tree of
-- the calls that it makes on its response writer and on the state of the process, so that a theorem
-- about a wrapper holds for every handler below it.
--
--  * Breaker: internal/breaker/breaker.go. `Acquire` is `acquire`, `RecordSuccess` and
--    `RecordFailure` are `record_permit`, `Permit.Cancel` is `cancel`, `TransitionTo` is
--    `transition_to`. Its children are about permits, moves between states, tripping, the probes of
--    a half-open breaker, and recovery.
--  * Balancer: internal/balancer/pool.go. `Pool.Acquire` is `acquire`, `Backend.Release` is
--    `release`; `nextRoundRobin` and `nextLeastConnections` keep their names.
--  * Cache: internal/cache/cache.go. `Get` and `Set` are `get` and `set`; the map is an association
--    list and the recency list a list of keys.
--  * RateLimiter: internal/ratelimiter/bucket.go and client_limiter.go. `allowAt` is `allow_at`,
--    `ClientLimiter.Allow` is `allow`.
--  * Routing: internal/proxy/gateway.go, `matchRoute`, `joinPath` and `rewriteRequestURL`.
--  * Upstreams: internal/proxy/gateway.go, `pool.acquire`, `serveRoute` and the callbacks of
--    `newReverseProxy`, over Breaker and Balancer; its child Requests interleaves the calls of many
--    requests.
--  * Config: internal/config/config.go, `Config.Validate` as `validate` and the functions it calls.
--  * HttpCache: internal/proxy/cache.go, what is cacheable, the key, and the capturing writer.
--  * Gateway: internal/proxy/gateway.go, `NewGatewayWithTransport`, over all the constructors.
--  * HealthChecker: internal/balancer/health_checker.go, `NewHealthChecker` and `Check`.
--  * Http: the part of net/http that the handlers stand on: header maps, requests, handlers as trees of
--    calls, and the server's response writer, on which `run` runs them.
--  * RequestMeta: internal/requestmeta/metadata.go; `Ensure` is `ensure`, `isSafeID` is `is_safe_id`.
--  * Process: the state that the handlers of the process share.
--  * Logging: internal/middleware/logging.go. `RequestLogger` is `request_logger`; `logged` is a
--    handler's run on `loggingResponseWriter`.
--  * Metrics: internal/metrics/prometheus.go. `Instrument` is `instrument`, and `measured` is a
--    handler's run on `responseWriter`.
--  * Middleware: internal/middleware/chain.go, api_key.go and recovery.go.
--  * Cors: internal/middleware/cors.go.
--  * Readiness: internal/metrics/health.go and circuit_breaker.go, with `UnavailablePools` and
--    `CircuitBreakerStates` of internal/proxy/gateway.go.
--  * Proxy: internal/proxy/gateway.go and cache.go, the handlers `ServeHTTP`, `rateLimit` and
--    `cacheResponses`, and the chain of a route. They reach their parts of the state through lenses.
--  * Command: cmd/gateway/main.go, `newGatewayHandler` and `configPathFromEnvironment`.
--  * Prelude: numbers, texts, lists, maps, results and float64.
--
-- State is passed explicitly: a method takes the object and returns the new one. A method of the
-- breaker, the cache or a limiter's shard holds its mutex from its first read to its last write,
-- and so is one step, and an interleaving is a list of calls. The balancer's `Acquire` holds a
-- mutex that does not guard the health and the connections of the backends: in `Balancer` a call
-- is one step all the same, and in `Upstreams.Requests` its scan may read anything of them.
-- `pool.acquire` and `serveRoute` hold no mutex: `Upstreams` has them alone, as one function, and
-- `Upstreams.Requests` as the calls that they make, each a step of its own, between which other
-- requests come. A pointer to a backend is the backend's place in its pool. The clock's readings
-- are arguments. Times and durations are nanoseconds as natural numbers; a duration of a
-- configuration is an integer. Generations wrap at 2 ^ 64, as does the sum in the rotation;
-- theorems about long runs bound the number of steps below that. Counts of connections and of
-- probes stay below the number of requests that are alive, and are natural numbers. A float64 is
-- an instance of the record `Float`, with the laws of `IsFloat` as hypotheses; `whole` is an
-- instance for which they hold.
-- Texts are lists of bytes. Loops are recursion on their
-- list or on the number of rounds left. `trim_space` has fuel, the length of its text, and each round
-- takes a byte at least; `decimal` has one round more than its number, and `format_hex` has 16, one
-- for each digit of 64 bits. Upper and lower case are those of ASCII.
--
-- A connection takes as many bytes of a part as a function says that is a parameter, and a part that
-- is taken in part is an error. Statuses are those that net/http accepts. Of a log entry and of the
-- histogram the durations are left out; the log's other messages are kept only as far as the panics
-- that were recovered. SHA-256, `json.Marshal`, the scrape endpoint and the redirects of
-- `http.ServeMux` are parameters.
--
-- Of a response, `Upstreams` keeps the status; its headers, its body and the metadata of the request
-- (its identifier, its route, the backend's name) are left out there. `Gateway` builds pools, limiters
-- and caches; `Proxy` puts the handlers of a route together. The body of a response from a backend
-- is copied by net/http/httputil and is not modelled: for `Proxy` the handler below is any handler.
--
-- Not modelled: reading YAML and the environment (a third-party node type), net/http's transport,
-- contexts, flushing and hijacking of a connection, goroutines that wait on tickers, the Prometheus
-- registry, and the start and the shutdown of the process. The escaped path of a URL and the parsers
-- of net/url are parameters.
pub mod Prelude
pub mod Breaker
pub mod Balancer
pub mod Cache
pub mod RateLimiter
pub mod HealthChecker
pub mod Config
pub mod Routing
pub mod Upstreams
pub mod Http
pub mod RequestMeta
pub mod Process
pub mod Logging
pub mod Metrics
pub mod Middleware
pub mod Cors
pub mod Readiness
pub mod Proxy
pub mod Command
pub mod HttpCache
pub mod Gateway
