-- ===== src/Gateway.antt =====
-- internal/proxy/gateway.go: how `NewGatewayWithTransport` builds a gateway from a configuration. A
-- pointer to a pool is the pool's name; the clocks' first reading is `now`.
pub mod Building
pub mod Start
mod Tests
use gatex.Prelude.{
  ℕ, zero, suc, ◌+◌, Bool, true, false, not, List, [], ◌∷◌, map, Option, none, some, Result, ok,
  err, ◌>>=◌, if◌then◌else◌,
}
use gatex.Prelude.Float.{Float}
use gatex.Prelude.Text.{Text}
use gatex.Config.{
  Config, ConfigError, PoolConfig, RouteConfig, RateLimit, CacheConfig, ParsedUrl, validate,
}
use gatex.Breaker.{new_with_config}
use gatex.Breaker
use gatex.Balancer.{PoolError, new_pool_with_strategy}
use gatex.Balancer
use gatex.HealthChecker.{CheckerError, HealthChecker, new_health_checker}
use gatex.Cache.{CacheError, Cache, new_with_clock}
use gatex.RateLimiter.{LimiterError, ClientLimiter, new_client_limiter, default_options}
use gatex.Upstreams.{Upstream, BackendPool}

pub data StartError : Type 0 where
  invalid_configuration : ConfigError → StartError
  nil_transport : StartError
  pool_error : PoolError → StartError
  checker_error : CheckerError → StartError
  breaker_error : Breaker.ConfigError → StartError
  parse_error : StartError
  limiter_error : LimiterError → StartError
  cache_error : CacheError → StartError

-- A pool with its health checker.
pub record GatewayPool : Type 0 where
  pub pool : BackendPool
  pub health_checker : HealthChecker

pub record GatewayRoute (F : Type 0) : Type 0 where
  pub path_prefix : Text
  pub backend_pool : Text
  pub limiter : Option (ClientLimiter F)
  pub response_cache : Option Cache
  pub protected : Bool

pub record Gateway (F : Type 0) : Type 0 where
  pub pools : List (Text × GatewayPool)
  pub routes : List (GatewayRoute F)

-- `return nil, fmt.Errorf("...: %w", err)`.
abbrev pub wrap {ℓ} :
    {A : Type ℓ} {E : Type 0} → (E → StartError) → Result E A → Result StartError A
wrap f (ok a) = ok a
wrap f (err e) = err (f e)

module _ (parse : Text → Option ParsedUrl) where
  -- The loop over the backends of a pool, from the given index.
  pub build_upstreams : ℕ → List Text → Result StartError (List Upstream)
  build_upstreams index [] = ok []
  build_upstreams index (url ∷ urls) =
      let rest = build_upstreams (index + 1) urls in
      elim (parse url) [
        | none ↦ err parse_error
        | some u ↦ rest >>= (λ us. ok (record { backend = index; target = url } ∷ us))
      ]

  -- The body of the loop over the pools.
  pub build_pool : PoolConfig → Result StartError GatewayPool
  unfolding build_upstreams
  build_pool c =
      wrap pool_error (new_pool_with_strategy c.backends c.strategy) >>= (λ balancing_pool.
        wrap checker_error
          (new_health_checker c.health_check.interval c.health_check.timeout c.health_check.path)
        >>= (λ health_checker.
            wrap breaker_error (
              new_with_config
                (record {
                  failure_threshold = c.circuit_breaker.failure_threshold;
                  open_timeout = c.circuit_breaker.open_timeout;
                  half_open_max_requests = c.circuit_breaker.half_open_max_requests;
                })
                true)
            >>= (λ circuit_breaker. build_upstreams 0 c.backends >>= (λ upstreams. ok (record {
              pool = record {
                balancer = balancing_pool;
                circuit_breaker = circuit_breaker;
                upstreams = upstreams;
              };
              health_checker = health_checker;
            })))))

  pub build_pools : List (Text × PoolConfig) → Result StartError (List (Text × GatewayPool))
  unfolding build_pool
  build_pools [] = ok []
  build_pools ((name, c) ∷ cs) =
      let rest = build_pools cs in build_pool c >>= (λ p. rest >>= (λ ps. ok ((name, p) ∷ ps)))

pub build_cache : Option CacheConfig → Result StartError (Option Cache)
build_cache none = ok none
build_cache (some c) =
    wrap cache_error (new_with_clock c.ttl c.max_entries true) >>= (λ k. ok (some k))

module _ {F : Type 0} ⦃f : Float F⦄ where
  -- The limiter of a route, where its own limit or the default one has a positive rate.
  pub build_limiter : ℕ → RateLimit F → Result StartError (Option (ClientLimiter F))
  build_limiter now limit =
      if f.lt (f.of_nat 0) limit.requests_per_second
      then wrap limiter_error
          (new_client_limiter limit.requests_per_second limit.burst default_options now)
        >>= (λ l. ok (some l))
      else ok none

  -- The body of the loop over the routes.
  pub build_route : ℕ → Config F → RouteConfig F → Result StartError (GatewayRoute F)
  unfolding build_limiter build_cache
  build_route now c r =
      build_limiter now (elim r.rate_limit [ none ↦ c.rate_limit | some limit ↦ limit ])
      >>= (λ limiter. build_cache r.cache >>= (λ cache. ok (record {
        path_prefix = r.path_prefix;
        backend_pool = r.backend_pool;
        limiter = limiter;
        response_cache = cache;
        protected = r.protected;
      })))

  pub build_routes : ℕ → Config F → List (RouteConfig F) → Result StartError (List (GatewayRoute F))
  unfolding build_route
  build_routes now c [] = ok []
  build_routes now c (r ∷ rs) =
      let rest = build_routes now c rs in
      build_route now c r >>= (λ route. rest >>= (λ routes. ok (route ∷ routes)))

  -- `has_transport` says that the transport is not nil.
  pub new_gateway_with_transport :
      (Text → Option ParsedUrl) → ℕ → Config F → Bool → Result StartError (Gateway F)
  unfolding build_pools build_routes
  new_gateway_with_transport parse now c has_transport = elim (validate parse c) [
    | some e ↦ err (invalid_configuration e)
    | none ↦
        if not has_transport
        then err nil_transport
        else build_pools parse c.backend_pools >>= (λ pools.
          build_routes now c c.routes
          >>= (λ routes. ok (record { pools = pools; routes = routes })))
  ]
