-- ===== src/Gateway/Start.antt =====
-- A configuration that internal/config/config.go accepts starts a gateway: no constructor called by
-- `NewGatewayWithTransport` of internal/proxy/gateway.go fails after validation.
use gatex.Prelude.{
  ℕ, ◌+◌, ◌^◌, ◌<◌, ◌≡◌, inl, inr, refl, true, false, List, [], ◌∷◌, Option, none, some, ok, arith,
  All, Bool-cases, Result-cases, length,
}
use gatex.Prelude.Dict.{lookup}
use gatex.Prelude.Float.{Float}
use gatex.Prelude.Int.{ℤ, is_pos}
use gatex.Prelude.Text.{Text, text_eq}
use gatex.Config.{PoolConfig, ParsedUrl, RateLimit, CacheConfig, RouteConfig, Config, validate}
use gatex.Config.Spec.{IsCacheConfig, IsRateLimit}
use gatex.Config.Routes.{IsPoolConfig, IsRouteConfig}
use gatex.Config.Valid.{validate_iff}
use gatex.Cache.{Cache, new_with_clock}
use gatex.RateLimiter.{ClientLimiter, new_client_limiter, default_options}
use gatex.Upstreams.Verdicts.{IsReady}
use gatex.Gateway.Building.{IsParser, build_pool-ok}
use gatex.Gateway.{
  GatewayPool, GatewayRoute, Gateway, build_pools, build_limiter, build_cache, build_route,
  build_routes, new_gateway_with_transport,
}

-- A pool of fewer than 2 ^ 63 backends.
abbrev pub IsSmall : Text × PoolConfig → Type 0
IsSmall entry = length entry.1.backends + length entry.1.backends < 2 ^ 64

abbrev pub IsReadyEntry : Text × GatewayPool → Type 0
IsReadyEntry entry = IsReady entry.1.pool

module _ (parse : Text → Option ParsedUrl) (laws : IsParser parse) where
  -- Every pool is built ready, and under its name.
  build_pools-ok :
      (cs : List (Text × PoolConfig))
      → All (IsPoolConfig parse) cs
      → All IsSmall cs
      → (ps : List (Text × GatewayPool)) × (build_pools parse cs ≡ ok ps)
        × All IsReadyEntry ps
        × ((name : Text) (c : PoolConfig)
            → lookup name cs ≡ some c
            → (g : GatewayPool) × (lookup name ps ≡ some g))
  unfolding build_pools lookup
  build_pools-ok [] v s = ([], refl, tt, λ name c e. absurd (cc))
  build_pools-ok ((name, c) ∷ cs) (v, vs) (s, ss) =
      let (g, made, ready) = build_pool-ok parse laws name c s v in
      let (ps, rest, all_ready, found) = build_pools-ok cs vs ss in
      ((name, g) ∷ ps, rw (made, rest) refl, (ready, all_ready), named name g c ps cs found)
    where
      named :
          (name : Text) (g : GatewayPool) (c : PoolConfig) (ps : List (Text × GatewayPool))
          (cs : List (Text × PoolConfig))
          → ((q : Text) (c : PoolConfig)
              → lookup q cs ≡ some c
              → (g : GatewayPool) × (lookup q ps ≡ some g))
          → (q : Text) (d : PoolConfig) → lookup q ((name, c) ∷ cs) ≡ some d
          → (h : GatewayPool) × (lookup q ((name, g) ∷ ps) ≡ some h)
      named name g c ps cs found q d e = elim (Bool-cases (text_eq name q)) [
        | inl same ↦ (g, rw (same) refl)
        | inr other ↦ let (h, at) = found q d (ground arith) in (h, rw other at)
      ]

new_cache-ok :
    (c : CacheConfig)
    → IsCacheConfig c
    → (k : Cache) × (new_with_clock c.ttl c.max_entries true ≡ ok k)
unfolding new_with_clock
new_cache-ok c v = elim (Result-cases (new_with_clock c.ttl c.max_entries true)) [
  | inl made ↦ made
  | inr (e, refused) ↦ absurd (ground arith)
]

build_cache-ok :
    (o : Option CacheConfig)
    → ((k : CacheConfig) → o ≡ some k → IsCacheConfig k)
    → (r : Option Cache) × (build_cache o ≡ ok r)
unfolding build_cache
build_cache-ok none h = (none, refl)
build_cache-ok (some c) h =
    let v = h c refl in let (k, made) = new_cache-ok c v in (some k, rw made refl)

module _ {F : Type 0} ⦃f : Float F⦄ where
  limiter-ok :
      (now : ℕ) (rate : F) (burst : ℤ)
      → f.is_nan rate ≡ false
      → f.is_inf rate ≡ false
      → f.lt (f.of_nat 0) rate ≡ true
      → is_pos burst ≡ true
      → (l : ClientLimiter F) × (new_client_limiter rate burst default_options now ≡ ok l)
  unfolding new_client_limiter
  limiter-ok now rate burst number finite some_rate some_burst =
      elim (Result-cases (new_client_limiter rate burst default_options now)) [
        | inl made ↦ made
        | inr (e, refused) ↦ absurd (ground arith)
      ]

  build_limiter-ok :
      (now : ℕ) (l : RateLimit F)
      → IsRateLimit l
      → (o : Option (ClientLimiter F)) × (build_limiter now l ≡ ok o)
  unfolding build_limiter
  build_limiter-ok now l v = elim (Bool-cases (f.lt (f.of_nat 0) l.requests_per_second)) [
    | inl limited ↦
        let (k, made) =
          limiter-ok now l.requests_per_second l.burst v.number v.finite limited
            (v.both.0 limited) in
        (some k, rw (limited, made) refl)
    | inr free ↦ (none, rw free refl)
  ]

  build_route-ok :
      (parse : Text → Option ParsedUrl) (now : ℕ) (c : Config F) (r : RouteConfig F)
      → IsRateLimit c.rate_limit
      → IsRouteConfig parse c r
      → (g : GatewayRoute F) × (build_route now c r ≡ ok g)
        × (g.path_prefix ≡ r.path_prefix)
        × (g.backend_pool ≡ r.backend_pool)
        × (g.protected ≡ r.protected)
  unfolding build_route
  build_route-ok parse now c r default v =
      let (limiter, limited) =
        build_limiter-ok now (elim r.rate_limit [ none ↦ c.rate_limit | some limit ↦ limit ])
          (effective r.rate_limit default v.limit) in
      let (cache, cached) = build_cache-ok r.cache v.cache in
      (
        record {
          path_prefix = r.path_prefix;
          backend_pool = r.backend_pool;
          limiter = limiter;
          response_cache = cache;
          protected = r.protected;
        },
        rw (limited, cached) refl,
        refl,
        refl,
        refl,
      )
    where
      effective :
          (o : Option (RateLimit F))
          → IsRateLimit c.rate_limit
          → ((l : RateLimit F) → o ≡ some l → IsRateLimit l)
          → IsRateLimit (elim o [ none ↦ c.rate_limit | some limit ↦ limit ])
      effective none d h = d
      effective (some l) d h = h l refl

  -- What a built route keeps of its settings, and that its pool is there.
  pub record IsServed (ps : List (Text × GatewayPool)) (c : RouteConfig F) (r : GatewayRoute F)
      : Type 0 where
    pub path_prefix : r.path_prefix ≡ c.path_prefix
    pub protected : r.protected ≡ c.protected
    pub pool : (g : GatewayPool) × (lookup r.backend_pool ps ≡ some g)

  -- The routes in order.
  pub AllServed : List (Text × GatewayPool) → List (RouteConfig F) → List (GatewayRoute F) → Type 0
  AllServed ps [] [] = Unit
  AllServed ps [] (r ∷ rs) = ⊥
  AllServed ps (c ∷ cs) [] = ⊥
  AllServed ps (c ∷ cs) (r ∷ rs) = IsServed ps c r × AllServed ps cs rs

  build_routes-ok :
      (parse : Text → Option ParsedUrl) (now : ℕ) (c : Config F) (ps : List (Text × GatewayPool))
      (cs : List (RouteConfig F))
      → IsRateLimit c.rate_limit
      → ((name : Text) (p : PoolConfig)
          → lookup name c.backend_pools ≡ some p
          → (g : GatewayPool) × (lookup name ps ≡ some g))
      → All (IsRouteConfig parse c) cs
      → (rs : List (GatewayRoute F)) × (build_routes now c cs ≡ ok rs) × AllServed ps cs rs
  unfolding build_routes AllServed
  build_routes-ok parse now c ps [] default found h = ([], refl, tt)
  build_routes-ok parse now c ps (r ∷ rs) default found (h, hs) =
      let (g, made, prefix, pool, protected) = build_route-ok parse now c r default h in
      let (gs, rest, served) = build_routes-ok parse now c ps rs default found hs in
      let (q, known) = h.pool in
      let (k, at) = found r.backend_pool q known in
      (
        g ∷ gs,
        rw (made, rest) refl,
        (record { path_prefix = prefix; protected = protected; pool = (k, rw pool at) }, served),
      )

-- With a URL parser that finds no scheme in a blank text, a configuration that `Validate` accepts,
-- whose pools have fewer than 2 ^ 63 backends, builds a gateway: no constructor fails, every pool is
-- ready to serve, and every route has its configured prefix and protection and an existing pool.
pub new_gateway-ready :
    {F : Type 0} ⦃f : Float F⦄ (parse : Text → Option ParsedUrl) (now : ℕ) (c : Config F)
    → IsParser parse
    → validate parse c ≡ none
    → All IsSmall c.backend_pools
    → (g : Gateway F) × (new_gateway_with_transport parse now c true ≡ ok g)
      × All IsReadyEntry g.pools
      × AllServed g.pools c.routes g.routes
unfolding new_gateway_with_transport
new_gateway-ready parse now c laws valid small =
    let v = (validate_iff parse c).0 valid in
    let (ps, pools, ready, found) = build_pools-ok parse laws c.backend_pools v.pools small in
    let (rs, routes, served) =
      build_routes-ok parse now c ps c.routes v.rate_limit found v.routes in
    (
      record { pools = ps; routes = rs },
      rw (new_gateway_with_transport, valid, pools, routes) refl,
      ready,
      served,
    )
