-- ===== src/Config/Routes.antt =====
-- When the pools and the routes of internal/config/config.go pass validation.
use gatex.Prelude.{
  ◌≡◌, subst, ◌≢◌, ◌↔◌, ◌⊎◌, inl, inr, refl, Bool, true, false, not, ◌&&◌, ◌||◌, List, [], ◌∷◌,
  Option, none, some, arith, All, Option-cases, ◌==◌, length,
}
use mathlib.Core.Option.{some-injective}
use gatex.Prelude.Dict.{lookup}
use gatex.Prelude.Float.{Float}
use gatex.Prelude.Int.{is_neg}
use gatex.Prelude.Text.{Text, bytes, text_eq, text_eq_iff, has_prefix, trim_space}
use gatex.Config.Spec.{
  orelse-none, reject-none, first_error-none, StartsWithSlash, IsHealthCheck,
  validate_health_check-IsHealthCheck, IsCacheConfig, validate_cache-IsCacheConfig, IsRateLimit,
  validate_rate_limit-IsRateLimit,
}
use gatex.Config.{
  RateLimit, CacheConfig, PoolConfig, RouteConfig, Config, ParsedUrl, ConfigError, ◌orelse◌, reject,
  first_error, validate_cache, validate_rate_limit, invalid_backend_url, check_pool,
  invalid_backend, check_route,
}

pub length-nonempty {ℓ} : {A : Type ℓ} (xs : List A) → ((length xs == 0) ≡ false) ↔ (xs ≢ [])
length-nonempty [] = ((λ e. absurd (cc)), λ h. absurd (h refl))
length-nonempty (x ∷ xs) = ((λ _ e. cc), λ _. ground arith)

-- A list of conditions holds exactly when each does.
pub chain-none :
    (a b : Option ConfigError) (P Q : Type 0)
    → (a ≡ none) ↔ P
    → (b ≡ none) ↔ Q
    → ((a orelse b) ≡ none) ↔ (P × Q)
chain-none a b P Q p q =
    let both = orelse-none a b in
    ((λ e. (p.0 (both.0 e).0, q.0 (both.0 e).1)), λ h. both.1 (p.1 h.0, q.1 h.1))

pub All-iff {ℓ} :
    {A : Type ℓ} (P Q : A → Type 0) → ((x : A) → P x ↔ Q x) → (xs : List A) → All P xs ↔ All Q xs
All-iff P Q same [] = ((λ _. tt), λ _. tt)
All-iff P Q same (x ∷ xs) =
    let rest = All-iff P Q same xs in
    ((λ h. ((same x).0 h.0, rest.0 h.1)), λ h. ((same x).1 h.0, rest.1 h.1))

pub loop-All {ℓ} :
    {A : Type ℓ} (check : A → Option ConfigError) (P : A → Type 0)
    → ((x : A) → (check x ≡ none) ↔ P x)
    → (xs : List A) → (first_error check xs ≡ none) ↔ All P xs
loop-All check P same xs =
    let one = first_error-none check xs in
    let two = All-iff (λ x. check x ≡ none) P same xs in
    ((λ e. two.0 (one.0 e)), λ h. one.1 (two.1 h))

cache-none :
    (o : Option CacheConfig)
    → ((elim o [ none ↦ none | some cache ↦ validate_cache cache ]) ≡ none)
      ↔ ((k : CacheConfig) → o ≡ some k → IsCacheConfig k)
cache-none none = ((λ _ l e. absurd (cc)), λ _. refl)
cache-none (some l) =
    let same = validate_cache-IsCacheConfig l in
    ((λ e k eq. subst IsCacheConfig (some-injective l k eq) (same.0 e)), λ h. same.1 (h l refl))

pool-known :
    (o : Option PoolConfig)
    → ((elim o as (λ _. Bool) [ none ↦ true | some _ ↦ false ]) ≡ false)
      ↔ ((p : PoolConfig) × (o ≡ some p))
pool-known none = ((λ e. absurd (cc)), λ (p, e). absurd (cc))
pool-known (some p) = ((λ _. (p, refl)), λ _. refl)

keys-given :
    (protected : Bool) (keys : List Text)
    → ((protected && (length keys == 0)) ≡ false) ↔ (protected ≡ true → keys ≢ [])
keys-given protected keys = ground (arith, length-nonempty keys)

pub refused-ne : (s : Text) (e : ConfigError) → (reject (text_eq s []) e ≡ none) ↔ (s ≢ [])
refused-ne s e = ground (arith, text_eq_iff s [])

strategy-known :
    (s : Text) (e : ConfigError)
    → (reject
          (not (text_eq s (bytes "round_robin")) && not (text_eq s (bytes "least_connections")))
          e
        ≡ none)
      ↔ ((s ≡ bytes "round_robin") ⊎ (s ≡ bytes "least_connections"))
strategy-known s e =
    ground (arith, text_eq_iff s (bytes "round_robin"), text_eq_iff s (bytes "least_connections"))

pub refused-empty {ℓ} :
    {A : Type ℓ} (xs : List A) (e : ConfigError) → (reject (length xs == 0) e ≡ none) ↔ (xs ≢ [])
refused-empty xs e = let same = length-nonempty xs in ground arith

pub rejected :
    (bad : Bool) (e : ConfigError) (P : Type 0) → (bad ≡ false) ↔ P → (reject bad e ≡ none) ↔ P
rejected bad e P same = let r = reject-none bad e in ((λ h. same.0 (r.0 h)), λ h. r.1 (same.1 h))

starts : (s : Text) → (not (has_prefix s (bytes "/")) ≡ false) ↔ StartsWithSlash s
starts s = ground arith

module _ (parse : Text → Option ParsedUrl) where
  -- The URL is one with a scheme and a host.
  abbrev pub IsBackendUrl : Text → Type 0
  IsBackendUrl url = (u : ParsedUrl) × (parse url ≡ some u) × (u.scheme ≢ []) × (u.host ≢ [])

  parts :
      (u : ParsedUrl)
      → ¬ ((text_eq u.scheme [] || text_eq u.host []) ≡ true)
      → (u.scheme ≢ []) × (u.host ≢ [])
  parts u h = ground (arith, text_eq_iff u.scheme [], text_eq_iff u.host [])

  invalid_backend-IsBackendUrl :
      (url : Text)
      → (reject (invalid_backend parse url) invalid_backend_url ≡ none) ↔ IsBackendUrl url
  unfolding invalid_backend
  invalid_backend-IsBackendUrl url = elim (Option-cases (parse url)) [
    | inl e ↦ ((λ h. absurd (ground arith)), λ (u, e', hs, hh). absurd (cc))
    | inr (u, e) ↦ (
      (λ h. let (s, o) = parts u (λ bad. ground arith) in (u, e, s, o)),
      λ (v, e', hs, hh). ground (arith, text_eq_iff u.scheme [], text_eq_iff u.host []),
    )
  ]

  pub record IsPoolConfig (entry : Text × PoolConfig) : Type 0 where
    pub name : trim_space entry.0 ≢ []
    pub strategy :
        (entry.1.strategy ≡ bytes "round_robin") ⊎ (entry.1.strategy ≡ bytes "least_connections")
    pub some_backend : entry.1.backends ≢ []
    pub urls : All IsBackendUrl entry.1.backends
    pub health : IsHealthCheck entry.1.health_check
    pub threshold : is_neg entry.1.circuit_breaker.failure_threshold ≡ false
    pub open_timeout : is_neg entry.1.circuit_breaker.open_timeout ≡ false
    pub probes : is_neg entry.1.circuit_breaker.half_open_max_requests ≡ false

  pub check_pool-IsPoolConfig :
      (entry : Text × PoolConfig) → (check_pool parse entry ≡ none) ↔ IsPoolConfig entry
  unfolding check_pool
  check_pool-IsPoolConfig (name, pool) =
      let all = chain-none _ _ _ _ (refused-ne (trim_space name) _) (
        chain-none _ _ _ _ (strategy-known pool.strategy _) (
          chain-none _ _ _ _ (refused-empty pool.backends _) (
            chain-none _ _ _ _ (loop-All _ IsBackendUrl invalid_backend-IsBackendUrl pool.backends)
              (chain-none _ _ _ _ (validate_health_check-IsHealthCheck pool.health_check) (
                chain-none _ _ _ _ (reject-none _ _)
                  (chain-none _ _ _ _ (reject-none _ _) (reject-none _ _))))))) in
      (
        (λ e.
            let (
              named,
              (strategy, (some_backend, (urls, (health, (threshold, (timeout, probes)))))),
            ) =
              all.0 e in
            record {
              name = named;
              strategy = strategy;
              some_backend = some_backend;
              urls = urls;
              health = health;
              threshold = threshold;
              open_timeout = timeout;
              probes = probes;
            }),
        λ r. all.1 (
          r.name,
          (
            r.strategy,
            (r.some_backend, (r.urls, (r.health, (r.threshold, (r.open_timeout, r.probes))))),
          ),
        ),
      )

  module _ {F : Type 0} ⦃f : Float F⦄ where
    -- A route's path starts with `/`, its pool is one of the configured ones, a protected route
    -- has an API key to ask for, and its own limit and cache are valid.
    pub record IsRouteConfig (c : Config F) (r : RouteConfig F) : Type 0 where
      pub prefix : StartsWithSlash r.path_prefix
      pub pool : (p : PoolConfig) × (lookup r.backend_pool c.backend_pools ≡ some p)
      pub keys : r.protected ≡ true → c.api_keys ≢ []
      pub limit : (l : RateLimit F) → r.rate_limit ≡ some l → IsRateLimit l
      pub cache : (k : CacheConfig) → r.cache ≡ some k → IsCacheConfig k

    limit-none :
        (o : Option (RateLimit F))
        → ((elim o [ none ↦ none | some limit ↦ validate_rate_limit limit ]) ≡ none)
          ↔ ((l : RateLimit F) → o ≡ some l → IsRateLimit l)
    limit-none none = ((λ _ l e. absurd (cc)), λ _. refl)
    limit-none (some l) =
        let same = validate_rate_limit-IsRateLimit l in
        ((λ e k eq. subst IsRateLimit (some-injective l k eq) (same.0 e)), λ h. same.1 (h l refl))

    pub check_route-IsRouteConfig :
        (c : Config F) (r : RouteConfig F) → (check_route parse c r ≡ none) ↔ IsRouteConfig c r
    unfolding check_route
    check_route-IsRouteConfig c r =
        let all = chain-none _ _ _ _ (rejected _ _ _ (starts r.path_prefix)) (
          chain-none _ _ _ _ (rejected _ _ _ (pool-known (lookup r.backend_pool c.backend_pools))) (
            chain-none _ _ _ _ (rejected _ _ _ (keys-given r.protected c.api_keys))
              (chain-none _ _ _ _ (limit-none r.rate_limit) (cache-none r.cache)))) in
        (
          (λ e.
              let (prefix, (pool, (keys, (limit, cache)))) = all.0 e in
              record { prefix = prefix; pool = pool; keys = keys; limit = limit; cache = cache }),
          λ v. all.1 (v.prefix, (v.pool, (v.keys, (v.limit, v.cache)))),
        )
