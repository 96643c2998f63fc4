-- ===== src/Config/Settings.antt =====
-- The settings of internal/config/config.go, and the errors that their validation reports. An error
-- message is a constructor.
use gatex.Prelude.{Bool, List, Option}
use gatex.Prelude.Int.{ℤ}
use gatex.Prelude.Text.{Text}

pub record RateLimit (F : Type 0) : Type 0 where
  pub requests_per_second : F
  pub burst : ℤ

pub record CacheConfig : Type 0 where
  pub ttl : ℤ
  pub max_entries : ℤ

pub record Cors : Type 0 where
  pub allowed_origins : List Text
  pub allowed_methods : List Text
  pub allowed_headers : List Text
  pub exposed_headers : List Text
  pub allow_credentials : Bool
  pub max_age : ℤ

pub record HealthCheck : Type 0 where
  pub path : Text
  pub interval : ℤ
  pub timeout : ℤ

pub record CircuitBreaker : Type 0 where
  pub failure_threshold : ℤ
  pub open_timeout : ℤ
  pub half_open_max_requests : ℤ

pub record PoolConfig : Type 0 where
  pub strategy : Text
  pub backends : List Text
  pub health_check : HealthCheck
  pub circuit_breaker : CircuitBreaker

pub record RouteConfig (F : Type 0) : Type 0 where
  pub path_prefix : Text
  pub backend_pool : Text
  pub rate_limit : Option (RateLimit F)
  pub cache : Option CacheConfig
  pub protected : Bool

pub record Config (F : Type 0) : Type 0 where
  pub listen_address : Text
  pub rate_limit : RateLimit F
  pub api_keys : List Text
  pub cors : Cors
  pub backend_pools : List (Text × PoolConfig)
  pub routes : List (RouteConfig F)

-- The parts of a parsed `url.URL` that validation reads.
pub record ParsedUrl : Type 0 where
  pub scheme : Text
  pub host : Text
  pub has_user : Bool
  pub path : Text
  pub raw_query : Text
  pub fragment : Text

pub data ConfigError : Type 0 where
  no_listen_address no_backend_pool no_route : ConfigError
  infinite_rate negative_rate negative_burst half_a_limit : ConfigError
  invalid_api_key : ConfigError
  negative_max_age no_origins no_methods invalid_origin wildcard_credentials : ConfigError
  invalid_method invalid_header : ConfigError
  empty_pool_name unsupported_strategy no_backends invalid_backend_url : ConfigError
  negative_interval negative_timeout invalid_check_path : ConfigError
  negative_threshold negative_open_timeout negative_probes : ConfigError
  invalid_prefix unknown_pool no_api_keys : ConfigError
  invalid_ttl invalid_max_entries : ConfigError
