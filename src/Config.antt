-- ===== src/Config.antt =====
-- internal/config/config.go: the configuration and its validation. A `map` is an association list;
-- Go visits its keys in any order, which decides only which of several errors is reported. The
-- parser of net/url is the parameter `parse`; an error message is a constructor.
mod Settings
pub mod Spec
pub mod Routes
pub mod Origins
pub mod Valid
mod Tests
pub use Settings.*
use gatex.Prelude.{
  ℕ, ◌+◌, Bool, true, false, not, ◌&&◌, ◌||◌, List, [], ◌∷◌, Option, none, some, ltb, leb, ◌==◌,
  if◌then◌else◌, length,
}
use gatex.Prelude.Dict.{lookup}
use gatex.Prelude.Float.{Float}
use gatex.Prelude.Int.{ℤ, is_neg, is_zero, is_pos}
use gatex.Prelude.Text.{Text, bytes, text_eq, has_prefix, trim_space}

-- `if err := ...; err != nil { return err }`, and then the rest.
infixr 5 ◌orelse◌
abbrev pub ◌orelse◌ : Option ConfigError → Option ConfigError → Option ConfigError
none orelse rest = rest
(some e) orelse rest = some e

-- A test that reports the error.
abbrev pub reject : Bool → ConfigError → Option ConfigError
reject bad e = if bad then some e else none

-- A loop that returns the first error.
pub first_error {ℓ} : {A : Type ℓ} → (A → Option ConfigError) → List A → Option ConfigError
first_error check [] = none
first_error check (x ∷ xs) = check x orelse first_error check xs

-- A non-empty run of bytes that a test accepts.
pub all_bytes : (ℕ → Bool) → Text → Bool
all_bytes accept [] = true
all_bytes accept (b ∷ s) = accept b && all_bytes accept s

-- Go visits the characters; one outside ASCII is refused, as each of its bytes is here.
pub visible : ℕ → Bool
visible b = leb 0x21 b && leb b 0x7e

pub is_valid_api_key : Text → Bool
unfolding all_bytes visible
is_valid_api_key key = not (text_eq key []) && all_bytes visible key

abbrev letter_or_digit : ℕ → Bool
letter_or_digit b = (leb 97 b && leb b 122) || (leb 65 b && leb b 90) || (leb 48 b && leb b 57)

-- ! # $ % & ' * + - . ^ _ ` | ~
abbrev token_mark : ℕ → Bool
token_mark b =
    (b == 33)
    || (b == 35)
    || (b == 36)
    || (b == 37)
    || (b == 38)
    || (b == 39)
    || (b == 42)
    || (b == 43)
    || (b == 45)
    || (b == 46)
    || (b == 94)
    || (b == 95)
    || (b == 96)
    || (b == 124)
    || (b == 126)

pub token_byte : ℕ → Bool
token_byte b = letter_or_digit b || token_mark b

pub is_http_token : Text → Bool
unfolding all_bytes token_byte
is_http_token value = not (text_eq value []) && all_bytes token_byte value

-- `method != strings.ToUpper(method)`, for a token: it has a lower-case letter.
pub not_lower : ℕ → Bool
not_lower b = not (leb 97 b && leb b 122)

pub invalid_method_text : Text → Bool
unfolding is_http_token all_bytes not_lower
invalid_method_text method =
    text_eq method (bytes "*") || not (is_http_token method) || not (all_bytes not_lower method)

pub validate_health_check : HealthCheck → Option ConfigError
validate_health_check check =
    reject (is_neg check.interval) negative_interval
    orelse reject (is_neg check.timeout) negative_timeout
    orelse reject (not (text_eq check.path []) && not (has_prefix check.path (bytes "/")))
        invalid_check_path

pub validate_cache : CacheConfig → Option ConfigError
validate_cache cache =
    reject (not (is_pos cache.ttl)) invalid_ttl
    orelse reject (not (is_pos cache.max_entries)) invalid_max_entries

-- `!=` of two Booleans.
abbrev pub differ : Bool → Bool → Bool
differ a b = if a then not b else b

-- The numbers of a limit as `==` and `<` of float64 see them, NaN and the infinities excluded.
module _ {F : Type 0} ⦃f : Float F⦄ where
  abbrev pub float_is_zero : F → Bool
  float_is_zero x = not (f.lt x (f.of_nat 0)) && not (f.lt (f.of_nat 0) x)

  pub validate_rate_limit : RateLimit F → Option ConfigError
  validate_rate_limit limit =
      reject (f.is_nan limit.requests_per_second || f.is_inf limit.requests_per_second)
        infinite_rate
      orelse reject (f.lt limit.requests_per_second (f.of_nat 0)) negative_rate
      orelse reject (is_neg limit.burst) negative_burst
      orelse reject (differ (float_is_zero limit.requests_per_second) (is_zero limit.burst))
          half_a_limit

pub invalid_origin_url : Option ParsedUrl → Bool
invalid_origin_url none = true
invalid_origin_url (some u) =
    (not (text_eq u.scheme (bytes "http")) && not (text_eq u.scheme (bytes "https")))
    || text_eq u.host []
    || u.has_user
    || not (text_eq u.path [])
    || not (text_eq u.raw_query [])
    || not (text_eq u.fragment [])

-- `allowsEveryOrigin` after the loop.
pub allows_every_origin : List Text → Bool
allows_every_origin [] = false
allows_every_origin (o ∷ os) = text_eq o (bytes "*") || allows_every_origin os

module _ (parse : Text → Option ParsedUrl) where
  -- The body of the loop over the origins.
  pub check_origin : Text → Option ConfigError
  unfolding invalid_origin_url
  check_origin origin =
      if text_eq origin (bytes "*")
      then none
      else reject (invalid_origin_url (parse origin)) invalid_origin

  pub validate_cors : Cors → Option ConfigError
  unfolding check_origin allows_every_origin invalid_method_text first_error
  validate_cors cors =
      reject (is_neg cors.max_age) negative_max_age
      orelse (if length cors.allowed_origins == 0
          then reject
              (ltb 0 (length cors.allowed_methods)
                || ltb 0 (length cors.allowed_headers)
                || ltb 0 (length cors.exposed_headers)
                || cors.allow_credentials
                || is_pos cors.max_age)
              no_origins
          else reject (length cors.allowed_methods == 0) no_methods
            orelse first_error check_origin cors.allowed_origins
            orelse reject (allows_every_origin cors.allowed_origins && cors.allow_credentials)
                wildcard_credentials
            orelse first_error (λ m. reject (invalid_method_text m) invalid_method)
                cors.allowed_methods
            orelse first_error (λ h. reject (not (is_http_token h)) invalid_header)
                cors.allowed_headers
            orelse first_error (λ h. reject (not (is_http_token h)) invalid_header)
                cors.exposed_headers)

  pub invalid_backend : Text → Bool
  invalid_backend url = elim (parse url) [
    | none ↦ true
    | some u ↦ text_eq u.scheme [] || text_eq u.host []
  ]

  -- The body of the loop over the pools.
  pub check_pool : Text × PoolConfig → Option ConfigError
  unfolding invalid_backend validate_health_check first_error
  check_pool (name, pool) =
      reject (text_eq (trim_space name) []) empty_pool_name
      orelse reject
          (not (text_eq pool.strategy (bytes "round_robin"))
            && not (text_eq pool.strategy (bytes "least_connections")))
          unsupported_strategy
      orelse reject (length pool.backends == 0) no_backends
      orelse first_error (λ b. reject (invalid_backend b) invalid_backend_url) pool.backends
      orelse validate_health_check pool.health_check
      orelse reject (is_neg pool.circuit_breaker.failure_threshold) negative_threshold
      orelse reject (is_neg pool.circuit_breaker.open_timeout) negative_open_timeout
      orelse reject (is_neg pool.circuit_breaker.half_open_max_requests) negative_probes

  module _ {F : Type 0} ⦃f : Float F⦄ where
    -- The body of the loop over the routes.
    pub check_route : Config F → RouteConfig F → Option ConfigError
    unfolding validate_rate_limit validate_cache
    check_route c route =
        reject (not (has_prefix route.path_prefix (bytes "/"))) invalid_prefix
        orelse reject
            (elim (lookup route.backend_pool c.backend_pools) [ none ↦ true | some _ ↦ false ])
            unknown_pool
        orelse reject (route.protected && (length c.api_keys == 0)) no_api_keys
        orelse (elim route.rate_limit [ none ↦ none | some limit ↦ validate_rate_limit limit ])
        orelse (elim route.cache [ none ↦ none | some cache ↦ validate_cache cache ])

    -- `Config.Validate`; `none` is a nil error.
    unfoldable pub validate : Config F → Option ConfigError
    unfolding validate_rate_limit validate_cors check_pool check_route is_valid_api_key first_error
    validate c =
        reject (text_eq (trim_space c.listen_address) []) no_listen_address
        orelse reject (length c.backend_pools == 0) no_backend_pool
        orelse validate_rate_limit c.rate_limit
        orelse first_error (λ k. reject (not (is_valid_api_key k)) invalid_api_key) c.api_keys
        orelse validate_cors c.cors
        orelse first_error check_pool c.backend_pools
        orelse reject (length c.routes == 0) no_route
        orelse first_error (check_route c) c.routes
