-- ===== src/Config/Valid.antt =====
-- `Config.Validate` of internal/config/config.go accepts exactly the valid configurations.
use gatex.Prelude.{◌≡◌, ◌≢◌, ◌↔◌, not, [], Option, none, arith, All}
use gatex.Prelude.Float.{Float}
use gatex.Prelude.Text.{Text, trim_space}
use gatex.Config.Spec.{
  IsApiKey, is_valid_api_key-IsApiKey, IsRateLimit, validate_rate_limit-IsRateLimit,
}
use gatex.Config.Routes.{
  chain-none, loop-All, refused-ne, refused-empty, IsPoolConfig, check_pool-IsPoolConfig,
  IsRouteConfig, check_route-IsRouteConfig,
}
use gatex.Config.Origins.{IsCors, validate_cors-IsCors}
use gatex.Config.{
  Config, ParsedUrl, ConfigError, reject, is_valid_api_key, invalid_api_key, validate,
}

key-none : (e : ConfigError) (k : Text) → (reject (not (is_valid_api_key k)) e ≡ none) ↔ IsApiKey k
key-none e k = let same = is_valid_api_key-IsApiKey k in ground (arith, same)

module _ (parse : Text → Option ParsedUrl) {F : Type 0} ⦃f : Float F⦄ where
  pub record IsConfig (c : Config F) : Type 0 where
    pub listen_address : trim_space c.listen_address ≢ []
    pub some_pool : c.backend_pools ≢ []
    pub rate_limit : IsRateLimit c.rate_limit
    pub api_keys : All IsApiKey c.api_keys
    pub cors : IsCors parse c.cors
    pub pools : All (IsPoolConfig parse) c.backend_pools
    pub some_route : c.routes ≢ []
    pub routes : All (IsRouteConfig parse c) c.routes

  -- `Validate` returns no error exactly for a configuration with a listen address, a pool and a
  -- route, whose default limit, API keys, CORS settings, pools and routes are all valid as the
  -- predicates on them say.
  pub validate_iff : (c : Config F) → (validate parse c ≡ none) ↔ IsConfig c
  unfolding validate
  validate_iff c =
      let all = chain-none _ _ _ _ (refused-ne (trim_space c.listen_address) _) (
        chain-none _ _ _ _ (refused-empty c.backend_pools _) (
          chain-none _ _ _ _ (validate_rate_limit-IsRateLimit c.rate_limit) (
            chain-none _ _ _ _ (loop-All _ IsApiKey (key-none invalid_api_key) c.api_keys) (
              chain-none _ _ _ _ (validate_cors-IsCors parse c.cors) (
                chain-none _ _ _ _
                  (loop-All _ (IsPoolConfig parse) (check_pool-IsPoolConfig parse) c.backend_pools)
                  (chain-none _ _ _ _ (refused-empty c.routes _) (
                    loop-All _ (IsRouteConfig parse c) (check_route-IsRouteConfig parse c)
                      c.routes))))))) in
      (
        (λ e.
            let (listen, (some_pool, (limit, (keys, (cors, (pools, (some_route, routes))))))) =
              all.0 e in
            record {
              listen_address = listen;
              some_pool = some_pool;
              rate_limit = limit;
              api_keys = keys;
              cors = cors;
              pools = pools;
              some_route = some_route;
              routes = routes;
            }),
        λ v. all.1 (
          v.listen_address,
          (
            v.some_pool,
            (v.rate_limit, (v.api_keys, (v.cors, (v.pools, (v.some_route, v.routes))))),
          ),
        ),
      )
