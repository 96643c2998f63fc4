-- ===== src/Config/Tests.antt =====
-- A small configuration, and its validation.
use gatex.Prelude.{ℕ, ◌≡◌, ◌↔◌, refl, true, false, [], ◌∷◌, Option, none, some}
use gatex.Prelude.Float.{whole}
use gatex.Prelude.Int.{ℤ}
use gatex.Prelude.Text.{Text, bytes, text_eq, has_prefix, strip_prefix, trim_space}
use gatex.Prelude.Dict.{lookup}
use gatex.Config.Valid.{IsConfig, validate_iff}
use gatex.Config.{
  Config, RouteConfig, PoolConfig, Cors, RateLimit, ParsedUrl, validate, no_api_keys, half_a_limit,
}

-- Every text is a URL of the scheme `http` and the host `a`.
abbrev parse : Text → Option ParsedUrl
parse s = some (record {
  scheme = bytes "http";
  host = bytes "a";
  has_user = false;
  path = [];
  raw_query = [];
  fragment = [];
})

abbrev no_limit : RateLimit ℕ
no_limit = record { requests_per_second = 0; burst = ℤ.pos 0 }

abbrev no_cors : Cors
no_cors = record {
  allowed_origins = [];
  allowed_methods = [];
  allowed_headers = [];
  exposed_headers = [];
  allow_credentials = false;
  max_age = ℤ.pos 0;
}

abbrev web : PoolConfig
web = record {
  strategy = bytes "round_robin";
  backends = bytes "http://a" ∷ [];
  health_check = record { path = []; interval = ℤ.pos 0; timeout = ℤ.pos 0 };
  circuit_breaker = record {
    failure_threshold = ℤ.pos 0;
    open_timeout = ℤ.pos 0;
    half_open_max_requests = ℤ.pos 0;
  };
}

abbrev root_route : RouteConfig ℕ
root_route = record {
  path_prefix = bytes "/";
  backend_pool = bytes "web";
  rate_limit = none;
  cache = none;
  protected = false;
}

abbrev config : Config ℕ
config = record {
  listen_address = bytes ":80";
  rate_limit = no_limit;
  api_keys = [];
  cors = no_cors;
  backend_pools = (bytes "web", web) ∷ [];
  routes = root_route ∷ [];
}

program : Unit {0}
unfolding text_eq has_prefix strip_prefix trim_space lookup validate
program = tt

accepted : validate parse config ≡ none
unfolding program
accepted = refl

protected_without_keys :
    validate parse (record config { routes = record root_route { protected = true } ∷ [] })
    ≡ some no_api_keys
unfolding program
protected_without_keys = refl

rate_without_burst :
    validate parse (record config { rate_limit = record no_limit { requests_per_second = 3 } })
    ≡ some half_a_limit
unfolding program
rate_without_burst = refl

validate_iff_example : (validate parse config ≡ none) ↔ IsConfig parse config
validate_iff_example = validate_iff parse config
