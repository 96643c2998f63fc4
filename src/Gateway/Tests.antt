-- ===== src/Gateway/Tests.antt =====
-- A gateway from a configuration with one pool and a limited, cached route.
use gatex.Prelude.{
  ℕ, ◌≡◌, refl, true, false, [], ◌∷◌, Option, none, some, ok, err, arith, All, if◌then◌else◌,
}
use gatex.Prelude.Float.{whole}
use gatex.Prelude.Int.{ℤ}
use gatex.Prelude.Text.{Text, bytes, text_eq, text_eq_iff, has_prefix, strip_prefix, trim_space}
use gatex.Prelude.Dict.{lookup}
use gatex.Config.{Config, PoolConfig, ParsedUrl, validate}
use gatex.Gateway.Building.{IsParser}
use gatex.Gateway.Start.{IsReadyEntry, AllServed, new_gateway-ready}
use gatex.Gateway.{Gateway, nil_transport, new_gateway_with_transport}

-- A text that is not blank is a URL of the scheme `http` and the host `a`.
abbrev parse : Text → Option ParsedUrl
parse s =
    if text_eq (trim_space s) []
    then none
    else some (record {
      scheme = bytes "http";
      host = bytes "a";
      has_user = false;
      path = [];
      raw_query = [];
      fragment = [];
    })

parse-IsParser : IsParser parse
parse-IsParser s u e solid = λ blank. ground (arith, text_eq_iff (trim_space s) [])

abbrev web : PoolConfig
web = record {
  strategy = bytes "least_connections";
  backends = bytes "http://a" ∷ bytes "http://b" ∷ [];
  health_check = record { path = bytes "/up"; interval = ℤ.pos 0; timeout = ℤ.pos 0 };
  circuit_breaker = record {
    failure_threshold = ℤ.pos 3;
    open_timeout = ℤ.pos 0;
    half_open_max_requests = ℤ.pos 0;
  };
}

abbrev config : Config ℕ
config = record {
  listen_address = bytes ":80";
  rate_limit = record { requests_per_second = 0; burst = ℤ.pos 0 };
  api_keys = bytes "k" ∷ [];
  cors = record {
    allowed_origins = [];
    allowed_methods = [];
    allowed_headers = [];
    exposed_headers = [];
    allow_credentials = false;
    max_age = ℤ.pos 0;
  };
  backend_pools = (bytes "web", web) ∷ [];
  routes =
      record {
        path_prefix = bytes "/";
        backend_pool = bytes "web";
        rate_limit = some (record { requests_per_second = 5; burst = ℤ.pos 10 });
        cache = some (record { ttl = ℤ.pos 60; max_entries = ℤ.pos 8 });
        protected = true;
      }
      ∷ [];
}

program : Unit {0}
unfolding text_eq has_prefix strip_prefix trim_space lookup validate new_gateway_with_transport
program = tt

accepted : validate parse config ≡ none
unfolding program
accepted = refl

without_transport : new_gateway_with_transport parse 0 config false ≡ err nil_transport
unfolding program
without_transport = refl

new_gateway-ready_example :
    (g : Gateway ℕ) × (new_gateway_with_transport parse 0 config true ≡ ok g)
    × All IsReadyEntry g.pools
    × AllServed g.pools config.routes g.routes
new_gateway-ready_example =
    new_gateway-ready parse 0 config parse-IsParser accepted (omega arith, tt)
