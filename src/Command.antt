-- ===== src/Command.antt =====
-- cmd/gateway/main.go: the path of the configuration, and the handler of the whole process. Arguments
-- stand for the scrape endpoint of the Prometheus client, for `json.Marshal`, and for what
-- `http.ServeMux` does by itself with a path that is not clean: it redirects.
pub mod Observed
pub mod Whole
mod Tests
use gatex.Prelude.{Bool, true, false, not, ◌&&◌, List, [], ◌∷◌, Option, none, some, if◌then◌else◌}
use gatex.Prelude.Text.{Text, bytes, text_eq, trim_space}
use gatex.Http.{Request, Program, Handler, Middleware}
use gatex.Process.{World}
use gatex.Config
use gatex.Cors.{CorsOptions, cors}
use gatex.Logging.{request_logger}
use gatex.Metrics.{instrument}
use gatex.Middleware.{chain, recovery}
use gatex.Readiness.{HealthResponse, health_handler, readiness_handler}

abbrev pub default_config_path : Text
default_config_path = bytes "configs/gateway.example.yaml"

-- `lookup` is `os.LookupEnv`.
unfoldable pub config_path_from_environment : (Text → Option Text) → Text
config_path_from_environment lookup = elim (lookup (bytes "GATEX_CONFIG")) [
  | none ↦ default_config_path
  | some path ↦ if not (text_eq (trim_space path) []) then path else default_config_path
]

-- The fields of `cfg.CORS`, handed to the middleware.
abbrev pub cors_options : Config.Cors → CorsOptions
cors_options c = record {
  allowed_origins = c.allowed_origins;
  allowed_methods = c.allowed_methods;
  allowed_headers = c.allowed_headers;
  exposed_headers = c.exposed_headers;
  allow_credentials = c.allow_credentials;
  max_age = c.max_age;
}

unfoldable pub gateway_path : Config.Cors → Middleware World
unfolding chain request_logger instrument cors
gateway_path c = chain (request_logger ∷ instrument ∷ cors (cors_options c) ∷ [])

-- `http.ServeMux` with these patterns: the three paths exactly, and everything else.
unfoldable pub serve_mux :
    (Request → Bool)
    → Handler World
    → Handler World
    → Handler World
    → Handler World
    → Handler World
    → Handler World
serve_mux is_clean redirect scrape healthz readyz rest r =
    if not (is_clean r)
    then redirect r
    else if text_eq r.path (bytes "/metrics")
    then scrape r
    else if text_eq r.path (bytes "/healthz")
    then healthz r
    else if text_eq r.path (bytes "/readyz")
    then readyz r
    else rest r

module _ (is_clean : Request → Bool) (redirect : Handler World) (scrape : Handler World)
    (marshal : HealthResponse → Option Text) where
  -- `readiness` is the gateway as a source of readiness, if it is one.
  unfoldable pub new_gateway_handler :
      Config.Cors → Option (World → List Text) → Handler World → Handler World
  unfolding gateway_path serve_mux recovery health_handler readiness_handler
  new_gateway_handler c readiness gateway = recovery (
      serve_mux is_clean redirect scrape (health_handler marshal)
        (readiness_handler marshal readiness) (gateway_path c gateway))
