-- ===== src/Command/Tests.antt =====
-- The handler of the process, with a gateway that panics.
use gatex.Prelude.{◌≡◌, refl, true, false, [], ◌∷◌, none, some, map}
use gatex.Prelude.Int.{pos}
use gatex.Prelude.Text.{bytes, text_eq, trim_space, decimal, decimal_digits}
use gatex.Prelude.Dict.{mem}
use gatex.Http.{
  Request, Handler, run, conn_write_header, conn_append, taken, take_bytes, get, values, set,
  put_values, del, http_error, error_header, on_exit, client_status,
}
use gatex.Process.{World}
use gatex.Process.Samples.{fresh, roomy, plain, quiet, missing, failing}
use gatex.Config
use gatex.Cors.{cors, make_string_set}
use gatex.RequestMeta.{
  ensure, current, incoming_or_new_id, is_safe_id, format_hex, hex_digits, request_id, backend,
  route,
}
use gatex.Logging.{
  completed_request, request_logger, logged, log_write_header, log_append, log_write, log_exit,
  final_status, status_of, level_of,
}
use gatex.Logging.Events.{logged_request}
use gatex.Metrics.{
  metric_method, observe, instrument, measured, metric_write_header, metric_write, metric_status,
  measure_exit, route_label,
}
use gatex.Middleware.{chain, chain_from, recovery, recover_exit}
use gatex.Readiness.{
  health_handler, readiness_handler, probe, write_health_response, health_headers,
}
use gatex.Readiness.Probes.{IsAnswer, is_probe}
use gatex.Command.{config_path_from_environment, gateway_path, serve_mux, new_gateway_handler}
use gatex.Command.Observed.{inner_run}
use gatex.Command.Whole.{IsAgreed, is_routed, new_gateway_handler-IsAgreed, healthz_lem}

program : Unit {0}
unfolding text_eq trim_space decimal decimal_digits mem run conn_write_header conn_append taken
    take_bytes get values set put_values del http_error error_header on_exit cors make_string_set
    ensure current incoming_or_new_id is_safe_id format_hex hex_digits request_id backend route
    completed_request request_logger logged log_write_header log_append log_write log_exit
    final_status status_of level_of metric_method observe instrument measured metric_write_header
    metric_write metric_status measure_exit route_label chain chain_from recovery recover_exit
    health_handler readiness_handler probe write_health_response health_headers gateway_path
    serve_mux new_gateway_handler config_path_from_environment
program = tt

abbrev settings : Config.Cors
settings = record {
  allowed_origins = [];
  allowed_methods = [];
  allowed_headers = [];
  exposed_headers = [];
  allow_credentials = false;
  max_age = pos 0;
}

abbrev handler : Handler World
handler = new_gateway_handler (λ r. true) missing missing (λ h. some h.status) settings none failing

blank_path :
    config_path_from_environment (λ name. some (bytes " ")) ≡ bytes "configs/gateway.example.yaml"
unfolding program
blank_path = refl

panicked : (run roomy (handler plain) fresh quiet).conn.status ≡ some 500
unfolding program
panicked = refl

returned : (run roomy (handler plain) fresh quiet).panic ≡ none
unfolding program
returned = refl

logged_once : map (λ e. e.status) (run roomy (handler plain) fresh quiet).world.completed ≡ 500 ∷ []
unfolding program
logged_once = refl

routed : is_routed (λ r. true) plain ≡ true
unfolding program
routed = refl

new_gateway_handler-IsAgreed_example :
    let o = run roomy (handler plain) fresh quiet in
    IsAgreed
      (logged_request plain quiet)
      (client_status o.conn)
      (inner_run roomy settings failing plain fresh quiet).world
      o.world
new_gateway_handler-IsAgreed_example =
    new_gateway_handler-IsAgreed (λ r. true) missing missing (λ h. some h.status) roomy settings
      none failing plain fresh quiet routed (refl, refl) returned

abbrev health : Request
health = record plain { path = bytes "/healthz" }

is_get : is_probe health ≡ true
unfolding program
is_get = refl

health_status : (run roomy (handler health) fresh quiet).conn.status ≡ some 200
unfolding program
health_status = refl

healthz_lem_example :
    IsAnswer (λ h. some h.status) roomy 200 quiet (run roomy (handler health) fresh quiet)
healthz_lem_example =
    healthz_lem (λ r. true) missing missing (λ h. some h.status) roomy settings none failing health
      fresh quiet (λ h. (h.status, refl)) refl refl is_get refl
