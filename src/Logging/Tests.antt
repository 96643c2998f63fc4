-- ===== src/Logging/Tests.antt =====
-- A request whose handler answers 404, logged.
use gatex.Prelude.{◌≡◌, refl, [], ◌∷◌, none, length, map}
use gatex.Prelude.Text.{bytes, text_eq}
use gatex.Http.{
  run, conn_write_header, conn_append, taken, take_bytes, set, put_values, get, values,
}
use gatex.Process.{Entry, level_warn}
use gatex.Process.Samples.{fresh, roomy, plain, quiet, missing, failing}
use gatex.RequestMeta.{
  ensure, current, incoming_or_new_id, is_safe_id, format_hex, hex_digits, request_id, backend,
}
use gatex.Logging.{
  completed_request, request_logger, logged, log_write_header, log_append, log_write, log_exit,
  final_status, status_of, level_of,
}
use gatex.Logging.Transparent.{known}
use gatex.Logging.Events.{seen_status, logged_run, logged_request, request_logger_lem}

program : Unit {0}
unfolding text_eq run conn_write_header conn_append taken take_bytes set put_values get values
    ensure current incoming_or_new_id is_safe_id format_hex hex_digits request_id backend
    completed_request request_logger logged log_write_header log_append log_write log_exit
    final_status status_of level_of
program = tt

abbrev expected : Entry
expected = record {
  level = level_warn;
  method = bytes "GET";
  path = bytes "/x";
  host = bytes "a.example";
  remote_addr = bytes "192.0.2.1:9";
  status = 404;
  response_bytes = 3;
  request_id = bytes "ff";
  backend = none;
}

event_missing :
    (run roomy (request_logger missing plain) fresh quiet).world.completed ≡ expected ∷ []
unfolding program
event_missing = refl

event_failing :
    map (λ e. e.status) (run roomy (request_logger failing plain) fresh quiet).world.completed
    ≡ 500 ∷ []
unfolding program
event_failing = refl

request_logger_lem_example :
    let inner = logged_run roomy missing plain fresh quiet in
    run roomy (request_logger missing plain) fresh quiet ≡ record {
      panic = inner.panic;
      conn = inner.conn;
      world = record inner.world {
        completed =
            completed_request
              (logged_request plain quiet)
              (known inner.conn.status (length inner.conn.body))
              (seen_status inner)
              inner.world
            ∷ inner.world.completed;
      };
    }
request_logger_lem_example = request_logger_lem roomy missing plain fresh quiet (refl, refl)
