-- ===== src/Metrics/Tests.antt =====
-- A request whose handler answers 404 and one whose handler panics, measured.
use gatex.Prelude.{◌≡◌, refl, List, [], ◌∷◌, Option}
use gatex.Prelude.Text.{bytes, text_eq, decimal, decimal_digits}
use gatex.Prelude.Dict.{mem}
use gatex.Http.{
  Request, run, conn_write_header, conn_append, taken, take_bytes, write_header, returns, Panic,
  Program,
}
use gatex.Process.{World}
use gatex.Process.Samples.{fresh, roomy, plain, quiet, missing, failing}
use gatex.RequestMeta.{route, current}
use gatex.Logging.Events.{seen_status}
use gatex.Metrics.{
  ResponseWriter, metric_method, observe, instrument, measured, metric_write_header, metric_write,
  metric_status, measure_exit, route_label,
}
use gatex.Metrics.Measured.{instrument_lem}
use gatex.Metrics.Counted.{Served, statuses}

program : Unit {0}
unfolding text_eq decimal decimal_digits mem run conn_write_header conn_append taken take_bytes
    route current metric_method observe instrument measured metric_write_header metric_write
    metric_status measure_exit route_label
program = tt

abbrev brew : Request
brew = record plain { method = bytes "BREW" }

measured_missing :
    (run roomy (instrument missing plain) fresh quiet).world.recorder.requests
    ≡ (bytes "GET", bytes "unmatched", bytes "404") ∷ []
unfolding program
measured_missing = refl

measured_failing :
    (run roomy (instrument failing brew) fresh quiet).world.recorder.request_errors
    ≡ (bytes "OTHER", bytes "unmatched", bytes "500") ∷ []
unfolding program
measured_failing = refl

instrument_lem_example :
    let inner = run roomy (failing plain) fresh quiet in
    run roomy (instrument failing plain) fresh quiet ≡ record {
      panic = inner.panic;
      conn = inner.conn;
      world = record inner.world {
        recorder = observe plain (seen_status inner) inner.world.metadata inner.world.recorder;
      };
    }
instrument_lem_example = instrument_lem roomy failing plain fresh quiet (refl, refl)

abbrev two : List Served
two =
    record { handler = failing; request = plain; conn = fresh }
    ∷ record { handler = missing; request = brew; conn = fresh }
    ∷ []

statuses_sent : statuses roomy two quiet ≡ 500 ∷ 404 ∷ []
unfolding program statuses
statuses_sent = refl

abbrev ending : ResponseWriter → Option Panic → Program World
ending w p = write_header 500 returns
