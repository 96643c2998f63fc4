-- ===== src/Metrics.antt =====
-- internal/metrics/prometheus.go: the measurements of requests. The vectors of the Prometheus client
-- are lists of their increments; the histogram keeps no durations.

pub mod Writers
pub mod Measured
pub mod Counted
mod Tests
use gatex.Prelude.{
  ℕ, Bool, true, false, not, ◌||◌, List, [], ◌∷◌, Option, none, some, leb, if◌then◌else◌,
}
use gatex.Prelude.Text.{Text, bytes, text_eq, decimal}
use gatex.Prelude.Dict.{mem}
use gatex.Http.{
  Request, Panic, Program, returns, panics, read_header, put_header, write_header, write,
  read_world, put_world, on_world, is_informational, Middleware,
}
use gatex.RequestMeta.{Store, route}
use gatex.Process.{Labels, Recorder, World}

abbrev pub unmatched_route : Text
unmatched_route = bytes "unmatched"

-- `New`.
abbrev pub new_recorder : Recorder
new_recorder = record { requests = []; request_errors = []; request_duration = [] }

-- `responseWriter`.
pub record ResponseWriter : Type 0 where
  pub status_code : ℕ
  pub wrote_header : Bool

abbrev pub new_writer : ResponseWriter
new_writer = record { status_code = 0; wrote_header = false }

module _ {W : Type 0} where
  -- `WriteHeader`; what follows it is given the new state of the writer.
  unfoldable pub metric_write_header : ℕ → ResponseWriter → (ResponseWriter → Program W) → Program W
  metric_write_header status w next =
      if is_informational status
      then write_header status (next w)
      else if w.wrote_header
      then next w
      else write_header status (next (record { status_code = status; wrote_header = true }))

  -- `Write`.
  unfoldable pub metric_write :
      Text → ResponseWriter → (ResponseWriter → ℕ → Bool → Program W) → Program W
  unfolding metric_write_header
  metric_write part w next =
      if not w.wrote_header
      then metric_write_header 200 w (λ started. write part (next started))
      else write part (next w)

  -- A handler's run on the wrapping writer, with what is deferred to its end.
  unfoldable pub measured :
      (ResponseWriter → Option Panic → Program W) → Program W → ResponseWriter → Program W
  unfolding metric_write_header metric_write
  measured finish returns w = finish w none
  measured finish (panics p) w = finish w (some p)
  measured finish (read_header f) w = read_header (λ h. measured finish (f h) w)
  measured finish (put_header h p) w = put_header h (measured finish p w)
  measured finish (write_header status p) w =
      metric_write_header status w (λ after. measured finish p after)
  measured finish (write part f) w =
      metric_write part w (λ after n failed. measured finish (f n failed) after)
  measured finish (read_world f) w = read_world (λ v. measured finish (f v) w)
  measured finish (put_world v p) w = put_world v (measured finish p w)

-- `status`.
unfoldable pub metric_status : ResponseWriter → ℕ
metric_status w = if not w.wrote_header then 200 else w.status_code

-- The methods of the `switch`.
abbrev pub known_methods : List Text
known_methods =
    bytes "CONNECT"
    ∷ bytes "DELETE"
    ∷ bytes "GET"
    ∷ bytes "HEAD"
    ∷ bytes "OPTIONS"
    ∷ bytes "PATCH"
    ∷ bytes "POST"
    ∷ bytes "PUT"
    ∷ bytes "TRACE"
    ∷ []

unfoldable pub metric_method : Text → Text
metric_method method = if mem method known_methods then method else bytes "OTHER"

-- The route of a request, or `unmatched`.
unfoldable pub route_label : Request → Store → Text
unfolding route
route_label r store = if text_eq (route r store) [] then unmatched_route else route r store

unfoldable pub observe : Request → ℕ → Store → Recorder → Recorder
unfolding metric_method route_label
observe r status store m =
    let labels : Labels = (metric_method r.method, route_label r store, decimal status) in
    record {
      requests = labels ∷ m.requests;
      request_duration = labels ∷ m.request_duration;
      request_errors = if leb 500 status then labels ∷ m.request_errors else m.request_errors;
    }

-- The deferred function of `Instrument`: it observes, and panics again.
unfoldable pub measure_exit : Request → ResponseWriter → Option Panic → Program World
unfolding metric_status observe
measure_exit r w recovered =
    let status : ℕ = elim recovered [
      | none ↦ metric_status w
      | some p ↦ if not w.wrote_header then 500 else metric_status w
    ] in
    on_world (λ world. record world { recorder = observe r status world.metadata world.recorder })
      (elim recovered [ none ↦ returns | some p ↦ panics p ])

unfoldable pub instrument : Middleware World
unfolding measured measure_exit
instrument next r = measured (measure_exit r) (next r) new_writer
