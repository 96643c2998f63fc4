-- ===== src/Readiness/Tests.antt =====
-- Pools that are available and pools that are not.
use gatex.Prelude.{◌≡◌, refl, Bool, true, false, List, [], ◌∷◌, Option, some, All}
use gatex.Prelude.Text.{Text, bytes, text_eq}
use gatex.Prelude.Dict.{mem, lookup, Distinct, keys}
use gatex.Http.{
  run, conn_write_header, conn_append, taken, take_bytes, get, values, set, put_values, del,
  http_error, error_header,
}
use gatex.Process.Samples.{fresh, roomy, plain}
use gatex.Breaker
use gatex.Breaker.{State, state_closed, state_open}
use gatex.Upstreams.{BackendPool}
use gatex.Readiness.{
  is_unavailable, has_healthy_backend, unavailable_pools, unavailable_names, sort, insert, text_leb,
  collect, gauges_of, state_string, circuit_breaker_states, HealthResponse, probe, report,
  readiness_handler, write_health_response, health_headers,
}
use gatex.Readiness.Pools.{IsAvailable}
use gatex.Readiness.Probes.{IsAnswer, is_probe, readiness_handler_lem}

program : Unit {0}
unfolding text_eq mem lookup run conn_write_header conn_append taken take_bytes get values set
    put_values del http_error error_header is_unavailable has_healthy_backend unavailable_pools
    unavailable_names sort insert text_leb collect gauges_of state_string circuit_breaker_states
    probe report readiness_handler write_health_response health_headers
program = tt

abbrev circuit : State → Breaker.Breaker
circuit s = record {
  state = s;
  failure_threshold = 5;
  consecutive_failures = 0;
  open_timeout = 30;
  half_open_max_requests = 1;
  opened_at = 0;
  generation = 0;
  half_open_admitted = 0;
  half_open_successes = 0;
}

abbrev pool : Bool → State → BackendPool
pool up s = record {
  balancer = record {
    backends = record { url = bytes "http://a"; healthy = up; active_connections = 0 } ∷ [];
    strategy = bytes "round_robin";
    next = 0;
  };
  circuit_breaker = circuit s;
  upstreams = [];
}

abbrev mixed : List (Text × BackendPool)
mixed =
    (bytes "z", pool false state_closed)
    ∷ (bytes "b", pool true state_closed)
    ∷ (bytes "a", pool true state_open)
    ∷ []

distinct : Distinct (keys mixed)
unfolding program
distinct = (refl, (refl, (refl, tt)))

reported : unavailable_pools mixed ≡ bytes "a" ∷ bytes "z" ∷ []
unfolding program
reported = refl

abbrev states : List (Text × State)
states = (bytes "a", state_open) ∷ (bytes "b", state_closed) ∷ []

collected :
    collect states
    ≡ (bytes "a", bytes "closed", 0)
      ∷ (bytes "a", bytes "open", 1)
      ∷ (bytes "a", bytes "half-open", 0)
      ∷ (bytes "b", bytes "closed", 1)
      ∷ (bytes "b", bytes "open", 0)
      ∷ (bytes "b", bytes "half-open", 0)
      ∷ []
unfolding program
collected = refl

abbrev marshal : HealthResponse → Option Text
marshal h = some h.status

not_ready :
    (run roomy
      (readiness_handler marshal (some (λ w. unavailable_pools mixed)) plain)
      fresh
      mixed).conn.status
    ≡ some 503
unfolding program
not_ready = refl

is_get : is_probe plain ≡ true
unfolding program
is_get = refl

readiness_handler_lem_example :
    let source : Option (List (Text × BackendPool) → List Text) = some (λ w. unavailable_pools w) in
    let o = run roomy (readiness_handler marshal source plain) fresh mixed in
    (All (λ e. IsAvailable e.1) mixed → IsAnswer marshal roomy 200 mixed o)
    × (¬ All (λ e. IsAvailable e.1) mixed → IsAnswer marshal roomy 503 mixed o)
readiness_handler_lem_example =
    readiness_handler_lem marshal roomy (λ w. w) plain fresh mixed (λ h. (h.status, refl)) is_get
      distinct refl
