-- ===== src/Readiness.antt =====
-- internal/metrics/health.go and circuit_breaker.go, with the two methods of the gateway in
-- internal/proxy/gateway.go that they read. `marshal` is `json.Marshal` of a response.

pub mod Pools
pub mod Probes
pub mod States
mod Tests
use gatex.Prelude.{
  ℕ, Bool, true, false, not, ◌&&◌, ◌||◌, List, [], ◌∷◌, ◌++◌, Option, none, some, ltb, ◌==◌,
  if◌then◌else◌, map,
}
use gatex.Prelude.Text.{Text, bytes, text_eq, decimal}
use gatex.Http.{
  Request, Program, returns, write_header, write, read_world, on_header, http_error, Handler,
}
use gatex.Http
use gatex.Balancer
use gatex.Breaker.{State, state_closed, state_open, state_half_open, state_other, state_eq}
use gatex.Breaker
use gatex.Upstreams.{BackendPool}

unfoldable pub has_healthy_backend : List Balancer.Backend → Bool
has_healthy_backend [] = false
has_healthy_backend (b ∷ bs) = if b.healthy then true else has_healthy_backend bs

-- A pool is left out of the unavailable ones.
unfoldable pub is_unavailable : BackendPool → Bool
unfolding has_healthy_backend
is_unavailable p =
    not (state_eq p.circuit_breaker.state state_closed)
    || not (has_healthy_backend p.balancer.backends)

-- The order of strings: byte by byte.
unfoldable pub text_leb : Text → Text → Bool
text_leb [] t = true
text_leb (a ∷ s) [] = false
text_leb (a ∷ s) (b ∷ t) = if ltb a b then true else if a == b then text_leb s t else false

unfoldable pub insert : Text → List Text → List Text
unfolding text_leb
insert s [] = s ∷ []
insert s (t ∷ ts) = let rest = insert s ts in if text_leb s t then s ∷ t ∷ ts else t ∷ rest

-- `sort.Strings`.
unfoldable pub sort : List Text → List Text
unfolding insert
sort [] = []
sort (s ∷ ss) = insert s (sort ss)

-- The loop of `UnavailablePools`.
unfoldable pub unavailable_names : List (Text × BackendPool) → List Text
unfolding is_unavailable
unavailable_names [] = []
unavailable_names ((name, p) ∷ pools) =
    let rest = unavailable_names pools in if is_unavailable p then name ∷ rest else rest

unfoldable pub unavailable_pools : List (Text × BackendPool) → List Text
unfolding unavailable_names sort
unavailable_pools pools = sort (unavailable_names pools)

unfoldable pub circuit_breaker_states : List (Text × BackendPool) → List (Text × State)
circuit_breaker_states = map (λ e. (e.0, e.1.circuit_breaker.state))

-- `State.String`.
unfoldable pub state_string : State → Text
state_string state_closed = bytes "closed"
state_string state_open = bytes "open"
state_string state_half_open = bytes "half-open"
state_string (state_other n) = bytes "State(" ++ (decimal n ++ bytes ")")

abbrev pub breaker_states : List State
breaker_states = state_closed ∷ state_open ∷ state_half_open ∷ []

-- One gauge: the pool, the state's name and the value.
abbrev pub Gauge : Type 0
Gauge = Text × Text × ℕ

unfoldable pub gauges_of : Text → State → List State → List Gauge
unfolding state_string
gauges_of pool current [] = []
gauges_of pool current (s ∷ ss) =
    (pool, state_string s, if state_eq current s then 1 else 0) ∷ gauges_of pool current ss

-- `Collect`.
unfoldable pub collect : List (Text × State) → List Gauge
unfolding gauges_of
collect [] = []
collect ((pool, current) ∷ states) = gauges_of pool current breaker_states ++ collect states

-- `healthResponse`.
pub record HealthResponse : Type 0 where
  pub status : Text
  pub unavailable_pools : List Text

unfoldable pub health_headers : Http.Header → Http.Header
health_headers h =
    Http.set (bytes "Content-Type") (bytes "application/json")
      (Http.set (bytes "Cache-Control") (bytes "no-store") h)

module _ (marshal : HealthResponse → Option Text) {W : Type 0} where
  -- `allowsProbeMethod`, and what follows it.
  unfoldable pub probe : Request → Program W → Program W
  probe r allowed =
      if text_eq r.method (bytes "GET") || text_eq r.method (bytes "HEAD")
      then allowed
      else on_header (Http.set (bytes "Allow") (bytes "GET, HEAD"))
          (http_error (bytes "method not allowed") 405)

  unfoldable pub write_health_response : Request → ℕ → HealthResponse → Program W
  unfolding health_headers
  write_health_response r status response = elim (marshal response) [
    | none ↦ http_error (bytes "encode health response") 500
    | some body ↦ on_header health_headers (
        write_header status (
          if text_eq r.method (bytes "HEAD")
          then returns
          else write (body ++ (10 ∷ [])) (λ n failed. returns)))
  ]

  unfoldable pub health_handler : Handler W
  unfolding probe write_health_response
  health_handler r =
      probe r (write_health_response r 200 (record { status = bytes "ok"; unavailable_pools = [] }))

  -- What is written where the source reports these pools.
  unfoldable pub report : Request → List Text → Program W
  unfolding write_health_response sort
  report r pools = elim (sort pools) [
    | name ∷ names ↦
        write_health_response r 503
          (record { status = bytes "not_ready"; unavailable_pools = name ∷ names })
    | [] ↦ write_health_response r 200 (record { status = bytes "ready"; unavailable_pools = [] })
  ]

  -- The source reads the state of the process; `none` is a nil source.
  unfoldable pub readiness_handler : Option (W → List Text) → Handler W
  unfolding probe report write_health_response
  readiness_handler source r = probe r (elim source [
    | none ↦
        write_health_response r 503 (record { status = bytes "not_ready"; unavailable_pools = [] })
    | some unavailable ↦ read_world (λ w. report r (unavailable w))
  ])
