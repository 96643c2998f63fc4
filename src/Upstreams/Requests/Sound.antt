-- ===== src/Upstreams/Requests/Sound.antt =====
-- What the interleaved requests of a pool of internal/proxy/gateway.go keep from the start on.
use gatex.Prelude.{
  ℕ, ◌+◌, ◌^◌, ◌≤◌, ◌<◌, ◌≡◌, true, List, [], ◌∷◌, some, ok, arith, length, get_elem?, map,
}
use gatex.Breaker.{Config, new_with_config, state_half_open}
use gatex.Breaker.Probes.{live, unshared-IsAccounted}
use gatex.Breaker.Probes.Flight.{accounted-live}
use gatex.Balancer.{Backend}
use gatex.Upstreams.{BackendPool}
use gatex.Upstreams.Requests.Limit.{run-limit}
use gatex.Upstreams.Requests.Counts.{IsHeld, step-IsHeld}
use gatex.Upstreams.Requests.Slots.{IsTracked, step-IsTracked, system}
use gatex.Upstreams.Requests.{Gateway, permit_of, Event, held, step, run, idle}

run-IsHeld : (es : List Event) (g : Gateway) → IsHeld g → IsHeld (run es g)
unfolding run
run-IsHeld [] g h = h
run-IsHeld (e ∷ es) g h = run-IsHeld es (step e g) (step-IsHeld e g h)

run-IsTracked :
    (es : List Event) (n m : ℕ) (g : Gateway)
    → n + length es ≡ m
    → m < 2 ^ 64
    → IsTracked n g
    → IsTracked m (run es g)
unfolding run
run-IsTracked [] n m g e fits h = let e' : n ≡ m = omega arith in rw (← e') h
run-IsTracked (x ∷ es) n m g e fits h =
    run-IsTracked es (n + 1) m (step x g) (omega arith) fits (step-IsTracked n (omega arith) g h x)

abbrev pub AllIdle : BackendPool → Type 0
AllIdle p =
    (i : ℕ) (b : Backend) → get_elem? p.balancer.backends i ≡ some b → b.active_connections ≡ 0

idle-IsHeld : (p : BackendPool) → AllIdle p → IsHeld (idle p)
unfolding held
idle-IsHeld p h = h

idle-IsTracked :
    (config : Config) (p : BackendPool)
    → new_with_config config true ≡ ok p.circuit_breaker
    → IsTracked 0 (idle p)
idle-IsTracked config p built = record {
  accounted = unshared-IsAccounted config true built;
  settled = tt;
}

-- Start with a pool whose breaker the constructor returned and whose backends are idle, and let
-- requests and the health checker interleave between any two calls of a request: the breaker's
-- `Acquire`, the balancer's `Acquire`, the recording of an outcome, `Release` and `Cancel`, in fewer
-- than 2 ^ 64 steps, with any exchanges and verdicts, and whatever the balancer's scans read of the
-- backends. Then each backend's count is the number of requests that hold it, until the body is sent;
-- the unused permits of the current half-open cycle among those of the requests never outnumber the
-- configured limit; and while the breaker is half-open, the slots taken are exactly the successes
-- recorded and those permits: no request leaks a slot, wherever it stands.
pub run-probes :
    (config : Config) (p : BackendPool) (es : List Event)
    → new_with_config config true ≡ ok p.circuit_breaker
    → AllIdle p
    → length es < 2 ^ 64
    → let g = run es (idle p) in
      let probes = live g.pool.circuit_breaker.generation (map permit_of g.requests) in
      ((i : ℕ) (b : Backend)
        → get_elem? g.pool.balancer.backends i ≡ some b
        → b.active_connections ≡ held i g.requests)
      × (probes ≤ p.circuit_breaker.half_open_max_requests)
      × (g.pool.circuit_breaker.state ≡ state_half_open
          → g.pool.circuit_breaker.half_open_admitted
            ≡ g.pool.circuit_breaker.half_open_successes + probes)
run-probes config p es built h fits =
    let tracked =
      run-IsTracked es 0 (length es) (idle p) (omega arith) fits (idle-IsTracked config p built) in
    let bounds = accounted-live (length es) (system (run es (idle p))) tracked.accounted in
    (
      run-IsHeld es (idle p) (idle-IsHeld p h),
      omega (arith, bounds.0, run-limit es (idle p)),
      bounds.1,
    )
