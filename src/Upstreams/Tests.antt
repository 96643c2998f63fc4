-- ===== src/Upstreams/Tests.antt =====
-- Runs of a pool with two backends and a breaker that opens at the second failure.
use gatex.Prelude.{
  ℕ, ◌+◌, ◌≤◌, ◌≡◌, ◌≢◌, inl, refl, Bool, true, false, List, [], ◌∷◌, some, ok, err, arith,
  get_elem?, map, zero, suc,
}
use gatex.Prelude.Text.{bytes, text_eq}
use gatex.Prelude.Int.{ℤ}
use gatex.Breaker
use gatex.Breaker.{
  Permit, Config, state_closed, state_open, state_half_open, new_with_config, record_permit, cancel,
}
use gatex.Breaker.Probes.{live}
use gatex.Balancer
use gatex.Balancer.{Backend, round_robin, release, is_healthy, set_healthy}
use gatex.Upstreams.Requests.Sound.{AllIdle, run-probes}
use gatex.Upstreams.{
  Upstream, BackendPool, AcquireFailure, err_no_healthy_backends, find_upstream, acquire, response,
  failure, is_success, client_status, serve_route,
}
use gatex.Upstreams.Leaks.{IsReturned, acquire-IsReturned, serve_route-released}
use gatex.Upstreams.Verdicts.{IsReady, IsFailure, serve_route-closed}
use gatex.Upstreams.Requests.{
  Gateway, Event, on_permit, on_backend, on_outcome, on_release, on_health, run, idle, held,
  permit_of, step, take_backend, take_outcome, give_back,
}

abbrev config : Config
config = record {
  failure_threshold = ℤ.pos 2;
  open_timeout = ℤ.pos 10;
  half_open_max_requests = ℤ.pos 1;
}

abbrev closed : Breaker.Breaker
closed = record {
  state = state_closed;
  failure_threshold = 2;
  consecutive_failures = 1;
  open_timeout = 10;
  half_open_max_requests = 1;
  opened_at = 0;
  generation = 0;
  half_open_admitted = 0;
  half_open_successes = 0;
}

abbrev fresh : Breaker.Breaker
fresh = record closed { consecutive_failures = 0 }

abbrev backend : Bool → Backend
backend up = record { url = bytes "http://a"; healthy = up; active_connections = 0 }

abbrev pool_of : Bool → Breaker.Breaker → BackendPool
pool_of up b = record {
  balancer = record { backends = backend up ∷ backend up ∷ []; strategy = round_robin; next = 0 };
  circuit_breaker = b;
  upstreams =
      record { backend = 0; target = bytes "http://a" }
      ∷ record { backend = 1; target = bytes "http://b" }
      ∷ [];
}

program : Unit {0}
unfolding text_eq Breaker.acquire Breaker.cancel Breaker.record_permit Balancer.acquire
    Balancer.release acquire serve_route
program = tt

first_failure : (serve_route 1 2 (failure true) (pool_of true fresh)).1 ≡ 504
unfolding program
first_failure = refl

second_failure :
    (serve_route 1 2 (response 503) (pool_of true closed)).0.circuit_breaker.state ≡ state_open
unfolding program
second_failure = refl

all_down : (acquire 1 (pool_of false closed)).1 ≡ err err_no_healthy_backends
unfolding program
all_down = refl

built : new_with_config config true ≡ ok fresh
unfolding new_with_config
built = refl

acquire-IsReturned_example :
    IsReturned 1 (pool_of false closed) (acquire 1 (pool_of false closed)).0
acquire-IsReturned_example =
    acquire-IsReturned 1 (pool_of false closed) err_no_healthy_backends (omega arith) all_down

serve_route-released_example :
    ((serve_route 1 2 (failure true) (pool_of true fresh)).0.balancer.backends
      ≡ (pool_of true fresh).balancer.backends)
    × ((e : AcquireFailure)
        → (acquire 1 (pool_of true fresh)).1 ≡ err e
        → (serve_route 1 2 (failure true) (pool_of true fresh)).1 ≡ 503)
    × ((r : Upstream × Permit)
        → (acquire 1 (pool_of true fresh)).1 ≡ ok r
        → (serve_route 1 2 (failure true) (pool_of true fresh)).1 ≡ client_status (failure true))
serve_route-released_example =
    serve_route-released 1 2 (failure true) (pool_of true fresh) (omega arith)

known-of :
    (i : ℕ)
    → is_healthy (pool_of true closed).balancer.backends i ≡ true
    → (u : Upstream) × (find_upstream i (pool_of true closed).upstreams ≡ some u)
unfolding find_upstream is_healthy
known-of zero e = (record { backend = 0; target = bytes "http://a" }, refl)
known-of (suc zero) e = (record { backend = 1; target = bytes "http://b" }, refl)
known-of (suc (suc i)) e = absurd (cc)

pool_of-IsReady : IsReady (pool_of true closed)
unfolding is_healthy
pool_of-IsReady = record {
  pool = record { cursor = omega arith; small = omega arith; known = inl refl };
  closed = refl;
  some_healthy = (0, refl);
  known = known-of;
}

serve_route-closed_example :
    ((serve_route 1 2 (response 500) (pool_of true closed)).1 ≡ client_status (response 500))
    × (¬ IsFailure (response 500)
        → ((serve_route 1 2 (response 500) (pool_of true closed)).0.circuit_breaker.state
            ≡ state_closed)
          × ((serve_route 1 2 (response 500) (pool_of true closed)
                ).0.circuit_breaker.consecutive_failures
              ≡ 0))
    × (IsFailure (response 500)
        → ((serve_route 1 2 (response 500) (pool_of true closed)
              ).0.circuit_breaker.consecutive_failures
            ≡ 2)
          × (closed.consecutive_failures + 1 ≡ closed.failure_threshold
              → ((serve_route 1 2 (response 500) (pool_of true closed)).0.circuit_breaker.state
                  ≡ state_open)
                × ((serve_route 1 2
                      (response 500)
                      (pool_of true closed)).0.circuit_breaker.opened_at
                    ≡ 2))
          × (closed.consecutive_failures + 1 ≢ closed.failure_threshold
              → (serve_route 1 2 (response 500) (pool_of true closed)).0.circuit_breaker.state
                ≡ state_closed))
serve_route-closed_example =
    serve_route-closed 1 2 (response 500) (pool_of true closed) pool_of-IsReady

abbrev both_up : List Backend
both_up = backend true ∷ backend true ∷ []

-- Two requests fail, and the breaker opens. After the timeout a probe is admitted, and finds no
-- healthy backend, while the body of one of the failed responses is still sent.
abbrev events : List Event
events =
    on_permit 1
    ∷ on_permit 2
    ∷ on_backend 1 both_up
    ∷ on_backend 0 both_up
    ∷ on_outcome 1 3 (response 500)
    ∷ on_outcome 0 4 (failure true)
    ∷ on_release 0
    ∷ on_health 0 false
    ∷ on_permit 14
    ∷ on_health 1 false
    ∷ on_backend 0 (backend false ∷ backend false ∷ [])
    ∷ []

all_idle : AllIdle (pool_of true fresh)
all_idle zero b e = ground arith
all_idle (suc zero) b e = ground arith
all_idle (suc (suc i)) b e = absurd (cc)

abbrev probing : Gateway
probing = run events (idle (pool_of true fresh))

probing_state : probing.pool.circuit_breaker.state ≡ state_half_open
unfolding program run step take_backend take_outcome give_back find_upstream is_success set_healthy
probing_state = refl

run-probes_example :
    ((i : ℕ) (b : Backend)
      → get_elem? probing.pool.balancer.backends i ≡ some b
      → b.active_connections ≡ held i probing.requests)
    × (live probing.pool.circuit_breaker.generation (map permit_of probing.requests) ≤ 1)
    × (probing.pool.circuit_breaker.state ≡ state_half_open
        → probing.pool.circuit_breaker.half_open_admitted
          ≡ probing.pool.circuit_breaker.half_open_successes
            + live probing.pool.circuit_breaker.generation (map permit_of probing.requests))
run-probes_example = run-probes config (pool_of true fresh) events built all_idle (omega arith)
