-- ===== src/Upstreams/Verdicts.antt =====
-- The verdict that a request of `serveRoute` in internal/proxy/gateway.go gives its breaker.
use gatex.Prelude.{
  ℕ, ◌+◌, ◌<◌, ◌≡◌, ◌≢◌, inl, inr, true, false, some, ok, arith, Option-cases, Bool-cases, ◌≤◌,
}
use gatex.Breaker.{Permit, state_closed, state_open}
use gatex.Breaker.Permits.{acquire-closed, record_permit-closed}
use gatex.Balancer
use gatex.Balancer.{is_healthy}
use gatex.Balancer.Scan.{IsPool}
use gatex.Balancer.Selection.{acquire-some, acquire-none_iff}
use gatex.Upstreams.{
  Upstream, BackendPool, find_upstream, acquire_backend, acquire, Exchange, response, failure,
  is_success, client_status, begin_request, end_request, serve_route,
}
use gatex.Upstreams.Leaks.{acquire-ok}

-- The pool of a running gateway: a healthy backend, an upstream for every healthy backend, and a
-- closed breaker.
pub record IsReady (p : BackendPool) : Type 0 where
  pub pool : IsPool p.balancer
  pub closed : p.circuit_breaker.state ≡ state_closed
  pub some_healthy : (i : ℕ) × (is_healthy p.balancer.backends i ≡ true)
  pub known :
      (i : ℕ)
      → is_healthy p.balancer.backends i ≡ true
      → (u : Upstream) × (find_upstream i p.upstreams ≡ some u)

-- `pool.acquire` succeeds on such a pool.
pub acquire-IsReady :
    (now : ℕ) (p : BackendPool)
    → IsReady p
    → (u : Upstream) × (permit : Permit) × ((acquire now p).1 ≡ ok (u, permit))
unfolding acquire acquire_backend
acquire-IsReady now p r =
    let (permit, given) = acquire-closed now p.circuit_breaker r.closed in
    elim (Option-cases (Balancer.acquire p.balancer).0) [
      | inl missed ↦
          let (i, up) = r.some_healthy in
          absurd (ground (arith, (acquire-none_iff p.balancer r.pool).0 missed i))
      | inr (i, found) ↦
          let (u, known) = r.known i (acquire-some p.balancer i found).0 in
          (u, permit, ground arith)
    ]

-- What the breaker counts as a failure: an error, or a status from 500 to 599.
abbrev pub IsFailure : Exchange → Type 0
IsFailure (response status) = (500 ≤ status) × (status < 600)
IsFailure (failure timed_out) = Unit

is_success-IsFailure :
    (exchange : Exchange)
    → (is_success exchange ≡ false → IsFailure exchange)
      × (is_success exchange ≡ true → ¬ IsFailure exchange)
unfolding is_success
is_success-IsFailure (response status) = ground arith
is_success-IsFailure (failure timed_out) = ((λ _. tt), λ e. absurd (cc))

-- On a ready pool a request is served: the client gets the status of its exchange; a success sets
-- the breaker's streak of failures to zero; a failure, that is an error or a status from 500 to
-- 599, lengthens it, and opens the breaker at the request's end when it reaches the threshold.
pub serve_route-closed :
    (start finish : ℕ) (exchange : Exchange) (p : BackendPool)
    → IsReady p
    → ((serve_route start finish exchange p).1 ≡ client_status exchange)
      × (¬ IsFailure exchange
          → ((serve_route start finish exchange p).0.circuit_breaker.state ≡ state_closed)
            × ((serve_route start finish exchange p).0.circuit_breaker.consecutive_failures ≡ 0))
      × (IsFailure exchange
          → ((serve_route start finish exchange p).0.circuit_breaker.consecutive_failures
              ≡ p.circuit_breaker.consecutive_failures + 1)
            × (p.circuit_breaker.consecutive_failures + 1 ≡ p.circuit_breaker.failure_threshold
                → ((serve_route start finish exchange p).0.circuit_breaker.state ≡ state_open)
                  × ((serve_route start finish exchange p).0.circuit_breaker.opened_at ≡ finish))
            × (p.circuit_breaker.consecutive_failures + 1 ≢ p.circuit_breaker.failure_threshold
                → (serve_route start finish exchange p).0.circuit_breaker.state ≡ state_closed))
unfolding serve_route begin_request end_request
serve_route-closed start finish exchange p r =
    let (u, permit, given) = acquire-IsReady start p r in
    let got = acquire-ok start p u permit given in
    let recorded =
      record_permit-closed start finish (is_success exchange) p.circuit_breaker permit r.closed
        (got.4) in
    elim (Bool-cases (is_success exchange)) [
      | inl success ↦ let no = (is_success-IsFailure exchange).1 success in ground arith
      | inr bad ↦ let yes = (is_success-IsFailure exchange).0 bad in ground arith
    ]
