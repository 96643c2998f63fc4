-- ===== src/Upstreams/Leaks.antt =====
-- What `pool.acquire` and `serveRoute` of internal/proxy/gateway.go leave behind in the breaker and
-- in the balancer's pool.
use gatex.Prelude.{
  ℕ, ◌+◌, ◌≤◌, ◌<◌, ◌≡◌, ◌≢◌, ◌⊎◌, inl, inr, true, List, [], ◌∷◌, some, ok, err, arith,
  Option-cases, Result-cases,
}
use gatex.Breaker.{Breaker, Permit, AcquireError, state_closed, state_open, state_half_open}
use gatex.Breaker
use gatex.Balancer
use gatex.Balancer.{Backend, release_backend, is_healthy}
use gatex.Breaker.Permits.{cancel-acquire, acquire-refused}
use gatex.Balancer.Accounting.{release_backend-acquire_backend, release-backends}
use gatex.Balancer.Selection.{acquire-some, acquire-none}
use gatex.Upstreams.{
  Upstream, BackendPool, AcquireFailure, find_upstream, acquire_backend, acquire, Exchange,
  client_status, begin_request, end_request, serve_route,
}

pub find_upstream-backend :
    (b : ℕ) (us : List Upstream) (u : Upstream) → find_upstream b us ≡ some u → u.backend ≡ b
unfolding find_upstream
find_upstream-backend b [] u e = cc
find_upstream-backend b (v ∷ us) u e = ground (arith, find_upstream-backend b us u)

-- What `pool.acquire` can return: the breaker's refusal, a failure that gives everything back, or
-- an upstream whose backend has one active connection more.
pub record IsReturned (now : ℕ) (p q : BackendPool) : Type 0 where
  pub upstreams : q.upstreams ≡ p.upstreams
  pub backends : q.balancer.backends ≡ p.balancer.backends
  pub breaker :
      (q.circuit_breaker ≡ p.circuit_breaker)
      ⊎ ((p.circuit_breaker.state ≡ state_open)
          × (p.circuit_breaker.opened_at + p.circuit_breaker.open_timeout ≤ now)
          × (q.circuit_breaker.state ≡ state_half_open)
          × (q.circuit_breaker.half_open_admitted ≡ 0)
          × (q.circuit_breaker.half_open_successes ≡ 0))

acquire_backend-failed :
    (p : BackendPool) (permit : Permit) (e : AcquireFailure)
    → (acquire_backend permit p).1 ≡ err e
    → ((acquire_backend permit p).0.upstreams ≡ p.upstreams)
      × ((acquire_backend permit p).0.balancer.backends ≡ p.balancer.backends)
      × ((acquire_backend permit p).0.circuit_breaker
          ≡ (Breaker.cancel (some permit) p.circuit_breaker).0)
unfolding acquire_backend
acquire_backend-failed p permit e h = elim (Option-cases (Balancer.acquire p.balancer).0) [
  | inl missed ↦ let same = acquire-none p.balancer missed in ground arith
  | inr (i, found) ↦ elim (Option-cases (find_upstream i p.upstreams)) [
    | inr (u, known) ↦ absurd (ground arith)
    | inl unknown ↦
        let moved = acquire-some p.balancer i found in
        let back = release_backend-acquire_backend i p.balancer.backends in
        ground (arith, release-backends i (Balancer.acquire p.balancer).1)
  ]
]

-- When `pool.acquire` fails, with a breaker that admits some probe, no backend keeps a connection, and the breaker is the one before, or
-- its timeout was over and it is half-open with every probe slot free.
pub acquire-IsReturned :
    (now : ℕ) (p : BackendPool) (e : AcquireFailure)
    → 0 < p.circuit_breaker.half_open_max_requests
    → (acquire now p).1 ≡ err e
    → IsReturned now p (acquire now p).0
unfolding acquire
acquire-IsReturned now p e probes h =
    elim (Result-cases (Breaker.acquire now p.circuit_breaker).1) [
      | inr (x, refused) ↦ ground (arith, acquire-refused now p.circuit_breaker x probes refused)
      | inl (permit, given) ↦
          let admitted : BackendPool = record p {
            circuit_breaker = (Breaker.acquire now p.circuit_breaker).0;
          } in
          let failed = acquire_backend-failed admitted permit e (ground arith) in
          ground (arith, cancel-acquire now p.circuit_breaker permit given)
    ]

-- An upstream that `pool.acquire` returns is one of the pool's, and its backend is healthy and has
-- one active connection more than before; the permit is the breaker's.
pub acquire-ok :
    (now : ℕ) (p : BackendPool) (u : Upstream) (permit : Permit)
    → (acquire now p).1 ≡ ok (u, permit)
    → (find_upstream u.backend p.upstreams ≡ some u)
      × (is_healthy p.balancer.backends u.backend ≡ true)
      × ((acquire now p).0.balancer.backends
          ≡ Balancer.acquire_backend u.backend p.balancer.backends)
      × ((acquire now p).0.circuit_breaker ≡ (Breaker.acquire now p.circuit_breaker).0)
      × ((Breaker.acquire now p.circuit_breaker).1 ≡ ok permit)
      × ((Balancer.acquire p.balancer).0 ≡ some u.backend)
      × ((acquire now p).0.balancer ≡ (Balancer.acquire p.balancer).1)
      × ((acquire now p).0.upstreams ≡ p.upstreams)
unfolding acquire acquire_backend
acquire-ok now p u permit h = elim (Result-cases (Breaker.acquire now p.circuit_breaker).1) [
  | inr (x, refused) ↦ absurd (ground arith)
  | inl (given, admitted) ↦ elim (Option-cases (Balancer.acquire p.balancer).0) [
    | inl missed ↦ absurd (ground arith)
    | inr (i, found) ↦ elim (Option-cases (find_upstream i p.upstreams)) [
      | inl unknown ↦ absurd (ground arith)
      | inr (v, known) ↦
          let at = find_upstream-backend i p.upstreams v known in
          let moved = acquire-some p.balancer i found in ground arith
    ]
  ]
]

-- Served alone by a pool whose breaker admits some probe, a request leaves the backends as they
-- were, with the connection it took given back; it gets 503 if `pool.acquire` fails, and the status
-- of its exchange if it succeeds.
pub serve_route-released :
    (start finish : ℕ) (exchange : Exchange) (p : BackendPool)
    → 0 < p.circuit_breaker.half_open_max_requests
    → ((serve_route start finish exchange p).0.balancer.backends ≡ p.balancer.backends)
      × ((e : AcquireFailure)
          → (acquire start p).1 ≡ err e
          → (serve_route start finish exchange p).1 ≡ 503)
      × ((r : Upstream × Permit)
          → (acquire start p).1 ≡ ok r
          → (serve_route start finish exchange p).1 ≡ client_status exchange)
unfolding serve_route begin_request end_request
serve_route-released start finish exchange p probes = elim (Result-cases (acquire start p).1) [
  | inr (e, failed) ↦
      let back = acquire-IsReturned start p e probes failed in ground (arith, back.backends)
  | inl ((u, permit), given) ↦
      let got = acquire-ok start p u permit given in
      let back = release_backend-acquire_backend u.backend p.balancer.backends in
      ground (arith, release-backends u.backend (acquire start p).0.balancer)
]

pub find_upstream-head :
    (b : ℕ) (u : Upstream) (us : List Upstream) → u.backend ≡ b → find_upstream b (u ∷ us) ≡ some u
unfolding find_upstream
find_upstream-head b u us e = ground arith

pub find_upstream-tail :
    (b : ℕ) (u : Upstream) (us : List Upstream)
    → u.backend ≢ b
    → find_upstream b (u ∷ us) ≡ find_upstream b us
unfolding find_upstream
find_upstream-tail b u us e = ground arith
