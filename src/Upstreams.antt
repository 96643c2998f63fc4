-- ===== src/Upstreams.antt =====
-- internal/proxy/gateway.go: a backend pool of the gateway, that is a circuit breaker and a
-- balancer's pool, and a request on its way through them. The functions here are the calls of one
-- request, in the order in which the code makes them, when no other request comes between them; the
-- module Requests has each call as a step of its own, and interleaves them.
pub mod Leaks
pub mod Verdicts
pub mod Requests
mod Tests
use gatex.Prelude.{
  ℕ, ◌+◌, Bool, true, false, ◌&&◌, List, [], ◌∷◌, Option, none, some, Result, ok, err, ltb, leb,
  ◌==◌, if◌then◌else◌,
}
use gatex.Prelude.Text.{Text}
use gatex.Breaker
use gatex.Breaker.{AcquireError, err_open, err_half_open_probe_limit, Permit}
use gatex.Balancer

-- An upstream's backend is known by its place in the balancer's pool.
pub record Upstream : Type 0 where
  pub backend : ℕ
  pub target : Text

pub record BackendPool : Type 0 where
  pub balancer : Balancer.Pool
  pub circuit_breaker : Breaker.Breaker
  pub upstreams : List Upstream

-- The errors of `pool.acquire`: the breaker's, and `errNoHealthyBackends`.
pub data AcquireFailure : Type 0 where
  breaker_failure : AcquireError → AcquireFailure
  err_no_healthy_backends : AcquireFailure

-- The loop of `acquire` over the upstreams.
pub find_upstream : ℕ → List Upstream → Option Upstream
find_upstream backend [] = none
find_upstream backend (u ∷ us) =
    let rest = find_upstream backend us in if u.backend == backend then some u else rest

-- What follows once the breaker has given a permit.
pub acquire_backend : Permit → BackendPool → BackendPool × Result AcquireFailure (Upstream × Permit)
unfolding find_upstream
acquire_backend permit p = elim (Balancer.acquire p.balancer).0 [
  | none ↦ (
    record p {
      balancer = (Balancer.acquire p.balancer).1;
      circuit_breaker = (Breaker.cancel (some permit) p.circuit_breaker).0;
    },
    err err_no_healthy_backends,
  )
  | some backend ↦ elim (find_upstream backend p.upstreams) [
    | some upstream ↦
        (record p { balancer = (Balancer.acquire p.balancer).1 }, ok (upstream, permit))
    | none ↦ (
      record p {
        balancer = Balancer.release backend (Balancer.acquire p.balancer).1;
        circuit_breaker = (Breaker.cancel (some permit) p.circuit_breaker).0;
      },
      err err_no_healthy_backends,
    )
  ]
]

pub acquire : ℕ → BackendPool → BackendPool × Result AcquireFailure (Upstream × Permit)
unfolding acquire_backend
acquire now p =
    let admitted : BackendPool = record p {
      circuit_breaker = (Breaker.acquire now p.circuit_breaker).0;
    } in
    elim (Breaker.acquire now p.circuit_breaker).1 [
      | err e ↦ (admitted, err (breaker_failure e))
      | ok permit ↦ acquire_backend permit admitted
    ]

-- How the call of the backend ends: a response with its status code, or an error, for which the
-- context says whether the deadline has passed.
pub data Exchange : Type 0 where
  response : ℕ → Exchange
  failure : Bool → Exchange

-- Whether `ModifyResponse` or `ErrorHandler` records a success.
pub is_success : Exchange → Bool
is_success (response status) = if leb 500 status && ltb status 600 then false else true
is_success (failure timed_out) = false

-- The status that the client gets.
pub client_status : Exchange → ℕ
client_status (response status) = status
client_status (failure timed_out) = if timed_out then 504 else 502

-- `serveRoute` until it calls the backend, when no other request comes between: the failure's status, or the upstream and the permit.
pub begin_request : ℕ → BackendPool → BackendPool × Result ℕ (Upstream × Permit)
unfolding acquire
begin_request now p = elim (acquire now p).1 [
  | err e ↦ ((acquire now p).0, err 503)
  | ok admitted ↦ ((acquire now p).0, ok admitted)
]

-- `ModifyResponse` and `ErrorHandler`, which record the outcome when the headers of the response, or
-- an error, are there.
abbrev pub record_exchange : ℕ → Exchange → Permit → BackendPool → BackendPool
record_exchange now exchange permit p = record p {
  circuit_breaker =
      (Breaker.record_permit now (is_success exchange) (some permit) p.circuit_breaker).0;
}

-- The deferred `Release`, after the body of the response.
abbrev pub release_upstream : Upstream → BackendPool → BackendPool
release_upstream upstream p = record p { balancer = Balancer.release upstream.backend p.balancer }

-- What `serveRoute` does from the exchange on, when no other request comes between.
pub end_request : ℕ → Exchange → Upstream × Permit → BackendPool → BackendPool × ℕ
unfolding is_success client_status
end_request now exchange (upstream, permit) p =
    (release_upstream upstream (record_exchange now exchange permit p), client_status exchange)

-- `serveRoute` of a request that no other request interleaves with.
pub serve_route : ℕ → ℕ → Exchange → BackendPool → BackendPool × ℕ
unfolding begin_request end_request
serve_route start finish exchange p = elim (begin_request start p).1 [
  | err status ↦ ((begin_request start p).0, status)
  | ok admitted ↦ end_request finish exchange admitted (begin_request start p).0
]
