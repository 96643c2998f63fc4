-- ===== src/Upstreams/Requests/Limit.antt =====
-- No step of the requests of internal/proxy/gateway.go changes the limit on the probes.
use gatex.Prelude.{
  ℕ, ◌≡◌, inl, inr, refl, ◌∙◌, List, [], ◌∷◌, Option, none, some, Option-cases, Result-cases,
  get_elem?,
}
use gatex.Breaker.Permits.{
  acquire-half_open_max_requests, record-half_open_max_requests, cancel-half_open_max_requests,
}
use gatex.Breaker
use gatex.Balancer
use gatex.Balancer.{Backend}
use gatex.Upstreams.{BackendPool, Exchange, is_success}
use gatex.Upstreams.Requests.{
  Gateway, Request, admitted, failed, unknown, waiting, answered, Event, on_permit, on_backend,
  on_outcome, on_release, on_cancel, on_health, take_backend, take_outcome, give_back,
  cancel_permit, put, at, step, run,
}

-- What holds of the state, and after every step of a request at the place, holds after the step.
pub at-rule {ℓ} :
    (P : Gateway → Type ℓ) (k : ℕ) (f : Request → BackendPool → BackendPool × Option Request)
    (g : Gateway)
    → P g
    → ((r : Request) → get_elem? g.requests k ≡ some r → P (put k (f r g.pool) g.requests))
    → P (at k f g)
at-rule P k f g same after = elim (Option-cases (get_elem? g.requests k)) [
  | inl missing ↦ rw (missing, at) same
  | inr (r, found) ↦ rw (found, at) (after r found)
]

abbrev limit : Gateway → ℕ
limit g = g.pool.circuit_breaker.half_open_max_requests

put-limit :
    (k : ℕ) (q : BackendPool × Option Request) (rs : List Request)
    → limit (put k q rs) ≡ q.0.circuit_breaker.half_open_max_requests
put-limit k (p, none) rs = refl
put-limit k (p, some r) rs = refl

abbrev Keeps : (BackendPool → BackendPool × Option Request) → BackendPool → Type 0
Keeps f p =
    (f p).0.circuit_breaker.half_open_max_requests ≡ p.circuit_breaker.half_open_max_requests

at-limit :
    (k : ℕ) (f : Request → BackendPool → BackendPool × Option Request) (g : Gateway)
    → ((r : Request) → Keeps (f r) g.pool)
    → limit (at k f g) ≡ limit g
at-limit k f g same =
    at-rule (λ h. limit h ≡ limit g) k f g refl
      (λ r found. put-limit k (f r g.pool) g.requests ∙ same r)

backend-limit :
    (seen : List Backend) (p : BackendPool) (r : Request) → Keeps (take_backend seen r) p
unfolding take_backend
backend-limit seen p (admitted permit) =
    elim (Option-cases (Balancer.acquire (record p.balancer { backends = seen })).0) [
      | inl missed ↦ rw (missed, take_backend) refl
      | inr (i, found) ↦ rw (found, take_backend) refl
    ]
backend-limit seen p (failed permit) = refl
backend-limit seen p (unknown b permit) = refl
backend-limit seen p (waiting u permit) = refl
backend-limit seen p (answered u permit) = refl

outcome-limit :
    (now : ℕ) (exchange : Exchange) (p : BackendPool) (r : Request)
    → Keeps (take_outcome now exchange r) p
unfolding take_outcome
outcome-limit now exchange p (waiting u permit) =
    record-half_open_max_requests now (is_success exchange) (some permit) p.circuit_breaker
outcome-limit now exchange p (answered u permit) =
    record-half_open_max_requests now (is_success exchange) (some permit) p.circuit_breaker
outcome-limit now exchange p (admitted permit) = refl
outcome-limit now exchange p (failed permit) = refl
outcome-limit now exchange p (unknown b permit) = refl

give_back-limit : (p : BackendPool) (r : Request) → Keeps (give_back r) p
unfolding give_back
give_back-limit p (admitted permit) = refl
give_back-limit p (failed permit) = refl
give_back-limit p (unknown b permit) = refl
give_back-limit p (waiting u permit) = refl
give_back-limit p (answered u permit) = refl

cancel-limit : (p : BackendPool) (r : Request) → Keeps (cancel_permit r) p
unfolding cancel_permit
cancel-limit p (failed permit) = cancel-half_open_max_requests (some permit) p.circuit_breaker
cancel-limit p (admitted permit) = refl
cancel-limit p (unknown b permit) = refl
cancel-limit p (waiting u permit) = refl
cancel-limit p (answered u permit) = refl

step-limit : (e : Event) (g : Gateway) → limit (step e g) ≡ limit g
unfolding step
step-limit (on_permit now) g =
    let same = acquire-half_open_max_requests now g.pool.circuit_breaker in
    elim (Result-cases (Breaker.acquire now g.pool.circuit_breaker).1) [
      | inl (permit, given) ↦ rw (given, step) same
      | inr (e, refused) ↦ rw (refused, step) same
    ]
step-limit (on_backend k seen) g = at-limit k (take_backend seen) g (backend-limit seen g.pool)
step-limit (on_outcome k now exchange) g =
    at-limit k (take_outcome now exchange) g (outcome-limit now exchange g.pool)
step-limit (on_release k) g = at-limit k give_back g (give_back-limit g.pool)
step-limit (on_cancel k) g = at-limit k cancel_permit g (cancel-limit g.pool)
step-limit (on_health i healthy) g = refl

pub run-limit :
    (es : List Event) (g : Gateway)
    → (run es g).pool.circuit_breaker.half_open_max_requests
      ≡ g.pool.circuit_breaker.half_open_max_requests
unfolding run
run-limit [] g = refl
run-limit (e ∷ es) g = run-limit es (step e g) ∙ step-limit e g
