-- ===== src/Upstreams/Requests/Counts.antt =====
-- The connections that the balancer of internal/proxy/gateway.go counts are those that the requests
-- hold, after every step of a request or of the health checker.
use gatex.Prelude.{
  ℕ, zero, suc, ◌+◌, ◌≤◌, ◌≡◌, ◌∙◌, inl, inr, refl, Bool, List, [], ◌∷◌, Option, none, some, arith,
  Option-cases, Result-cases, get_elem?, set, remove_at,
}
use gatex.Breaker
use gatex.Balancer
use gatex.Balancer.{Backend}
use gatex.Balancer.Accounting.{
  get_elem?-acquire_backend, get_elem?-release_backend, get_elem?-set_healthy,
}
use gatex.Upstreams.{BackendPool, Exchange, find_upstream}
use gatex.Upstreams.Leaks.{find_upstream-backend}
use gatex.Upstreams.Requests.{
  Gateway, Request, admitted, failed, unknown, waiting, answered, Event, on_permit, on_backend,
  on_outcome, on_release, on_cancel, on_health, take_backend, take_outcome, give_back,
  cancel_permit, holds, held, put, at, step,
}
use gatex.Upstreams.Requests.Limit.{at-rule}

abbrev backends : BackendPool → List Backend
backends p = p.balancer.backends

-- Every backend counts the requests that hold it.
abbrev pub IsHeld : Gateway → Type 0
IsHeld g =
    (i : ℕ) (b : Backend)
    → get_elem? (backends g.pool) i ≡ some b
    → b.active_connections ≡ held i g.requests

held-set :
    (i k : ℕ) (rs : List Request) (r q : Request)
    → get_elem? rs k ≡ some r
    → held i (set rs k q) + holds i r ≡ held i rs + holds i q
unfolding held
held-set i k [] r q e = cc
held-set i zero (x ∷ rs) r q e = ground arith
held-set i (suc k) (x ∷ rs) r q e = ground (arith, held-set i k rs r q e)

held-remove_at :
    (i k : ℕ) (rs : List Request) (r : Request)
    → get_elem? rs k ≡ some r
    → held i (remove_at k rs) + holds i r ≡ held i rs
unfolding held
held-remove_at i k [] r e = cc
held-remove_at i zero (x ∷ rs) r e = ground arith
held-remove_at i (suc k) (x ∷ rs) r e = ground (arith, held-remove_at i k rs r e)

abbrev holds_left : ℕ → Option Request → ℕ
holds_left i none = 0
holds_left i (some r) = holds i r

-- A step of the request changes the counts by what it holds more or less.
abbrev IsBalanced : Request → BackendPool → BackendPool × Option Request → Type 0
IsBalanced r p q =
    (i : ℕ) (c : Backend)
    → get_elem? (backends q.0) i ≡ some c
    → (b : Backend) × (get_elem? (backends p) i ≡ some b)
      × (holds i r ≤ b.active_connections
          → c.active_connections + holds i r ≡ b.active_connections + holds_left i q.1)

put-IsHeld :
    (k : ℕ) (g : Gateway) (r : Request) (q : BackendPool × Option Request)
    → get_elem? g.requests k ≡ some r
    → IsHeld g
    → IsBalanced r g.pool q
    → IsHeld (put k q g.requests)
put-IsHeld k g r (p, none) found h moved i c e =
    let (b, before, change) = moved i c e in
    let count = held-remove_at i k g.requests r found in
    let now = h i b before in omega (arith, change (omega arith))
put-IsHeld k g r (p, some s) found h moved i c e =
    let (b, before, change) = moved i c e in
    let count = held-set i k g.requests r s found in
    let least = held-remove_at i k g.requests r found in
    let now = h i b before in omega (arith, change (omega arith))

at-IsHeld :
    (k : ℕ) (f : Request → BackendPool → BackendPool × Option Request) (g : Gateway)
    → IsHeld g
    → ((r : Request) → IsBalanced r g.pool (f r g.pool))
    → IsHeld (at k f g)
at-IsHeld k f g h moved =
    at-rule IsHeld k f g h (λ r found. put-IsHeld k g r (f r g.pool) found h (moved r))

stays-IsBalanced : (p : BackendPool) (r : Request) → IsBalanced r p (p, some r)
stays-IsBalanced p r i c e = (c, e, λ _. refl)

take_backend-IsBalanced :
    (seen : List Backend) (p : BackendPool) (r : Request) → IsBalanced r p (take_backend seen r p)
unfolding take_backend
take_backend-IsBalanced seen p (admitted permit) i c e =
    elim (Option-cases (Balancer.acquire (record p.balancer { backends = seen })).0) [
      | inl missed ↦ (c, ground arith, λ _. ground arith)
      | inr (j, found) ↦
          let (b, before, more) =
            get_elem?-acquire_backend j i p.balancer.backends c (ground arith) in
          elim (Option-cases (find_upstream j p.upstreams)) [
            | inl missing ↦ (b, before, λ _. ground arith)
            | inr (u, known) ↦
                let same = find_upstream-backend j p.upstreams u known in
                (b, before, λ _. ground arith)
          ]
    ]
take_backend-IsBalanced seen p (failed permit) i c e = stays-IsBalanced p (failed permit) i c e
take_backend-IsBalanced seen p (unknown b permit) i c e =
    stays-IsBalanced p (unknown b permit) i c e
take_backend-IsBalanced seen p (waiting u permit) i c e =
    stays-IsBalanced p (waiting u permit) i c e
take_backend-IsBalanced seen p (answered u permit) i c e =
    stays-IsBalanced p (answered u permit) i c e

take_outcome-IsBalanced :
    (now : ℕ) (exchange : Exchange) (p : BackendPool) (r : Request)
    → IsBalanced r p (take_outcome now exchange r p)
unfolding take_outcome
take_outcome-IsBalanced now exchange p (admitted permit) i c e = (c, e, λ _. refl)
take_outcome-IsBalanced now exchange p (failed permit) i c e = (c, e, λ _. refl)
take_outcome-IsBalanced now exchange p (unknown b permit) i c e = (c, e, λ _. refl)
take_outcome-IsBalanced now exchange p (waiting u permit) i c e = (c, e, λ _. refl)
take_outcome-IsBalanced now exchange p (answered u permit) i c e = (c, e, λ _. refl)

give_back-IsBalanced : (p : BackendPool) (r : Request) → IsBalanced r p (give_back r p)
unfolding give_back Balancer.release
give_back-IsBalanced p (unknown j permit) i c e =
    let (b, before, less) = get_elem?-release_backend j i p.balancer.backends c e in
    (b, before, λ enough. ground arith)
give_back-IsBalanced p (answered u permit) i c e =
    let (b, before, less) = get_elem?-release_backend u.backend i p.balancer.backends c e in
    (b, before, λ enough. ground arith)
give_back-IsBalanced p (admitted permit) i c e = stays-IsBalanced p (admitted permit) i c e
give_back-IsBalanced p (failed permit) i c e = stays-IsBalanced p (failed permit) i c e
give_back-IsBalanced p (waiting u permit) i c e = stays-IsBalanced p (waiting u permit) i c e

cancel_permit-IsBalanced : (p : BackendPool) (r : Request) → IsBalanced r p (cancel_permit r p)
unfolding cancel_permit
cancel_permit-IsBalanced p (admitted permit) i c e = (c, e, λ _. refl)
cancel_permit-IsBalanced p (failed permit) i c e = (c, e, λ _. refl)
cancel_permit-IsBalanced p (unknown b permit) i c e = (c, e, λ _. refl)
cancel_permit-IsBalanced p (waiting u permit) i c e = (c, e, λ _. refl)
cancel_permit-IsBalanced p (answered u permit) i c e = (c, e, λ _. refl)

health-IsHeld :
    (j : ℕ) (healthy : Bool) (g : Gateway) → IsHeld g → IsHeld (step (on_health j healthy) g)
unfolding step
health-IsHeld j healthy g h i b e =
    let (c, before, same) = get_elem?-set_healthy j i healthy g.pool.balancer.backends b e in
    same ∙ h i c before

pub step-IsHeld : (e : Event) (g : Gateway) → IsHeld g → IsHeld (step e g)
unfolding step held
step-IsHeld (on_permit now) g h =
    elim (Result-cases (Breaker.acquire now g.pool.circuit_breaker).1) [
      | inl (permit, given) ↦ rw (given, step) (λ i b at. ground (arith, h i b at))
      | inr (e, refused) ↦ rw (refused, step) h
    ]
step-IsHeld (on_backend k seen) g h =
    at-IsHeld k (take_backend seen) g h (take_backend-IsBalanced seen g.pool)
step-IsHeld (on_outcome k now exchange) g h =
    at-IsHeld k (take_outcome now exchange) g h (take_outcome-IsBalanced now exchange g.pool)
step-IsHeld (on_release k) g h = at-IsHeld k give_back g h (give_back-IsBalanced g.pool)
step-IsHeld (on_cancel k) g h = at-IsHeld k cancel_permit g h (cancel_permit-IsBalanced g.pool)
step-IsHeld (on_health j healthy) g h = health-IsHeld j healthy g h
