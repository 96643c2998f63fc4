-- ===== src/Upstreams/Requests.antt =====
-- A pool of internal/proxy/gateway.go with the requests that are alive. Every call that a request
-- makes on the breaker or on the balancer's pool is a step of its own, so that the requests and the
-- health checker interleave between any two of them.
pub mod Limit
pub mod Counts
pub mod Slots
pub mod Sound
use gatex.Prelude.{
  ℕ, ◌+◌, ◌==◌, Bool, List, [], ◌∷◌, Option, none, some, ok, err, get_elem?, set, remove_at,
  if◌then◌else◌,
}
use gatex.Breaker
use gatex.Breaker.{Permit}
use gatex.Balancer
use gatex.Balancer.{Backend, set_healthy}
use gatex.Upstreams.{
  Upstream, BackendPool, find_upstream, Exchange, is_success, record_exchange, release_upstream,
}

-- A request that has got a permit, by what it does next: `admitted` asks the balancer for a backend;
-- `failed` has got none, and cancels its permit; `unknown` has got one that is no upstream's, and
-- gives it back; `waiting` has called its backend; `answered` has recorded the outcome, and holds its
-- backend while the body of the response is sent.
pub data Request : Type 0 where
  admitted : Permit → Request
  failed : Permit → Request
  unknown : ℕ → Permit → Request
  waiting : Upstream → Permit → Request
  answered : Upstream → Permit → Request

abbrev pub permit_of : Request → Permit
permit_of (admitted permit) = permit
permit_of (failed permit) = permit
permit_of (unknown backend permit) = permit
permit_of (waiting upstream permit) = permit
permit_of (answered upstream permit) = permit

-- How often a request holds the backend.
abbrev pub holds : ℕ → Request → ℕ
holds i (admitted permit) = 0
holds i (failed permit) = 0
holds i (unknown backend permit) = if backend == i then 1 else 0
holds i (waiting upstream permit) = if upstream.backend == i then 1 else 0
holds i (answered upstream permit) = if upstream.backend == i then 1 else 0

unfoldable pub held : ℕ → List Request → ℕ
held i [] = 0
held i (r ∷ rs) = holds i r + held i rs

pub record Gateway : Type 0 where
  pub pool : BackendPool
  pub requests : List Request

-- A request is named by its place in the list.
pub data Event : Type 0 where
  on_permit : ℕ → Event
  on_backend : ℕ → List Backend → Event
  on_outcome : ℕ → ℕ → Exchange → Event
  on_release : ℕ → Event
  on_cancel : ℕ → Event
  on_health : ℕ → Bool → Event

-- `balancer.Acquire` and the search for the backend's upstream. The health and the connections of the
-- backends are atomics, which others may change between the reads of the scan: `seen` is the backends
-- as the scan reads them, each at its own moment, and may be anything.
unfoldable pub take_backend : List Backend → Request → BackendPool → BackendPool × Option Request
take_backend seen (admitted permit) p =
    let (chosen, after) = Balancer.acquire (record p.balancer { backends = seen }) in
    elim chosen [
      | none ↦ (p, some (failed permit))
      | some backend ↦ (
        record p {
          balancer = record p.balancer {
            next = after.next;
            backends = Balancer.acquire_backend backend p.balancer.backends;
          };
        },
        elim (find_upstream backend p.upstreams) [
          | none ↦ some (unknown backend permit)
          | some upstream ↦ some (waiting upstream permit)
        ],
      )
    ]
take_backend seen r p = (p, some r)

-- The permit after a call on it.
abbrev left : Permit → Option Permit → Permit
left permit none = permit
left permit (some after) = after

-- `ModifyResponse` or `ErrorHandler`. The second may follow the first, when the connection cannot be
-- upgraded: the permit has been used up then.
unfoldable pub take_outcome : ℕ → Exchange → Request → BackendPool → BackendPool × Option Request
take_outcome now exchange (waiting upstream permit) p = (
  record_exchange now exchange permit p,
  some (
      answered upstream (
        left permit
          (Breaker.record_permit now (is_success exchange) (some permit) p.circuit_breaker).1)),
)
take_outcome now exchange (answered upstream permit) p = (
  record_exchange now exchange permit p,
  some (
      answered upstream (
        left permit
          (Breaker.record_permit now (is_success exchange) (some permit) p.circuit_breaker).1)),
)
take_outcome now exchange r p = (p, some r)

-- `Release`: at the end of `serveRoute`, or in `pool.acquire`, which goes on to cancel.
unfoldable pub give_back : Request → BackendPool → BackendPool × Option Request
give_back (unknown backend permit) p =
    (record p { balancer = Balancer.release backend p.balancer }, some (failed permit))
give_back (answered upstream permit) p = (release_upstream upstream p, none)
give_back r p = (p, some r)

-- `permit.Cancel`, after which the request has failed.
unfoldable pub cancel_permit : Request → BackendPool → BackendPool × Option Request
cancel_permit (failed permit) p =
    (record p { circuit_breaker = (Breaker.cancel (some permit) p.circuit_breaker).0 }, none)
cancel_permit r p = (p, some r)

-- The request at the place takes its step, and stays in the list if it goes on.
abbrev pub put : ℕ → BackendPool × Option Request → List Request → Gateway
put k (p, none) rs = record { pool = p; requests = remove_at k rs }
put k (p, some r) rs = record { pool = p; requests = set rs k r }

abbrev pub at : ℕ → (Request → BackendPool → BackendPool × Option Request) → Gateway → Gateway
at k f g = elim (get_elem? g.requests k) [ none ↦ g | some r ↦ put k (f r g.pool) g.requests ]

unfoldable pub step : Event → Gateway → Gateway
unfolding take_backend take_outcome give_back cancel_permit
step (on_permit now) g = elim (Breaker.acquire now g.pool.circuit_breaker).1 [
  | ok permit ↦ record {
    pool = record g.pool { circuit_breaker = (Breaker.acquire now g.pool.circuit_breaker).0 };
    requests = admitted permit ∷ g.requests;
  }
  | err e ↦ record g {
    pool = record g.pool { circuit_breaker = (Breaker.acquire now g.pool.circuit_breaker).0 };
  }
]
step (on_backend k seen) g = at k (take_backend seen) g
step (on_outcome k now exchange) g = at k (take_outcome now exchange) g
step (on_release k) g = at k give_back g
step (on_cancel k) g = at k cancel_permit g
step (on_health i healthy) g = record g {
  pool = record g.pool {
    balancer = record g.pool.balancer { backends = set_healthy i healthy g.pool.balancer.backends };
  };
}

unfoldable pub run : List Event → Gateway → Gateway
run [] g = g
run (e ∷ es) g = run es (step e g)

-- The pool with no request alive.
abbrev pub idle : BackendPool → Gateway
idle p = record { pool = p; requests = [] }
