-- ===== src/Upstreams/Requests/Slots.antt =====
-- The probe slots of the breaker of internal/proxy/gateway.go are those of the permits of the requests
-- that are alive, after every step of a request.
use gatex.Prelude.{
  ℕ, zero, suc, ◌+◌, ◌^◌, ◌<◌, ◌≡◌, inl, inr, refl, ap, ◌∙◌, true, List, [], ◌∷◌, some, arith,
  Option-cases, Result-cases, get_elem?, get_elem?-map, map, map-remove_at, set, set_same, All,
  All-set, All-remove_at, All-get_elem?,
}
use gatex.Breaker.{Breaker, Permit, Config, new_with_config, state_half_open}
use gatex.Breaker
use gatex.Breaker.Probes.{System, IsAccounted}
use gatex.Breaker.Probes.Flight.{
  acquired-IsAccounted, refused-IsAccounted, recorded-IsAccounted, cancelled-IsAccounted,
  drop-IsAccounted, record_permit-used,
}
use gatex.Balancer
use gatex.Balancer.{Backend}
use gatex.Upstreams.{is_success, Upstream, find_upstream, Exchange}
use gatex.Upstreams.Requests.Limit.{at-rule}
use gatex.Upstreams.Requests.{
  Gateway, Request, admitted, failed, unknown, waiting, answered, permit_of, Event, on_permit,
  on_backend, on_outcome, on_release, on_cancel, on_health, take_backend, take_outcome, give_back,
  cancel_permit, put, step,
}

-- The breaker, with the permits of the requests.
abbrev pub system : Gateway → System
system g = record { breaker = g.pool.circuit_breaker; permits = map permit_of g.requests }

-- The permit of a request that has recorded its outcome is used up.
abbrev IsSettled : Request → Type 0
IsSettled (admitted permit) = Unit
IsSettled (failed permit) = Unit
IsSettled (unknown backend permit) = Unit
IsSettled (waiting upstream permit) = Unit
IsSettled (answered upstream permit) = permit.used ≡ true

-- The breaker's slots are accounted for by the permits; `n` bounds the generations so far.
pub record IsTracked (n : ℕ) (g : Gateway) : Type 0 where
  pub accounted : IsAccounted n (system g)
  pub settled : All IsSettled g.requests

IsAccounted-later : (n : ℕ) (s : System) → IsAccounted n s → IsAccounted (n + 1) s
IsAccounted-later n s a = record {
  valid = a.valid;
  early = omega (arith, a.early);
  old = a.old;
  slots = a.slots;
  none_live = a.none_live;
}

map-set :
    (k : ℕ) (rs : List Request) (r : Request)
    → map permit_of (set rs k r) ≡ set (map permit_of rs) k (permit_of r)
map-set k [] r = refl
map-set zero (x ∷ rs) r = refl
map-set (suc k) (x ∷ rs) r = ap (◌∷◌ (permit_of x)) (map-set k rs r)

module _ (n : ℕ) (fits : n + 1 < 2 ^ 64) (g : Gateway) (h : IsTracked n g) where
  ps : List Permit
  ps = map permit_of g.requests

  later-IsTracked : IsTracked (n + 1) g
  later-IsTracked = record {
    accounted = IsAccounted-later n (system g) h.accounted;
    settled = h.settled;
  }

  -- A step that leaves the breaker and the permit alone.
  moved-IsTracked :
      (k : ℕ) (r q : Request) (balancer : Balancer.Pool)
      → get_elem? g.requests k ≡ some r
      → permit_of q ≡ permit_of r
      → IsSettled q
      → IsTracked (n + 1) (put k (record g.pool { balancer = balancer }, some q) g.requests)
  unfolding ps
  moved-IsTracked k r q balancer found same done =
      let kept : map permit_of (set g.requests k q) ≡ ps =
        map-set k g.requests q
        ∙ ap (set ps k) same
        ∙ set_same k ps (permit_of r) (get_elem?-map permit_of k g.requests r found) in
      record {
        accounted = rw kept (IsAccounted-later n (system g) h.accounted);
        settled = All-set IsSettled g.requests k q h.settled done;
      }

  same-IsTracked :
      (k : ℕ) (r : Request)
      → get_elem? g.requests k ≡ some r
      → IsTracked (n + 1) (put k (g.pool, some r) g.requests)
  same-IsTracked k r found = rw (set_same k g.requests r found) later-IsTracked

  permit-IsTracked : (now : ℕ) → IsTracked (n + 1) (step (on_permit now) g)
  unfolding ps step
  permit-IsTracked now = elim (Result-cases (Breaker.acquire now g.pool.circuit_breaker).1) [
    | inl (permit, given) ↦
        rw (given, step)
          (record {
            accounted =
                acquired-IsAccounted n fits g.pool.circuit_breaker ps h.accounted now permit given;
            settled = (tt, h.settled);
          })
    | inr (e, refused) ↦
        rw (refused, step)
          (record {
            accounted =
                refused-IsAccounted n fits g.pool.circuit_breaker ps h.accounted now e refused;
            settled = h.settled;
          })
  ]

  backend-IsTracked :
      (k : ℕ) (seen : List Backend) (r : Request)
      → get_elem? g.requests k ≡ some r
      → IsTracked (n + 1) (put k (take_backend seen r g.pool) g.requests)
  unfolding take_backend
  backend-IsTracked k seen (admitted permit) found =
      elim (Option-cases (Balancer.acquire (record g.pool.balancer { backends = seen })).0) [
        | inl missed ↦
            rw (missed, take_backend) (moved-IsTracked k _ (failed permit) _ found refl tt)
        | inr (j, chosen) ↦ elim (Option-cases (find_upstream j g.pool.upstreams)) [
          | inl missing ↦
              rw (chosen, missing, take_backend)
                (moved-IsTracked k _ (unknown j permit) _ found refl tt)
          | inr (u, known) ↦
              rw (chosen, known, take_backend)
                (moved-IsTracked k _ (waiting u permit) _ found refl tt)
        ]
      ]
  backend-IsTracked k seen (failed permit) found = same-IsTracked k (failed permit) found
  backend-IsTracked k seen (unknown b permit) found = same-IsTracked k (unknown b permit) found
  backend-IsTracked k seen (waiting u permit) found = same-IsTracked k (waiting u permit) found
  backend-IsTracked k seen (answered u permit) found = same-IsTracked k (answered u permit) found

  recorded-IsTracked :
      (k now : ℕ) (exchange : Exchange) (r : Request) (u : Upstream)
      → get_elem? g.requests k ≡ some r
      → IsTracked
          (n + 1)
          (put k (take_outcome now exchange (waiting u (permit_of r)) g.pool) g.requests)
  unfolding ps take_outcome
  recorded-IsTracked k now exchange r u found =
      let permit = permit_of r in
      let used : Permit = record permit { used = true } in
      rw (record_permit-used now (is_success exchange) permit g.pool.circuit_breaker) (record {
        accounted = rw (map-set k g.requests (answered u used)) (
            recorded-IsAccounted n fits g.pool.circuit_breaker ps h.accounted now k
              (is_success exchange) permit (get_elem?-map permit_of k g.requests r found));
        settled = All-set IsSettled g.requests k (answered u used) h.settled refl;
      })

  outcome-IsTracked :
      (k now : ℕ) (exchange : Exchange) (r : Request)
      → get_elem? g.requests k ≡ some r
      → IsTracked (n + 1) (put k (take_outcome now exchange r g.pool) g.requests)
  unfolding take_outcome
  outcome-IsTracked k now exchange (waiting u permit) found =
      recorded-IsTracked k now exchange (waiting u permit) u found
  outcome-IsTracked k now exchange (answered u permit) found =
      recorded-IsTracked k now exchange (answered u permit) u found
  outcome-IsTracked k now exchange (admitted permit) found =
      same-IsTracked k (admitted permit) found
  outcome-IsTracked k now exchange (failed permit) found = same-IsTracked k (failed permit) found
  outcome-IsTracked k now exchange (unknown b permit) found =
      same-IsTracked k (unknown b permit) found

  release-IsTracked :
      (k : ℕ) (r : Request)
      → get_elem? g.requests k ≡ some r
      → IsTracked (n + 1) (put k (give_back r g.pool) g.requests)
  unfolding ps give_back
  release-IsTracked k (unknown b permit) found =
      moved-IsTracked k (unknown b permit) (failed permit) _ found refl tt
  release-IsTracked k (answered u permit) found = record {
    accounted = rw (map-remove_at permit_of k g.requests) (
        drop-IsAccounted (n + 1) k g.pool.circuit_breaker ps permit
          (get_elem?-map permit_of k g.requests (answered u permit) found)
          (All-get_elem? IsSettled g.requests k (answered u permit) h.settled found)
          (IsAccounted-later n (system g) h.accounted));
    settled = All-remove_at IsSettled k g.requests h.settled;
  }
  release-IsTracked k (admitted permit) found = same-IsTracked k (admitted permit) found
  release-IsTracked k (failed permit) found = same-IsTracked k (failed permit) found
  release-IsTracked k (waiting u permit) found = same-IsTracked k (waiting u permit) found

  cancel-IsTracked :
      (k : ℕ) (r : Request)
      → get_elem? g.requests k ≡ some r
      → IsTracked (n + 1) (put k (cancel_permit r g.pool) g.requests)
  unfolding ps cancel_permit
  cancel-IsTracked k (failed permit) found = record {
    accounted = rw (map-remove_at permit_of k g.requests) (
        cancelled-IsAccounted n fits g.pool.circuit_breaker ps h.accounted k permit
          (get_elem?-map permit_of k g.requests (failed permit) found));
    settled = All-remove_at IsSettled k g.requests h.settled;
  }
  cancel-IsTracked k (admitted permit) found = same-IsTracked k (admitted permit) found
  cancel-IsTracked k (unknown b permit) found = same-IsTracked k (unknown b permit) found
  cancel-IsTracked k (waiting u permit) found = same-IsTracked k (waiting u permit) found
  cancel-IsTracked k (answered u permit) found = same-IsTracked k (answered u permit) found

  pub step-IsTracked : (e : Event) → IsTracked (n + 1) (step e g)
  unfolding step
  step-IsTracked (on_permit now) = permit-IsTracked now
  step-IsTracked (on_backend k seen) =
      at-rule (IsTracked (n + 1)) k (take_backend seen) g later-IsTracked (backend-IsTracked k seen)
  step-IsTracked (on_outcome k now exchange) =
      at-rule (IsTracked (n + 1)) k (take_outcome now exchange) g later-IsTracked
        (outcome-IsTracked k now exchange)
  step-IsTracked (on_release k) =
      at-rule (IsTracked (n + 1)) k give_back g later-IsTracked (release-IsTracked k)
  step-IsTracked (on_cancel k) =
      at-rule (IsTracked (n + 1)) k cancel_permit g later-IsTracked (cancel-IsTracked k)
  step-IsTracked (on_health i healthy) = record {
    accounted = IsAccounted-later n (system g) h.accounted;
    settled = h.settled;
  }
