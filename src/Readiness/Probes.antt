-- ===== src/Readiness/Probes.antt =====
-- What the probes of internal/metrics/health.go answer.
use gatex.Prelude.{
  ◌≡◌, ◌≢◌, inl, inr, refl, ◌∙◌, ℕ, Bool, true, false, ◌||◌, List, [], ◌∷◌, ◌++◌, Option, none,
  some, if◌then◌else◌, All, List-cases,
}
use gatex.Prelude.Text.{Text, bytes, text_eq}
use gatex.Prelude.Dict.{Distinct, keys}
use gatex.Http.{
  Header, Request, Conn, Outcome, run, get, conn_write_header, conn_append, taken, write_header,
  write, returns, read_world, Program, http_error, on_header, error_header,
}
use gatex.Http
use gatex.Http.Headers.{get-set, get-values, values-set_other}
use gatex.Http.Serve.{conn-first}
use gatex.Upstreams.{BackendPool}
use gatex.Readiness.{
  HealthResponse, probe, write_health_response, health_headers, health_handler, report,
  readiness_handler, unavailable_pools, sort,
}
use gatex.Readiness.Pools.{IsAvailable, unavailable_pools_lem, sort_none}

abbrev pub is_probe : Request → Bool
is_probe r = text_eq r.method (bytes "GET") || text_eq r.method (bytes "HEAD")

get-health_headers :
    (h : Header) → get (bytes "Cache-Control") (health_headers h) ≡ bytes "no-store"
unfolding health_headers text_eq
get-health_headers h =
    let g = Http.set (bytes "Cache-Control") (bytes "no-store") h in
    get-values (bytes "Cache-Control") (health_headers h) g (
      values-set_other (bytes "Cache-Control") (bytes "Content-Type") (bytes "application/json") g
        refl)
    ∙ get-set (bytes "Cache-Control") (bytes "no-store") h

-- A response that `json.Marshal` can always make, as it can of texts.
abbrev pub Marshals : (HealthResponse → Option Text) → Type 0
Marshals marshal = (response : HealthResponse) → (body : Text) × (marshal response ≡ some body)

abbrev ready : HealthResponse
ready = record { status = bytes "ready"; unavailable_pools = [] }

abbrev not_ready : List Text → HealthResponse
not_ready names = record { status = bytes "not_ready"; unavailable_pools = names }

module _ (marshal : HealthResponse → Option Text) (limit : Conn → ℕ) {W : Type 0} where
  -- A response of a probe with this status, and what is not touched.
  abbrev pub IsAnswer : ℕ → W → Outcome W → Type 0
  IsAnswer status v o =
      (o.conn.status ≡ some status)
      × (get (bytes "Cache-Control") o.conn.sent_header ≡ bytes "no-store")
      × (o.world ≡ v)
      × (o.panic ≡ none)

  run-written :
      (head : Bool) (status : ℕ) (body : Text) (c : Conn) (v : W)
      → c.status ≡ none
      → Http.is_informational status ≡ false
      → IsAnswer status v (
          run limit
            (on_header health_headers
              (write_header status (if head then returns else write body (λ n failed. returns))))
            c
            v)
  unfolding run conn_append
  run-written true status body c v idle plain =
      rw (conn-first status (record c { header = health_headers c.header }) idle plain)
        (refl, get-health_headers c.header, refl, refl)
  run-written false status body c v idle plain =
      rw (conn-first status (record c { header = health_headers c.header }) idle plain)
        (refl, get-health_headers c.header, refl, refl)

  written :
      (r : Request) (status : ℕ) (response : HealthResponse) (body : Text)
      → marshal response ≡ some body
      → write_health_response marshal {W = W} r status response
        ≡ on_header health_headers (
            write_header status (
              if text_eq r.method (bytes "HEAD")
              then returns
              else write (body ++ (10 ∷ [])) (λ n failed. returns)))
  unfolding write_health_response
  written r status response body e = rw (e, write_health_response) refl

  reported :
      (r : Request) (pools : List Text)
      → (sort pools ≡ []
          → report marshal {W = W} r pools ≡ write_health_response marshal r 200 ready)
        × ((n : Text) (ns : List Text)
            → sort pools ≡ n ∷ ns
            → report marshal {W = W} r pools
              ≡ write_health_response marshal r 503 (not_ready (n ∷ ns)))
  unfolding report
  reported r pools = (λ e. rw (e, report) refl, λ n ns e. rw (e, report) refl)

  run-write_health_response :
      (r : Request) (status : ℕ) (response : HealthResponse) (body : Text) (c : Conn) (v : W)
      → marshal response ≡ some body
      → c.status ≡ none
      → Http.is_informational status ≡ false
      → IsAnswer status v (run limit (write_health_response marshal r status response) c v)
  run-write_health_response r status response body c v e idle plain =
      rw (written r status response body e)
        (run-written (text_eq r.method (bytes "HEAD")) status (body ++ (10 ∷ [])) c v idle plain)

  run-report :
      (total : Marshals marshal) (r : Request) (pools : List Text) (c : Conn) (v : W)
      → c.status ≡ none
      → (sort pools ≡ [] → IsAnswer 200 v (run limit (report marshal r pools) c v))
        × (sort pools ≢ [] → IsAnswer 503 v (run limit (report marshal r pools) c v))
  run-report total r pools c v idle = (empty, full)
    where
      empty : sort pools ≡ [] → IsAnswer 200 v (run limit (report marshal r pools) c v)
      empty e =
          let (body, made) = total ready in
          rw ((reported r pools).0 e)
            (run-write_health_response r 200 ready body c v made idle refl)

      full : sort pools ≢ [] → IsAnswer 503 v (run limit (report marshal r pools) c v)
      full f = elim (List-cases (sort pools)) [
        | inl e ↦ absurd (f e)
        | inr (n, ns, e) ↦
            let (body, made) = total (not_ready (n ∷ ns)) in
            rw ((reported r pools).1 n ns e)
              (run-write_health_response r 503 (not_ready (n ∷ ns)) body c v made idle refl)
      ]

  run-probe : (r : Request) (p : Program W) → is_probe r ≡ true → probe marshal r p ≡ p
  unfolding probe
  run-probe r p e = rw e refl

  pub run-health_handler :
      (r : Request) (c : Conn) (v : W)
      → Marshals marshal
      → is_probe r ≡ true
      → c.status ≡ none
      → IsAnswer 200 v (run limit (health_handler marshal r) c v)
  unfolding health_handler
  run-health_handler r c v total e idle =
      let response : HealthResponse = record { status = bytes "ok"; unavailable_pools = [] } in
      let (body, made) = total response in
      rw (run-probe r (write_health_response marshal r 200 response) e)
        (run-write_health_response r 200 response body c v made idle refl)

  -- The readiness of the gateway with these pools: a GET or HEAD request gets 200 if every pool has a
  -- closed breaker and a healthy backend, and 503 if one has not; the answer is not to be cached, and
  -- the state stays.
  pub readiness_handler_lem :
      (pools : W → List (Text × BackendPool)) (r : Request) (c : Conn) (v : W)
      → Marshals marshal
      → is_probe r ≡ true
      → Distinct (keys (pools v))
      → c.status ≡ none
      → let source : Option (W → List Text) = some (λ w. unavailable_pools (pools w)) in
        let o = run limit (readiness_handler marshal source r) c v in
        (All (λ e. IsAvailable e.1) (pools v) → IsAnswer 200 v o)
        × (¬ All (λ e. IsAvailable e.1) (pools v) → IsAnswer 503 v o)
  unfolding run readiness_handler
  readiness_handler_lem pools r c v total e d idle =
      let us = unavailable_pools (pools v) in
      let (empty, full) = run-report total r us c v idle in
      let none_out = (unavailable_pools_lem (pools v) d).0 in
      let allowed =
        run-probe r (read_world (λ w. report marshal r (unavailable_pools (pools w)))) e in
      rw allowed (
        λ h. empty ((sort_none us).1 (none_out.1 h)),
        λ out. full (λ f. out (none_out.0 ((sort_none us).0 f))),
      )
