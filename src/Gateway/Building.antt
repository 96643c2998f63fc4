-- ===== src/Gateway/Building.antt =====
-- What the parts of `NewGatewayWithTransport` in internal/proxy/gateway.go build from valid settings.
use gatex.Prelude.{
  ℕ, zero, suc, ◌+◌, ◌^◌, ◌<◌, ◌≡◌, ◌≢◌, ◌⊎◌, inl, inr, refl, ap, subst, sym, ◌∙◌, true, false,
  List, [], ◌∷◌, map, Option, some, ok, arith, All, Result-cases, length,
}
use gatex.Prelude.Int.{ℤ, is_neg}
use gatex.Prelude.Text.{Text, bytes, text_eq_iff, trim_space}
use gatex.HealthChecker.{HealthChecker, new_health_checker}
use gatex.Config.{HealthCheck, PoolConfig, ParsedUrl}
use gatex.Config.Spec.{IsHealthCheck}
use gatex.Config.Routes.{IsBackendUrl, IsPoolConfig}
use gatex.Breaker.{Breaker, state_closed, new_with_config}
use gatex.Balancer.{Pool, Backend, is_healthy}
use gatex.Balancer.Construction.{IsNewPool, IsFresh, IsBlank, new_pool_with_strategy_iff}
use gatex.Balancer.Scan.{is_healthy-lt}
use gatex.Upstreams.{Upstream, find_upstream}
use gatex.Upstreams.Leaks.{find_upstream-head, find_upstream-tail}
use gatex.Upstreams.Verdicts.{IsReady}
use gatex.Gateway.{GatewayPool, build_upstreams, build_pool}

-- A text that is blank has no scheme: what validation relies on in `url.Parse`.
abbrev pub IsParser : (Text → Option ParsedUrl) → Type 0
IsParser parse = (s : Text) (u : ParsedUrl) → parse s ≡ some u → u.scheme ≢ [] → trim_space s ≢ []

module _ (parse : Text → Option ParsedUrl) where
  build_upstreams-ok :
      (k : ℕ) (urls : List Text)
      → All (IsBackendUrl parse) urls
      → (us : List Upstream) × (build_upstreams parse k urls ≡ ok us)
        × ((i : ℕ) → i < length urls → (u : Upstream) × (find_upstream (k + i) us ≡ some u))
  unfolding build_upstreams
  build_upstreams-ok k [] h = ([], refl, λ i l. absurd (omega arith))
  build_upstreams-ok k (url ∷ urls) (h, hs) =
      let (v, parsed, scheme, host) = h in
      let (us, made, known) = build_upstreams-ok (k + 1) urls hs in
      let first : Upstream = record { backend = k; target = url } in
      (first ∷ us, ground arith, all_known k first us urls refl known)
    where
      all_known :
          (k : ℕ) (first : Upstream) (us : List Upstream) (urls : List Text)
          → first.backend ≡ k
          → ((i : ℕ) → i < length urls → (u : Upstream) × (find_upstream (k + 1 + i) us ≡ some u))
          → (i : ℕ) → i < suc (length urls)
          → (u : Upstream) × (find_upstream (k + i) (first ∷ us) ≡ some u)
      all_known k first us urls e known zero l =
          (first, find_upstream-head (k + 0) first us (omega arith))
      all_known k first us urls e known (suc i) l =
          let (u, found) = known i (omega arith) in
          let same : k + 1 + i ≡ k + suc i = omega arith in
          let skip = find_upstream-tail (k + suc i) first us (omega arith) in
          (u, skip ∙ rw (← same) found)

  urls-solid :
      (urls : List Text)
      → IsParser parse
      → All (IsBackendUrl parse) urls
      → All (λ url. ¬ IsBlank url) urls
  urls-solid [] p h = tt
  urls-solid (url ∷ urls) p ((u, parsed, scheme, host), hs) =
      (p url u parsed scheme, urls-solid urls p hs)

fresh-closed :
    (t o h : ℤ)
    → is_neg t ≡ false
    → is_neg o ≡ false
    → is_neg h ≡ false
    → (b : Breaker) × (new_with_config
          (record { failure_threshold = t; open_timeout = o; half_open_max_requests = h })
          true
        ≡ ok b)
      × (b.state ≡ state_closed)
unfolding new_with_config
fresh-closed t o h ht ho hh =
    elim (Result-cases (
      new_with_config
        (record { failure_threshold = t; open_timeout = o; half_open_max_requests = h }) true)) [
          | inl (b, made) ↦ (b, made, ground arith)
          | inr (e, refused) ↦ absurd (ground arith)
        ]

fresh-healthy : (bs : List Backend) → All IsFresh bs → 0 < length bs → is_healthy bs 0 ≡ true
unfolding is_healthy
fresh-healthy [] h l = absurd (omega arith)
fresh-healthy (b ∷ bs) h l = h.0.up

positive {ℓ} : {A : Type ℓ} (xs : List A) → xs ≢ [] → 0 < length xs
positive [] h = absurd (h refl)
positive (x ∷ xs) h = omega arith

checker-ok :
    (h : HealthCheck)
    → IsHealthCheck h
    → (k : HealthChecker) × (new_health_checker h.interval h.timeout h.path ≡ ok k)
unfolding new_health_checker
checker-ok h v = elim (Result-cases (new_health_checker h.interval h.timeout h.path)) [
  | inl made ↦ made
  | inr (e, refused) ↦ absurd (ground (arith, text_eq_iff h.path []))
]

length-map {ℓ κ} :
    {A : Type ℓ} {B : Type κ} (f : A → B) (xs : List A) → length (map f xs) ≡ length xs
length-map f [] = refl
length-map f (x ∷ xs) = ap suc (length-map f xs)

found_at :
    (i : ℕ) (u : Upstream) (us : List Upstream)
    → find_upstream (0 + i) us ≡ some u
    → find_upstream i us ≡ some u
found_at i u us e =
    let same : 0 + i ≡ i = omega arith in subst (λ k. find_upstream k us ≡ some u) same e

-- From the settings of a valid pool that is not of an astronomic size, a pool is built that is ready
-- to serve.
module _ (parse : Text → Option ParsedUrl) (laws : IsParser parse) where
  fresh-IsReady :
      (c : PoolConfig) (p : Pool) (b : Breaker) (us : List Upstream)
      → length c.backends + length c.backends < 2 ^ 64
      → c.backends ≢ []
      → (c.strategy ≡ bytes "round_robin") ⊎ (c.strategy ≡ bytes "least_connections")
      → IsNewPool c.backends c.strategy p
      → b.state ≡ state_closed
      → ((i : ℕ) → i < length c.backends → (u : Upstream) × (find_upstream (0 + i) us ≡ some u))
      → IsReady (record { balancer = p; circuit_breaker = b; upstreams = us })
  fresh-IsReady c p b us small nonempty strategy new closed known =
      let size : length p.backends ≡ length c.backends =
        sym (length-map (λ b. b.url) p.backends) ∙ ap length new.members in
      let some_backend = positive c.backends nonempty in
      let chosen = new.chosen in
      let first = new.first in
      record {
        pool = record { cursor = omega arith; small = omega arith; known = ground arith };
        closed = closed;
        some_healthy = (0, fresh-healthy p.backends new.fresh (omega arith));
        known = λ i up.
            let (u, e) = known i (omega (arith, is_healthy-lt p.backends i up)) in
            (u, found_at i u us e);
      }

  pub build_pool-ok :
      (name : Text) (c : PoolConfig)
      → length c.backends + length c.backends < 2 ^ 64
      → IsPoolConfig parse (name, c)
      → (g : GatewayPool) × (build_pool parse c ≡ ok g) × IsReady g.pool
  unfolding build_pool
  build_pool-ok name c small v =
      let (p, made, new) =
        (new_pool_with_strategy_iff c.backends c.strategy).1
          (v.some_backend, v.strategy, urls-solid parse c.backends laws v.urls) in
      let (k, checked) = checker-ok c.health_check v.health in
      let (b, broken, closed) =
        fresh-closed c.circuit_breaker.failure_threshold c.circuit_breaker.open_timeout
          c.circuit_breaker.half_open_max_requests v.threshold v.open_timeout v.probes in
      let (us, upstreams, known) = build_upstreams-ok parse 0 c.backends v.urls in
      (
        record {
          pool = record { balancer = p; circuit_breaker = b; upstreams = us };
          health_checker = k;
        },
        rw (made, checked, broken, upstreams) refl,
        fresh-IsReady c p b us small v.some_backend v.strategy new closed known,
      )
