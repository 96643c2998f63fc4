-- ===== src/Command/Whole.antt =====
-- The handler of the whole process, cmd/gateway/main.go.
use gatex.Prelude.{
  ◌≡◌, refl, sym, ◌∙◌, ap, subst, ℕ, Bool, true, false, not, ◌&&◌, List, ◌∷◌, Option, none, some,
  if◌then◌else◌, arith,
}
use gatex.Prelude.Text.{Text, bytes, text_eq}
use gatex.Http.{
  Request, Panic, abort_handler, other_panic, Handler, Conn, Outcome, run, client_status,
}
use gatex.Process.{Entry, World}
use gatex.Config
use gatex.Metrics.{observe}
use gatex.Middleware.{recovery}
use gatex.Middleware.Panics.{IsRecovered, after_panic, recovery_lem}
use gatex.Logging.Events.{seen, seen_status, IsFresh, logged_request}
use gatex.Readiness.{HealthResponse, health_handler, readiness_handler}
use gatex.Readiness.Probes.{Marshals, IsAnswer, is_probe, run-health_handler}
use gatex.Command.{gateway_path, serve_mux, new_gateway_handler}
use gatex.Command.Observed.{IsObserved, inner_run, gateway_path-IsObserved}

-- The requests that `http.ServeMux` gives to the gateway.
abbrev pub is_routed : (Request → Bool) → Request → Bool
is_routed is_clean r =
    is_clean r
    && not (text_eq r.path (bytes "/metrics"))
    && not (text_eq r.path (bytes "/healthz"))
    && not (text_eq r.path (bytes "/readyz"))

serve_mux-rest :
    (is_clean : Request → Bool) (redirect scrape healthz readyz rest : Handler World) (r : Request)
    → is_routed is_clean r ≡ true
    → serve_mux is_clean redirect scrape healthz readyz rest r ≡ rest r
unfolding serve_mux
serve_mux-rest is_clean redirect scrape healthz readyz rest r e =
    at (is_clean r) (text_eq r.path (bytes "/metrics")) (text_eq r.path (bytes "/healthz"))
      (text_eq r.path (bytes "/readyz")) e
  where
    at :
        (a b c d : Bool)
        → a && not b && not c && not d ≡ true
        → (if not a
            then redirect r
            else if b
            then scrape r
            else if c
            then healthz r
            else if d
            then readyz r
            else rest r)
          ≡ rest r
    at true false false false e = refl
    at true false false true e = absurd (cc)
    at true false true d e = absurd (cc)
    at true true c d e = absurd (cc)
    at false b c d e = absurd (cc)

serve_mux-healthz :
    (is_clean : Request → Bool) (redirect scrape healthz readyz rest : Handler World) (r : Request)
    → is_clean r ≡ true
    → r.path ≡ bytes "/healthz"
    → serve_mux is_clean redirect scrape healthz readyz rest r ≡ healthz r
unfolding serve_mux text_eq
serve_mux-healthz is_clean redirect scrape healthz readyz rest r clean path =
    at (is_clean r) (text_eq r.path (bytes "/metrics")) (text_eq r.path (bytes "/healthz")) clean
      (ap (λ p. text_eq p (bytes "/metrics")) path) (ap (λ p. text_eq p (bytes "/healthz")) path)
  where
    at :
        (a b c : Bool)
        → a ≡ true
        → b ≡ false
        → c ≡ true
        → (if not a
            then redirect r
            else if b
            then scrape r
            else if c
            then healthz r
            else if text_eq r.path (bytes "/readyz")
            then readyz r
            else rest r)
          ≡ healthz r
    at false b c e f g = absurd (cc)
    at true true c e f g = absurd (cc)
    at true false false e f g = absurd (cc)
    at true false true e f g = refl

-- What the client, the log and the metrics say of a request: the same status.
pub record IsAgreed (q : Request) (status : ℕ) (before after : World) : Type 0 where
  pub event : (e : Entry) × (after.completed ≡ e ∷ before.completed) × (e.status ≡ status)
  pub observation : after.recorder ≡ observe q status before.metadata before.recorder

client_status-seen : (s : Option ℕ) → (elim s [ none ↦ 200 | some status ↦ status ]) ≡ seen s none
client_status-seen none = refl
client_status-seen (some status) = refl

after_panic-seen :
    (s : Option ℕ) (p : Panic)
    → (elim (after_panic s) [ none ↦ 200 | some status ↦ status ]) ≡ seen s (some p)
after_panic-seen none p = refl
after_panic-seen (some status) p = refl

-- The status of the client, from the run below log and metrics.
recovered-seen :
    (p : Option Panic) (mid o : Outcome World)
    → IsRecovered mid o p
    → o.panic ≡ none
    → seen mid.conn.status p ≡ client_status o.conn
recovered-seen none mid o k alive =
    sym (client_status-seen mid.conn.status) ∙ ap (λ x. client_status x.conn) (sym k)
recovered-seen (some abort_handler) mid o k alive = absurd (ground (arith, k.0, alive))
recovered-seen (some (other_panic n)) mid o k alive =
    sym (after_panic-seen mid.conn.status (other_panic n))
    ∙ ap (λ s. elim s [ none ↦ 200 | some status ↦ status ]) (sym k.1)

-- Recovery changes neither the events nor the observations.
recovered-world :
    (p : Option Panic) (mid o : Outcome World)
    → IsRecovered mid o p
    → (o.world.completed ≡ mid.world.completed) × (o.world.recorder ≡ mid.world.recorder)
recovered-world none mid o k = (ap (λ x. x.world.completed) k, ap (λ x. x.world.recorder) k)
recovered-world (some abort_handler) mid o k = (ap (λ x. x.completed) k.2, ap (λ x. x.recorder) k.2)
recovered-world (some (other_panic n)) mid o k =
    (ap (λ x. x.completed) k.2, ap (λ x. x.recorder) k.2)

recovered-agrees :
    (q : Request) (inner mid o : Outcome World)
    → IsObserved q inner mid
    → IsRecovered mid o mid.panic
    → o.panic ≡ none
    → IsAgreed q (client_status o.conn) inner.world o.world
recovered-agrees q inner mid o h k alive =
    let same : seen_status inner ≡ client_status o.conn =
      ap (λ c. seen c.status inner.panic) (sym h.conn)
      ∙ (ap (seen mid.conn.status) (sym h.panic) ∙ recovered-seen mid.panic mid o k alive) in
    let (log, measured) = recovered-world mid.panic mid o k in
    let (e, logged, status, size) = h.event in
    record {
      event = (e, log ∙ logged, status ∙ same);
      observation =
          measured
          ∙ (h.observation ∙ ap (λ s. observe q s inner.world.metadata inner.world.recorder) same);
    }

module _ (is_clean : Request → Bool) (redirect : Handler World) (scrape : Handler World)
    (marshal : HealthResponse → Option Text) (limit : Conn → ℕ) where
  -- A request for a path other than `/metrics`, `/healthz` and `/readyz`, which `http.ServeMux` takes
  -- as it is, on a connection to which nothing was sent: whatever the gateway does, even if it panics,
  -- as long as the response is not aborted, one event is logged and one observation made, and their
  -- status is the status that the client gets.
  pub new_gateway_handler-IsAgreed :
      (settings : Config.Cors) (readiness : Option (World → List Text)) (gateway : Handler World)
      (r : Request) (c : Conn) (v : World)
      → is_routed is_clean r ≡ true
      → IsFresh c
      → let handler =
          new_gateway_handler is_clean redirect scrape marshal settings readiness gateway in
        let o = run limit (handler r) c v in
        o.panic ≡ none
        → IsAgreed
            (logged_request r v)
            (client_status o.conn)
            (inner_run limit settings gateway r c v).world
            o.world
  unfolding new_gateway_handler
  new_gateway_handler-IsAgreed settings readiness gateway r c v routed fresh alive =
      let mux =
        serve_mux is_clean redirect scrape (health_handler marshal)
          (readiness_handler marshal readiness) (gateway_path settings gateway) in
      let chosen =
        serve_mux-rest is_clean redirect scrape (health_handler marshal)
          (readiness_handler marshal readiness) (gateway_path settings gateway) r routed in
      let observed =
        subst
          (λ p.
            IsObserved (logged_request r v) (inner_run limit settings gateway r c v)
              (run limit p c v))
          (sym chosen) (gateway_path-IsObserved limit settings gateway r c v fresh) in
      recovered-agrees (logged_request r v) (inner_run limit settings gateway r c v)
        (run limit (mux r) c v) (run limit (recovery mux r) c v) observed
        (recovery_lem limit mux r c v) alive

  -- A clean GET or HEAD request for `/healthz` is answered with 200, whatever the gateway does with
  -- requests, ready or not; it is neither logged nor measured, and nothing panics.
  pub healthz_lem :
      (settings : Config.Cors) (readiness : Option (World → List Text)) (gateway : Handler World)
      (r : Request) (c : Conn) (v : World)
      → Marshals marshal
      → is_clean r ≡ true
      → r.path ≡ bytes "/healthz"
      → is_probe r ≡ true
      → c.status ≡ none
      → let handler =
          new_gateway_handler is_clean redirect scrape marshal settings readiness gateway in
        IsAnswer marshal limit 200 v (run limit (handler r) c v)
  unfolding new_gateway_handler
  healthz_lem settings readiness gateway r c v total clean path e idle =
      let mux =
        serve_mux is_clean redirect scrape (health_handler marshal)
          (readiness_handler marshal readiness) (gateway_path settings gateway) in
      let chosen =
        serve_mux-healthz is_clean redirect scrape (health_handler marshal)
          (readiness_handler marshal readiness) (gateway_path settings gateway) r clean path in
      let answer =
        subst (λ p. IsAnswer marshal limit 200 v (run limit p c v)) (sym chosen)
          (run-health_handler marshal limit r c v total e idle) in
      let mid = run limit (mux r) c v in
      let same : run limit (recovery mux r) c v ≡ mid =
        subst (IsRecovered mid (run limit (recovery mux r) c v)) answer.3
          (recovery_lem limit mux r c v) in
      subst (IsAnswer marshal limit 200 v) (sym same) answer
