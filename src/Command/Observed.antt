-- ===== src/Command/Observed.antt =====
-- The log and the metrics of a request under cmd/gateway/main.go.
use gatex.Prelude.{◌≡◌, refl, sym, ◌∙◌, ap, subst, ℕ, ◌∷◌, Option, none, some, length}
use gatex.Http.{Request, Panic, Handler, Conn, Outcome, run}
use gatex.Http
use gatex.RequestMeta.{id_header, ensure, request_id}
use gatex.Process.{Entry, World}
use gatex.Config
use gatex.Cors.{cors}
use gatex.Logging.{request_logger, completed_request}
use gatex.Logging.Transparent.{known}
use gatex.Logging.Events.{seen_status, IsFresh, logged_request, logged_run, request_logger_lem}
use gatex.Metrics.{instrument, observe}
use gatex.Metrics.Measured.{instrument_lem}
use gatex.Middleware.{chain}
use gatex.Command.{cors_options, gateway_path}

-- A run `o` that went through log and metrics, for the run `inner` of the handler below on the request
-- `q`: the same for the client, one event and one observation more, both with the status seen.
pub record IsObserved (q : Request) (inner o : Outcome World) : Type 0 where
  pub panic : o.panic ≡ inner.panic
  pub conn : o.conn ≡ inner.conn
  pub event :
      (e : Entry) × (o.world.completed ≡ e ∷ inner.world.completed)
      × (e.status ≡ seen_status inner)
      × (e.response_bytes ≡ length inner.conn.body)
  pub observation :
      o.world.recorder ≡ observe q (seen_status inner) inner.world.metadata inner.world.recorder
  pub recovered : o.world.recovered ≡ inner.world.recovered

-- The run of the handlers below log and metrics.
abbrev pub inner_run :
    (Conn → ℕ) → Config.Cors → Handler World → Request → Conn → World → Outcome World
inner_run limit c gateway = logged_run limit (cors (cors_options c) gateway)

-- The run with its event.
abbrev written : Request → Outcome World → Outcome World
written q inner = record {
  panic = inner.panic;
  conn = inner.conn;
  world = record inner.world {
    completed =
        completed_request q (known inner.conn.status (length inner.conn.body)) (seen_status inner)
          inner.world
        ∷ inner.world.completed;
  };
}

entry-status :
    (q : Request) (s : Option ℕ) (n status : ℕ) (v : World)
    → (completed_request q (known s n) status v).status ≡ status
unfolding completed_request
entry-status q s n status v = refl

entry-bytes :
    (q : Request) (s : Option ℕ) (n status : ℕ) (v : World)
    → (completed_request q (known s n) status v).response_bytes ≡ n
unfolding completed_request
entry-bytes q none n status v = refl
entry-bytes q (some x) n status v = refl

module _ (limit : Conn → ℕ) where
  gateway_path-nested :
      (c : Config.Cors) (gateway : Handler World)
      → gateway_path c gateway ≡ request_logger (instrument (cors (cors_options c) gateway))
  unfolding gateway_path chain
  gateway_path-nested c gateway = refl

  -- For every gateway, request and state, on a connection to which nothing was sent: one event is
  -- logged and one observation is made, with the same status and for the same response, which is the
  -- one that the CORS middleware and the gateway make of the request with its identifier.
  pub gateway_path-IsObserved :
      (cors : Config.Cors) (gateway : Handler World) (r : Request) (c : Conn) (v : World)
      → IsFresh c
      → IsObserved
          (logged_request r v)
          (inner_run limit cors gateway r c v)
          (run limit (gateway_path cors gateway r) c v)
  gateway_path-IsObserved settings gateway r c v h =
      let next = cors (cors_options settings) gateway in
      let q = logged_request r v in
      let metadata = (ensure v.random v.now r v.metadata).1 in
      let d : Conn = record c { header = Http.set id_header (request_id q metadata) c.header } in
      let u : World = record v { metadata = metadata } in
      let inner = inner_run limit settings gateway r c v in
      let same =
        ap (λ f. run limit (f r) c v) (gateway_path-nested settings gateway)
        ∙ (request_logger_lem limit (instrument next) r c v h
            ∙ ap (written q) (instrument_lem limit next q d u h)) in
      subst (IsObserved q inner) (sym same) (record {
        panic = refl;
        conn = refl;
        event = (
          completed_request q (known inner.conn.status (length inner.conn.body)) (seen_status inner)
              (record inner.world {
                recorder = observe q (seen_status inner) inner.world.metadata inner.world.recorder;
              }),
          refl,
          entry-status q inner.conn.status (length inner.conn.body) (seen_status inner) _,
          entry-bytes q inner.conn.status (length inner.conn.body) (seen_status inner) _,
        );
        observation = refl;
        recovered = refl;
      })
