-- ===== src/Metrics/Measured.antt =====
-- What internal/metrics/prometheus.go measures of a request.
use gatex.Prelude.{
  ◌≡◌, inl, inr, refl, ◌∙◌, ap, ℕ, true, false, List, ◌∷◌, Option, none, some, length, arith,
  Bool-cases,
}
use gatex.Prelude.Text.{Text, bytes, text_eq}
use gatex.Prelude.Dict.{mem}
use gatex.Http.{Request, Panic, Handler, Conn, run}
use gatex.Process.{World}
use gatex.Logging.{LoggingWriter}
use gatex.Logging.Transparent.{known, run-logged}
use gatex.Logging.Events.{seen, seen_status, IsFresh, writer_of-fresh}
use gatex.Logging
use gatex.Metrics.{metric_status, metric_method, known_methods, observe, measure_exit, instrument}
use gatex.Metrics.Writers.{short, measured-logged}

-- The deferred function observes the status that was seen, and passes a panic on.
run-measure_exit :
    (limit : Conn → ℕ) (r : Request) (s : Option ℕ) (n : ℕ) (p : Option Panic) (c : Conn)
    (v : World)
    → run limit (measure_exit r (short (known s n)) p) c v ≡ record {
      panic = p;
      conn = c;
      world = record v { recorder = observe r (seen s p) v.metadata v.recorder };
    }
unfolding run measure_exit metric_status
run-measure_exit limit r none n none c v = refl
run-measure_exit limit r none n (some p) c v = refl
run-measure_exit limit r (some x) n none c v = refl
run-measure_exit limit r (some x) n (some p) c v = refl

-- For every handler, request and state, on a connection to which nothing was sent: the client gets from
-- the measured handler what it gets from the handler itself, and a panic is passed on; and the
-- recorder observes once the status that was sent (200 if the handler returned and sent none, 500 if
-- it panicked and sent none), with the route that the handler left in the request's metadata.
pub instrument_lem :
    (limit : Conn → ℕ) (next : Handler World) (r : Request) (c : Conn) (v : World)
    → IsFresh c
    → let inner = run limit (next r) c v in
      run limit (instrument next r) c v ≡ record {
        panic = inner.panic;
        conn = inner.conn;
        world = record inner.world {
          recorder = observe r (seen_status inner) inner.world.metadata inner.world.recorder;
        };
      }
unfolding instrument
instrument_lem limit next r c v h =
    let inner = run limit (next r) c v in
    ap (λ p. run limit p c v) (measured-logged (measure_exit r) (next r) Logging.new_writer)
    ∙ (rw (← writer_of-fresh c h) (run-logged limit (λ w. measure_exit r (short w)) (next r) c v)
        ∙ run-measure_exit limit r inner.conn.status (length inner.conn.body) inner.panic inner.conn
            inner.world)

mem_later : (k q : Text) (ks : List Text) → mem q ks ≡ true → mem q (k ∷ ks) ≡ true
unfolding mem
mem_later k q ks e = ground arith

-- Whatever method a client sends, its label is one of ten: the nine of net/http, and `OTHER`, which
-- stands for all the others.
pub metric_method_lem :
    (method : Text)
    → (mem (metric_method method) (bytes "OTHER" ∷ known_methods) ≡ true)
      × (mem method known_methods ≡ true → metric_method method ≡ method)
      × (mem method known_methods ≡ false → metric_method method ≡ bytes "OTHER")
unfolding metric_method mem text_eq
metric_method_lem method = elim (Bool-cases (mem method known_methods)) [
  | inl listed ↦ rw listed (
      rw (mem_later (bytes "OTHER") method known_methods listed)
        (refl, λ e. refl, λ e. absurd (cc)))
  | inr other ↦ rw other (refl, λ e. absurd (cc), λ e. refl)
]
