-- ===== src/Metrics/Counted.antt =====
-- What the counters of internal/metrics/prometheus.go say of the requests that were served.
use gatex.Prelude.{◌≡◌, ℕ, List, [], ◌∷◌, leb, if◌then◌else◌, map}
use gatex.Prelude.Text.{Text}
use gatex.Http.{Request, Handler, Conn, Outcome, run}
use gatex.Process.{World, Labels}
use gatex.Logging.Events.{seen_status, IsFresh}
use gatex.Metrics.{instrument}

-- A request, the handler that serves it, and its connection.
pub record Served : Type 0 where
  pub handler : Handler World
  pub request : Request
  pub conn : Conn

-- The handler serves on a new connection, and does not touch the recorder itself.
pub record IsPlain (limit : Conn → ℕ) (s : Served) : Type 0 where
  pub fresh : IsFresh s.conn
  pub apart : (v : World) → (run limit (s.handler s.request) s.conn v).world.recorder ≡ v.recorder

module _ (limit : Conn → ℕ) where
  abbrev pub outcome : Served → World → Outcome World
  outcome s v = run limit (instrument s.handler s.request) s.conn v

  -- Requests served one after another.
  pub serve_all : List Served → World → World
  serve_all [] v = v
  serve_all (s ∷ ss) v = serve_all ss (outcome s v).world

  -- The statuses that the clients get.
  unfoldable pub statuses : List Served → World → List ℕ
  statuses [] v = []
  statuses (s ∷ ss) v = seen_status (outcome s v) ∷ statuses ss (outcome s v).world

pub errors_of : List ℕ → List ℕ
errors_of [] = []
errors_of (s ∷ ss) = if leb 500 s then s ∷ errors_of ss else errors_of ss

-- New labels, the newest first.
pub onto : List Text → List Text → List Text
onto [] old = old
onto (x ∷ xs) old = onto xs (x ∷ old)

abbrev pub status_label : Labels → Text
status_label l = l.2

-- The status labels of the increments of a vector.
abbrev pub labels_of : List Labels → List Text
labels_of = map status_label
