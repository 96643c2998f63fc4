-- ===== src/Logging/Events.antt =====
-- The events that internal/middleware/logging.go writes.
use gatex.Prelude.{◌≡◌, refl, ◌∙◌, ap, ℕ, [], ◌∷◌, Option, none, some, length}
use gatex.Http.{Request, Panic, Handler, Conn, Outcome, run}
use gatex.Http
use gatex.RequestMeta.{id_header, ensure, request_id}
use gatex.Process.{World}
use gatex.Logging.{
  LoggingWriter, new_writer, logged, status_of, final_status, completed_request, log_exit,
  request_logger,
}
use gatex.Logging.Transparent.{known, writer_of, run-logged}

-- The status that a run stands for: the one sent; if none was sent, 200 for a handler that returned,
-- which is what the server then sends, and 500 for one that panicked.
abbrev pub seen : Option ℕ → Option Panic → ℕ
seen (some status) p = status
seen none none = 200
seen none (some p) = 500

abbrev pub seen_status : {W : Type 0} → Outcome W → ℕ
seen_status o = seen o.conn.status o.panic

abbrev pub IsFresh : Conn → Type 0
IsFresh c = (c.status ≡ none) × (c.body ≡ [])

pub final_status-seen :
    (s : Option ℕ) (n : ℕ) (p : Option Panic) → final_status (known s n) p ≡ seen s p
unfolding final_status status_of
final_status-seen none n none = refl
final_status-seen none n (some p) = refl
final_status-seen (some x) n none = refl
final_status-seen (some x) n (some p) = refl

pub writer_of-fresh : (c : Conn) → IsFresh c → writer_of c ≡ new_writer
writer_of-fresh c h = ap (λ s. known s (length c.body)) h.0 ∙ ap (λ b. known none (length b)) h.1

-- The deferred function adds the event and passes a panic on.
run-log_exit :
    (limit : Conn → ℕ) (r : Request) (w : LoggingWriter) (p : Option Panic) (c : Conn) (v : World)
    → run limit (log_exit r w p) c v ≡ record {
      panic = p;
      conn = c;
      world = record v { completed = completed_request r w (final_status w p) v ∷ v.completed };
    }
unfolding run log_exit
run-log_exit limit r w none c v = refl
run-log_exit limit r w (some p) c v = refl

-- The request, the connection and the state that the handler under the logger starts with.
abbrev pub logged_request : Request → World → Request
logged_request r v = (ensure v.random v.now r v.metadata).0

abbrev pub logged_run : (Conn → ℕ) → Handler World → Request → Conn → World → Outcome World
logged_run limit next r c v =
    let (q, metadata) = ensure v.random v.now r v.metadata in
    run limit (next q) (record c { header = Http.set id_header (request_id q metadata) c.header })
      (record v { metadata = metadata })

-- For every handler, request and state, on a connection to which nothing was sent: the handler runs on
-- the request with its identifier, which stands in the response's headers; the client gets from the
-- logged handler what it gets from the handler itself, and a panic is passed on; and the log gets one
-- event more, with the status that was sent (200 if the handler returned and sent none, 500 if it
-- panicked and sent none) and the number of bytes of the body that were sent.
pub request_logger_lem :
    (limit : Conn → ℕ) (next : Handler World) (r : Request) (c : Conn) (v : World)
    → IsFresh c
    → let inner = logged_run limit next r c v in
      run limit (request_logger next r) c v ≡ record {
        panic = inner.panic;
        conn = inner.conn;
        world = record inner.world {
          completed =
              completed_request
                (logged_request r v)
                (known inner.conn.status (length inner.conn.body))
                (seen_status inner)
                inner.world
              ∷ inner.world.completed;
        };
      }
unfolding run request_logger
request_logger_lem limit next r c v h =
    let (q, metadata) = ensure v.random v.now r v.metadata in
    let d = record c { header = Http.set id_header (request_id q metadata) c.header } in
    let inner = logged_run limit next r c v in
    let same : run limit (logged (log_exit q) (next q) new_writer) d
          (record v { metadata = metadata })
        ≡ run limit (log_exit q (writer_of inner.conn) inner.panic) inner.conn inner.world =
      rw (← writer_of-fresh c h)
        (run-logged limit (log_exit q) (next q) d (record v { metadata = metadata })) in
    same
    ∙ (run-log_exit limit q (writer_of inner.conn) inner.panic inner.conn inner.world
        ∙ rw (final_status-seen inner.conn.status (length inner.conn.body) inner.panic) refl)
