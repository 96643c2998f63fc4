-- ===== src/Logging.antt =====
-- internal/middleware/logging.go: the middleware that writes one event for every request.
pub mod Transparent
pub mod Events
mod Tests
use gatex.Prelude.{
  ℕ, ◌+◌, Bool, true, false, not, List, [], ◌∷◌, ◌++◌, Option, none, some, leb, if◌then◌else◌,
}
use gatex.Prelude.Text.{Text, text_eq}
use gatex.Http.{
  Header, Request, Panic, Program, returns, panics, read_header, put_header, write_header, write,
  read_world, put_world, on_header, on_world, is_informational, Middleware,
}
use gatex.Http
use gatex.RequestMeta.{id_header, ensure, request_id, backend}
use gatex.Process.{Level, level_info, level_warn, level_error, Entry, World}

-- `loggingResponseWriter`.
pub record LoggingWriter : Type 0 where
  pub status_code : ℕ
  pub bytes_written : ℕ
  pub wrote_header : Bool

abbrev pub new_writer : LoggingWriter
new_writer = record { status_code = 0; bytes_written = 0; wrote_header = false }

module _ {W : Type 0} where
  -- `WriteHeader`; what follows it is given the new state of the writer.
  unfoldable pub log_write_header : ℕ → LoggingWriter → (LoggingWriter → Program W) → Program W
  log_write_header status w next =
      if is_informational status
      then write_header status (next w)
      else if w.wrote_header
      then next w
      else write_header status (next (record w { status_code = status; wrote_header = true }))

  -- The part of `Write` after the header is written.
  unfoldable pub log_append :
      Text → LoggingWriter → (LoggingWriter → ℕ → Bool → Program W) → Program W
  log_append part w next =
      write part (λ n failed. next (record w { bytes_written = w.bytes_written + n }) n failed)

  -- `Write`.
  unfoldable pub log_write :
      Text → LoggingWriter → (LoggingWriter → ℕ → Bool → Program W) → Program W
  unfolding log_write_header log_append
  log_write part w next =
      if not w.wrote_header
      then log_write_header 200 w (λ started. log_append part started next)
      else log_append part w next

  -- A handler's run on the wrapping writer, with what is deferred to its end.
  unfoldable pub logged :
      (LoggingWriter → Option Panic → Program W) → Program W → LoggingWriter → Program W
  unfolding log_write_header log_write
  logged finish returns w = finish w none
  logged finish (panics p) w = finish w (some p)
  logged finish (read_header f) w = read_header (λ h. logged finish (f h) w)
  logged finish (put_header h p) w = put_header h (logged finish p w)
  logged finish (write_header status p) w =
      log_write_header status w (λ after. logged finish p after)
  logged finish (write part f) w =
      log_write part w (λ after n failed. logged finish (f n failed) after)
  logged finish (read_world f) w = read_world (λ v. logged finish (f v) w)
  logged finish (put_world v p) w = put_world v (logged finish p w)

-- `status`.
unfoldable pub status_of : LoggingWriter → ℕ
status_of w = if not w.wrote_header then 200 else w.status_code

-- The status that the deferred function takes.
unfoldable pub final_status : LoggingWriter → Option Panic → ℕ
unfolding status_of
final_status w recovered = elim recovered [
  | none ↦ status_of w
  | some p ↦ if not w.wrote_header then 500 else status_of w
]

unfoldable pub level_of : ℕ → Level
level_of status =
    if leb 500 status then level_error else if leb 400 status then level_warn else level_info

-- `logCompletedRequest`: the event.
unfoldable pub completed_request : Request → LoggingWriter → ℕ → World → Entry
unfolding level_of request_id backend
completed_request r w status world = record {
  level = level_of status;
  method = r.method;
  path = r.path;
  host = r.host;
  remote_addr = r.remote_addr;
  status = status;
  response_bytes = w.bytes_written;
  request_id = request_id r world.metadata;
  backend = if text_eq (backend r world.metadata) [] then none else some (backend r world.metadata);
}

-- The deferred function of `RequestLogger`: it writes the event, and panics again.
unfoldable pub log_exit : Request → LoggingWriter → Option Panic → Program World
unfolding final_status completed_request
log_exit r w recovered =
    on_world
      (λ world. record world {
        completed = completed_request r w (final_status w recovered) world ∷ world.completed;
      })
      (elim recovered [ none ↦ returns | some p ↦ panics p ])

unfoldable pub request_logger : Middleware World
unfolding ensure logged log_exit
request_logger next r = read_world λ world.
    let (q, metadata) = ensure world.random world.now r world.metadata in
    put_world (record world { metadata = metadata })
      (on_header (Http.set id_header (request_id q metadata))
        (logged (log_exit q) (next q) new_writer))
