-- ===== src/Http.antt =====
-- The part of net/http that the gateway's handlers stand on: header maps, requests, and handlers.
-- A handler's run is a tree of the calls that it makes: on its response writer, and on the state `W`
-- of the process. A wrapper around a handler or a writer is a function on such trees.
pub mod Headers
pub mod Serve
mod Tests
use gatex.Prelude.{
  ℕ, zero, suc, ◌+◌, Bool, true, false, not, ◌&&◌, List, [], ◌∷◌, ◌++◌, Option, none, some, ltb,
  leb, ◌==◌, if◌then◌else◌, length,
}
use gatex.Prelude.Text.{Text, bytes, text_eq}

-- `http.Header`: its fields in order, under canonical names.
abbrev pub Header : Type 0
Header = List (Text × List Text)

-- `Header.Values`.
unfoldable pub values : Text → Header → List Text
values name [] = []
values name ((n, vs) ∷ fields) = if text_eq n name then vs else values name fields

-- `Header.Get`: the first value, or the empty text.
unfoldable pub get : Text → Header → Text
unfolding values
get name header = elim (values name header) [ [] ↦ [] | v ∷ vs ↦ v ]

-- The field's values replaced.
unfoldable pub put_values : Text → List Text → Header → Header
put_values name vs [] = (name, vs) ∷ []
put_values name vs ((n, ws) ∷ fields) =
    if text_eq n name then (n, vs) ∷ fields else (n, ws) ∷ put_values name vs fields

-- `Header.Set`.
unfoldable pub set : Text → Text → Header → Header
unfolding put_values
set name v = put_values name (v ∷ [])

-- `Header.Add`.
unfoldable pub add : Text → Text → Header → Header
unfolding put_values values
add name v header = put_values name (values name header ++ (v ∷ [])) header

-- `Header.Del`.
unfoldable pub del : Text → Header → Header
del name [] = []
del name ((n, vs) ∷ fields) =
    let rest = del name fields in if text_eq n name then rest else (n, vs) ∷ rest

-- What the gateway reads of an `http.Request`. `has_body` is a body other than nil and
-- `http.NoBody`; `metadata` is the address of the metadata in its context, if there is any.
pub record Request : Type 0 where
  pub method : Text
  pub host : Text
  pub path : Text
  pub remote_addr : Text
  pub request_uri : Text
  pub tls : Bool
  pub has_body : Bool
  pub header : Header
  pub metadata : Option ℕ

-- The value of a panic: `http.ErrAbortHandler` or an error that wraps it, or any other.
pub data Panic : Type 0 where
  abort_handler : Panic
  other_panic : ℕ → Panic

-- What a handler does: it returns or panics, reads or replaces the response's header map, writes the
-- status, writes a part of the body (and learns how many bytes were taken, and whether there was an
-- error), or reads or replaces the state of the process.
pub data Program (W : Type 0) : Type 0 where
  returns : Program W
  panics : Panic → Program W
  read_header : (Header → Program W) → Program W
  put_header : Header → Program W → Program W
  write_header : ℕ → Program W → Program W
  write : Text → (ℕ → Bool → Program W) → Program W
  read_world : (W → Program W) → Program W
  put_world : W → Program W → Program W

abbrev pub Handler : Type 0 → Type 0
Handler W = Request → Program W

abbrev pub Middleware : Type 0 → Type 0
Middleware W = Handler W → Handler W

-- The headers that `http.Error` sets.
unfoldable pub error_header : Header → Header
unfolding set del
error_header h = set (bytes "X-Content-Type-Options") (bytes "nosniff") (
    set (bytes "Content-Type") (bytes "text/plain; charset=utf-8") (del (bytes "Content-Length") h))

module _ {W : Type 0} where
  -- A change of the header map, `w.Header().Set(…)` for one.
  abbrev pub on_header : (Header → Header) → Program W → Program W
  on_header f p = read_header (λ h. put_header (f h) p)

  abbrev pub on_world : (W → W) → Program W → Program W
  on_world f p = read_world (λ w. put_world (f w) p)

  -- `http.Error`.
  unfoldable pub http_error : Text → ℕ → Program W
  unfolding error_header
  http_error message status =
      on_header error_header (write_header status (write (message ++ (10 ∷ [])) (λ n e. returns)))

  -- `defer`: the function that runs when the handler returns (`none`) or panics.
  unfoldable pub on_exit : (Option Panic → Program W) → Program W → Program W
  on_exit k returns = k none
  on_exit k (panics p) = k (some p)
  on_exit k (read_header f) = read_header (λ h. on_exit k (f h))
  on_exit k (put_header h p) = put_header h (on_exit k p)
  on_exit k (write_header status p) = write_header status (on_exit k p)
  on_exit k (write body f) = write body (λ n e. on_exit k (f n e))
  on_exit k (read_world f) = read_world (λ w. on_exit k (f w))
  on_exit k (put_world w p) = put_world w (on_exit k p)

-- The first bytes of a text.
unfoldable pub take_bytes : ℕ → Text → Text
take_bytes n [] = []
take_bytes zero (b ∷ s) = []
take_bytes (suc n) (b ∷ s) = b ∷ take_bytes n s

-- The server's side of a response: the header map, the informational statuses sent, the status line
-- and the headers sent with it, and the body.
pub record Conn : Type 0 where
  pub header : Header
  pub informational : List ℕ
  pub status : Option ℕ
  pub sent_header : Header
  pub body : Text

abbrev pub is_some {ℓ} : {A : Type ℓ} → Option A → Bool
is_some none = false
is_some (some a) = true

abbrev pub is_informational : ℕ → Bool
is_informational status = leb 100 status && ltb status 200 && not (status == 101)

-- The server's `WriteHeader`: the first status that is not informational counts.
unfoldable pub conn_write_header : ℕ → Conn → Conn
conn_write_header status c =
    if is_some c.status
    then c
    else if is_informational status
    then record c { informational = c.informational ++ (status ∷ []) }
    else record c { status = some status; sent_header = c.header }

-- How many bytes of a part the connection takes, where it has room for `room`.
unfoldable pub taken : ℕ → Text → ℕ
taken room part = if ltb room (length part) then room else length part

-- The part of the server's `Write` after the status line, of which `n` bytes are taken.
unfoldable pub conn_append : ℕ → Text → Conn → Conn
unfolding take_bytes
conn_append n part c = record c { body = c.body ++ take_bytes n part }

pub record Outcome (W : Type 0) : Type 0 where
  pub panic : Option Panic
  pub conn : Conn
  pub world : W

-- The status that the client gets of a handler that returned.
abbrev pub client_status : Conn → ℕ
client_status c = elim c.status [ none ↦ 200 | some status ↦ status ]

-- A handler's run on the server's own writer. `limit` is the room that the connection has for a part,
-- given what it sent before; a part that is taken in part is reported as an error.
module _ (limit : Conn → ℕ) {W : Type 0} where
  unfoldable pub run : Program W → Conn → W → Outcome W
  unfolding conn_write_header conn_append taken
  run returns c w = record { panic = none; conn = c; world = w }
  run (panics p) c w = record { panic = some p; conn = c; world = w }
  run (read_header f) c w = run (f c.header) c w
  run (put_header h p) c w = run p (record c { header = h }) w
  run (write_header status p) c w = run p (conn_write_header status c) w
  -- A first `Write` sends the status 200.
  run (write part f) c w =
      let started = conn_write_header 200 c in
      let n = taken (limit started) part in
      run (f n (ltb n (length part))) (conn_append n part started) w
  run (read_world f) c w = run (f w) c w
  run (put_world v p) c w = run p c v
