-- ===== src/Logging/Transparent.antt =====
-- The wrapping writer of internal/middleware/logging.go changes nothing of the response.
use gatex.Prelude.{
  ◌≡◌, refl, ◌∙◌, ap, ℕ, zero, suc, ◌+◌, ◌≤◌, Bool, true, false, Option, none, some, List, [], ◌∷◌,
  ◌++◌, ltb, length, length-append, arith, Bool-cases, inl, inr,
}
use gatex.Prelude.Text.{Text}
use gatex.Http.{
  Header, Panic, Program, returns, panics, read_header, put_header, write_header, write, read_world,
  put_world, Conn, conn_write_header, conn_append, taken, take_bytes, is_informational, run,
}
use gatex.Logging.{LoggingWriter, log_write_header, log_append, log_write, logged}

-- What the wrapping writer knows of a connection.
abbrev pub known : Option ℕ → ℕ → LoggingWriter
known none n = record { status_code = 0; bytes_written = n; wrote_header = false }
known (some status) n = record { status_code = status; bytes_written = n; wrote_header = true }

abbrev pub writer_of : Conn → LoggingWriter
writer_of c = known c.status (length c.body)

length-take_bytes : (n : ℕ) (s : Text) → n ≤ length s → length (take_bytes n s) ≡ n
unfolding take_bytes
length-take_bytes zero [] h = refl
length-take_bytes (suc n) [] h = absurd (omega arith)
length-take_bytes zero (b ∷ s) h = refl
length-take_bytes (suc n) (b ∷ s) h = ap suc (length-take_bytes n s (omega arith))

taken-le : (room : ℕ) (part : Text) → taken room part ≤ length part
unfolding taken
taken-le room part = ground arith

-- A connection by its fields.
abbrev conn_of : Header → List ℕ → Option ℕ → Header → Text → Conn
conn_of h early s sent body = record {
  header = h;
  informational = early;
  status = s;
  sent_header = sent;
  body = body;
}

conn_early :
    (status : ℕ) (h : Header) (early : List ℕ) (sent : Header) (body : Text)
    → is_informational status ≡ true
    → conn_write_header status (conn_of h early none sent body)
      ≡ conn_of h (early ++ (status ∷ [])) none sent body
unfolding conn_write_header
conn_early status h early sent body e = rw e refl

conn_first :
    (status : ℕ) (h : Header) (early : List ℕ) (sent : Header) (body : Text)
    → is_informational status ≡ false
    → conn_write_header status (conn_of h early none sent body)
      ≡ conn_of h early (some status) h body
unfolding conn_write_header
conn_first status h early sent body e = rw e refl

module _ (limit : Conn → ℕ) {W : Type 0} where
  header_at :
      (status : ℕ) (next : LoggingWriter → Program W) (h : Header) (early : List ℕ) (s : Option ℕ)
      (sent : Header) (body : Text) (v : W)
      → let c = conn_of h early s sent body in
        let d = conn_write_header status c in
        run limit (log_write_header status (writer_of c) next) c v
        ≡ run limit (next (writer_of d)) d v
  unfolding run log_write_header
  header_at status next h early (some x) sent body v = elim (Bool-cases (is_informational status)) [
    | inl e ↦ rw e refl
    | inr e ↦ rw e refl
  ]
  header_at status next h early none sent body v = elim (Bool-cases (is_informational status)) [
    | inl e ↦
        rw (conn_early status h early sent body e, e)
          (ap (λ d. run limit (next (known none (length body))) d v)
            (conn_early status h early sent body e))
    | inr e ↦
        rw (conn_first status h early sent body e, e)
          (ap (λ d. run limit (next (known (some status) (length body))) d v)
            (conn_first status h early sent body e))
  ]

  pub run-log_write_header :
      (status : ℕ) (next : LoggingWriter → Program W) (c : Conn) (v : W)
      → let d = conn_write_header status c in
        run limit (log_write_header status (writer_of c) next) c v
        ≡ run limit (next (writer_of d)) d v
  run-log_write_header status next c =
      header_at status next c.header c.informational c.status c.sent_header c.body

  run-log_append :
      (part : Text) (next : LoggingWriter → ℕ → Bool → Program W) (h : Header) (early : List ℕ)
      (x : ℕ) (sent : Header) (body : Text) (v : W)
      → let c = conn_of h early (some x) sent body in
        let n = taken (limit c) part in
        let d = conn_append n part c in
        run limit (log_append part (writer_of c) next) c v
        ≡ run limit (next (writer_of d) n (ltb n (length part))) d v
  unfolding run log_append conn_write_header conn_append taken
  run-log_append part next h early x sent body v =
      let c = conn_of h early (some x) sent body in
      let n = taken (limit c) part in
      let size : length body + n ≡ length (body ++ take_bytes n part) = ground (
        arith,
        length-append body (take_bytes n part),
        length-take_bytes n part (taken-le (limit c) part),
      ) in
      ap (λ m. run limit (next (known (some x) m) n (ltb n (length part))) (conn_append n part c) v)
        size

  write_at :
      (part : Text) (next : LoggingWriter → ℕ → Bool → Program W) (h : Header) (early : List ℕ)
      (s : Option ℕ) (sent : Header) (body : Text) (v : W)
      → let c = conn_of h early s sent body in
        let started = conn_write_header 200 c in
        let n = taken (limit started) part in
        let d = conn_append n part started in
        run limit (log_write part (writer_of c) next) c v
        ≡ run limit (next (writer_of d) n (ltb n (length part))) d v
  unfolding run log_write conn_write_header
  write_at part next h early (some x) sent body v = run-log_append part next h early x sent body v
  write_at part next h early none sent body v =
      run-log_write_header 200 (λ w. log_append part w next) (conn_of h early none sent body) v
      ∙ run-log_append part next h early 200 h body v

  -- The run of a handler on the wrapping writer: the same response, and then the deferred function,
  -- whose writer knows the status and the number of bytes that were sent.
  pub run-logged :
      (finish : LoggingWriter → Option Panic → Program W) (p : Program W) (c : Conn) (v : W)
      → run limit (logged finish p (writer_of c)) c v
        ≡ (let o = run limit p c v in run limit (finish (writer_of o.conn) o.panic) o.conn o.world)
  unfolding run logged
  run-logged finish returns c v = refl
  run-logged finish (panics p) c v = refl
  run-logged finish (read_header f) c v = run-logged finish (f c.header) c v
  run-logged finish (put_header h p) c v = run-logged finish p (record c { header = h }) v
  run-logged finish (write_header status p) c v =
      run-log_write_header status (λ after. logged finish p after) c v
      ∙ run-logged finish p (conn_write_header status c) v
  run-logged finish (write part f) c v =
      let started = conn_write_header 200 c in
      let n = taken (limit started) part in
      write_at part (λ after m failed. logged finish (f m failed) after) c.header c.informational
        c.status c.sent_header c.body v
      ∙ run-logged finish (f n (ltb n (length part))) (conn_append n part started) v
  run-logged finish (read_world f) c v = run-logged finish (f v) c v
  run-logged finish (put_world u p) c v = run-logged finish p c u
