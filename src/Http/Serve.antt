-- ===== src/Http/Serve.antt =====
-- Runs of handlers on the server's writer.
use gatex.Prelude.{◌≡◌, refl, ℕ, false, ltb, length, Option, none, some, arith}
use gatex.Prelude.Text.{Text}
use gatex.Http.{
  is_informational, http_error, error_header, Panic, Program, returns, panics, read_header,
  put_header, write_header, write, read_world, put_world, on_exit, Conn, conn_write_header,
  conn_append, taken, run,
}

-- A deferred function runs after the handler, on the state that the handler left.
pub run-on_exit :
    (limit : Conn → ℕ) {W : Type 0} (k : Option Panic → Program W) (p : Program W) (c : Conn)
    (w : W)
    → run limit (on_exit k p) c w
      ≡ (let o = run limit p c w in run limit (k o.panic) o.conn o.world)
unfolding run on_exit
run-on_exit limit k returns c w = refl
run-on_exit limit k (panics p) c w = refl
run-on_exit limit k (read_header f) c w = run-on_exit limit k (f c.header) c w
run-on_exit limit k (put_header h p) c w = run-on_exit limit k p (record c { header = h }) w
run-on_exit limit k (write_header status p) c w =
    run-on_exit limit k p (conn_write_header status c) w
run-on_exit limit k (write part f) c w =
    let started = conn_write_header 200 c in
    let n = taken (limit started) part in
    run-on_exit limit k (f n (ltb n (length part))) (conn_append n part started) w
run-on_exit limit k (read_world f) c w = run-on_exit limit k (f w) c w
run-on_exit limit k (put_world v p) c w = run-on_exit limit k p c v

-- The first status that is not informational is sent, with the headers at the time; later ones are
-- not, and the body does not change what was sent.
pub conn-first :
    (status : ℕ) (c : Conn)
    → c.status ≡ none
    → is_informational status ≡ false
    → conn_write_header status c ≡ record c { status = some status; sent_header = c.header }
unfolding conn_write_header
conn-first status c idle plain = ground arith

pub conn-later : (status x : ℕ) (c : Conn) → c.status ≡ some x → conn_write_header status c ≡ c
unfolding conn_write_header
conn-later status x c sent = ground arith

module _ (limit : Conn → ℕ) {W : Type 0} where
  -- `http.Error` on a connection to which nothing was sent.
  pub run-http_error :
      (message : Text) (status : ℕ) (c : Conn) (v : W)
      → c.status ≡ none
      → is_informational status ≡ false
      → let o = run limit (http_error message status) c v in
        (o.conn.status ≡ some status)
        × (o.conn.sent_header ≡ error_header c.header)
        × (o.world ≡ v)
        × (o.panic ≡ none)
  unfolding run http_error conn_append
  run-http_error message status c v idle plain =
      let d : Conn = record c { header = error_header c.header } in
      let e = conn-first status d idle plain in rw e (refl, refl, refl, refl)

  -- And on one to which a status was sent: it stays.
  pub run-http_error-sent :
      (message : Text) (status x : ℕ) (c : Conn) (v : W)
      → c.status ≡ some x
      → let o = run limit (http_error message status) c v in
        (o.conn.status ≡ some x)
        × (o.conn.sent_header ≡ c.sent_header)
        × (o.world ≡ v)
        × (o.panic ≡ none)
  unfolding run http_error conn_append
  run-http_error-sent message status x c v sent =
      let d : Conn = record c { header = error_header c.header } in
      rw (conn-later status x d sent) (rw (conn-later 200 x d sent) (sent, refl, refl, refl))
