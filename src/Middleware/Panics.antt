-- ===== src/Middleware/Panics.antt =====
-- Panics under internal/middleware/recovery.go.
use gatex.Prelude.{◌≡◌, refl, sym, ◌∙◌, ap, ℕ, ◌∷◌, Option, none, some}
use gatex.Prelude.Text.{bytes}
use gatex.Http.{Request, Panic, abort_handler, other_panic, Handler, Conn, Outcome, run}
use gatex.Http.Serve.{run-on_exit, run-http_error, run-http_error-sent}
use gatex.Process.{World}
use gatex.Middleware.{recover_exit, recovery}

-- What is sent where an unexpected panic was recovered: 500, unless a status was sent before.
abbrev pub after_panic : Option ℕ → Option ℕ
after_panic none = some 500
after_panic (some status) = some status

-- How a run that ended like this goes on under `Recovery`.
abbrev pub IsRecovered : Outcome World → Outcome World → Option Panic → Type 0
IsRecovered inner o none = o ≡ inner
IsRecovered inner o (some abort_handler) =
    (o.panic ≡ some abort_handler) × (o.conn ≡ inner.conn) × (o.world ≡ inner.world)
IsRecovered inner o (some (other_panic n)) =
    (o.panic ≡ none)
    × (o.conn.status ≡ after_panic inner.conn.status)
    × (o.world ≡ record inner.world { recovered = other_panic n ∷ inner.world.recovered })

module _ (limit : Conn → ℕ) where
  exit_at :
      (s : Option ℕ) (p : Option Panic) (c : Conn) (v : World)
      → c.status ≡ s
      → let inner : Outcome World = record { panic = p; conn = c; world = v } in
        IsRecovered inner (run limit (recover_exit p) c v) p
  unfolding recover_exit run
  exit_at s none c v e = refl
  exit_at s (some abort_handler) c v e = (refl, refl, refl)
  exit_at none (some (other_panic m)) c v e =
      let u = record v { recovered = other_panic m ∷ v.recovered } in
      let (a, b, f, g) = run-http_error limit (bytes "internal server error") 500 c u e refl in
      (g, a ∙ ap after_panic (sym e), f)
  exit_at (some x) (some (other_panic m)) c v e =
      let u = record v { recovered = other_panic m ∷ v.recovered } in
      let (a, b, f, g) = run-http_error-sent limit (bytes "internal server error") 500 x c u e in
      (g, a ∙ ap after_panic (sym e), f)

  -- A handler that returns is not changed by `Recovery`. `http.ErrAbortHandler` is passed on. Any other
  -- panic goes no further: it is logged, and the client gets the status 500, unless the handler sent
  -- a status before.
  pub recovery_lem :
      (next : Handler World) (r : Request) (c : Conn) (v : World)
      → let inner = run limit (next r) c v in
        IsRecovered inner (run limit (recovery next r) c v) inner.panic
  unfolding recovery
  recovery_lem next r c v =
      let inner = run limit (next r) c v in
      rw (run-on_exit limit recover_exit (next r) c v)
        (exit_at inner.conn.status inner.panic inner.conn inner.world refl)
