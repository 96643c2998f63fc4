-- ===== src/Metrics/Writers.antt =====
-- The wrapping writers of internal/metrics/prometheus.go and internal/middleware/logging.go.
use gatex.Prelude.{
  ◌≡◌, refl, ap, ℕ, Bool, true, false, not, Option, if◌then◌else◌, Bool-cases, inl, inr, ◌∙◌,
}
use gatex.Prelude.Text.{Text}
use gatex.Http.{
  Panic, Program, returns, panics, read_header, put_header, write_header, write, read_world,
  put_world, is_informational,
}
use gatex.Logging.{LoggingWriter, log_write_header, log_append, log_write, logged}
use gatex.Metrics.{ResponseWriter, metric_write_header, metric_write, measured}

-- A logging writer without its count of bytes.
abbrev pub short : LoggingWriter → ResponseWriter
short w = record { status_code = w.status_code; wrote_header = w.wrote_header }

module _ {W : Type 0} where
  write_header-short :
      (status : ℕ) (w : LoggingWriter) (next : ResponseWriter → Program W)
      → metric_write_header status (short w) next ≡ log_write_header status w (λ v. next (short v))
  unfolding metric_write_header log_write_header
  write_header-short status w next = elim (Bool-cases (is_informational status)) [
    | inl e ↦ rw e refl
    | inr e ↦ rw e (at w.wrote_header)
  ]
    where
      at :
          (b : Bool)
          → (if b
              then next (short w)
              else write_header status
                  (next (record { status_code = status; wrote_header = true })))
            ≡ (if b
                then next (short w)
                else write_header status
                    (next (short (record w { status_code = status; wrote_header = true }))))
      at b = refl

  write-short :
      (part : Text) (w : LoggingWriter) (next : ResponseWriter → ℕ → Bool → Program W)
      → metric_write part (short w) next ≡ log_write part w (λ v. next (short v))
  unfolding metric_write log_write log_append
  write-short part w next = at w.wrote_header
    where
      at :
          (b : Bool)
          → (if not b
              then metric_write_header 200 (short w) (λ v. write part (next v))
              else write part (next (short w)))
            ≡ (if not b
                then log_write_header 200 w (λ v. write part (next (short v)))
                else write part (next (short w)))
      at true = refl
      at false = write_header-short 200 w (λ v. write part (next v))

  -- Whatever a handler does, it runs on the writer of the metrics as on that of the log: the same
  -- calls of the writer below, and a deferred function that gets the same status code and flag.
  pub measured-logged :
      (finish : ResponseWriter → Option Panic → Program W) (p : Program W) (w : LoggingWriter)
      → measured finish p (short w) ≡ logged (λ v. finish (short v)) p w
  unfolding measured logged
  measured-logged finish returns w = refl
  measured-logged finish (panics p) w = refl
  measured-logged finish (read_header f) w =
      λ i. read_header (λ h. measured-logged finish (f h) w i)
  measured-logged finish (put_header h p) w = ap (put_header h) (measured-logged finish p w)
  measured-logged finish (write_header status p) w =
      write_header-short status w (λ v. measured finish p v)
      ∙ (λ i. log_write_header status w (λ v. measured-logged finish p v i))
  measured-logged finish (write part f) w =
      write-short part w (λ v n failed. measured finish (f n failed) v)
      ∙ (λ i. log_write part w (λ v n failed. measured-logged finish (f n failed) v i))
  measured-logged finish (read_world f) w = λ i. read_world (λ v. measured-logged finish (f v) w i)
  measured-logged finish (put_world u p) w = ap (put_world u) (measured-logged finish p w)
