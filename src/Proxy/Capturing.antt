-- ===== src/Proxy/Capturing.antt =====
-- The capturing writer of internal/proxy/cache.go on the server's writer.
use gatex.Prelude.{
  ◌≡◌, refl, sym, ◌∙◌, ap, ℕ, Bool, true, false, not, none, some, ltb, length, if◌then◌else◌,
  Bool-cases, Option-cases, inl, inr,
}
use gatex.Prelude.Text.{Text}
use gatex.Http.{
  Program, returns, panics, read_header, put_header, write_header, write, read_world, put_world,
  Conn, conn_write_header, conn_append, taken, is_informational, Outcome, run,
}
use gatex.Http.Serve.{conn-first, conn-later}
use gatex.HttpCache
use gatex.HttpCache.{Capture, response_headers_prevent_caching}
use gatex.Proxy.{capture_header, capture_append, capture_write, captured}
use gatex.Proxy.Tracking.{
  IsTracking, capture-early, capture-later, wrote_of, wrote_of_sent, headers_free,
  header-IsTracking, write-IsTracking, after_write,
}

module _ {W : Type 0} where
  capture_header-early :
      (status : ℕ) (next : Capture → Program W) (w : Capture)
      → is_informational status ≡ true
      → capture_header status w next ≡ write_header status (next w)
  unfolding capture_header
  capture_header-early status next w e = rw e refl

  capture_header-later :
      (status : ℕ) (next : Capture → Program W) (w : Capture)
      → is_informational status ≡ false
      → w.wrote_header ≡ true
      → capture_header status w next ≡ next w
  unfolding capture_header
  capture_header-later status next w e f = rw e (at w.wrote_header f)
    where
      at :
          (b : Bool)
          → b ≡ true
          → (if b
              then next w
              else read_header
                  (λ h. write_header status (next (HttpCache.write_header h status w))))
            ≡ next w
      at true g = refl
      at false g = absurd (cc)

  capture_header-first :
      (status : ℕ) (next : Capture → Program W) (w : Capture)
      → is_informational status ≡ false
      → w.wrote_header ≡ false
      → capture_header status w next
        ≡ read_header (λ h. write_header status (next (HttpCache.write_header h status w)))
  unfolding capture_header
  capture_header-first status next w e f = rw e (at w.wrote_header f)
    where
      at :
          (b : Bool)
          → b ≡ false
          → (if b
              then next w
              else read_header
                  (λ h. write_header status (next (HttpCache.write_header h status w))))
            ≡ read_header (λ h. write_header status (next (HttpCache.write_header h status w)))
      at true g = absurd (cc)
      at false g = refl

  capture_write-first :
      (part : Text) (next : Capture → ℕ → Bool → Program W) (w : Capture)
      → w.wrote_header ≡ false
      → capture_write part w next
        ≡ capture_header 200 w (λ started. capture_append part started next)
  unfolding capture_write
  capture_write-first part next w e = at w.wrote_header e
    where
      at :
          (b : Bool)
          → b ≡ false
          → (if not b
              then capture_header 200 w (λ started. capture_append part started next)
              else capture_append part w next)
            ≡ capture_header 200 w (λ started. capture_append part started next)
      at true g = absurd (cc)
      at false g = refl

  capture_write-later :
      (part : Text) (next : Capture → ℕ → Bool → Program W) (w : Capture)
      → w.wrote_header ≡ true
      → capture_write part w next ≡ capture_append part w next
  unfolding capture_write
  capture_write-later part next w e = at w.wrote_header e
    where
      at :
          (b : Bool)
          → b ≡ true
          → (if not b
              then capture_header 200 w (λ started. capture_append part started next)
              else capture_append part w next)
            ≡ capture_append part w next
      at true g = refl
      at false g = absurd (cc)

module _ (limit : Conn → ℕ) {W : Type 0} where
  run-capture_header :
      (status : ℕ) (next : Capture → Program W) (w : Capture) (c : Conn) (v : W)
      → IsTracking w c
      → run limit (capture_header status w next) c v
        ≡ run limit (next (HttpCache.write_header c.header status w)) (conn_write_header status c) v
  unfolding run
  run-capture_header status next w c v h = elim (Bool-cases (is_informational status)) [
    | inl e ↦
        ap (λ p. run limit p c v) (capture_header-early status next w e)
        ∙ ap (λ u. run limit (next u) (conn_write_header status c) v)
            (sym (capture-early c.header status w e))
    | inr e ↦ elim (Option-cases c.status) [
      | inl f ↦ ap (λ p. run limit p c v) (capture_header-first status next w e (wrote_of w c h f))
      | inr (x, f) ↦
          ap (λ p. run limit p c v) (capture_header-later status next w e (wrote_of_sent w c x h f))
          ∙ (ap (λ u. run limit (next u) c v)
                (sym (capture-later c.header status w (wrote_of_sent w c x h f)))
              ∙ ap (λ d. run limit (next (HttpCache.write_header c.header status w)) d v)
                  (sym (conn-later status x c f)))
    ]
  ]

  run-capture_append :
      (part : Text) (next : Capture → ℕ → Bool → Program W) (w : Capture) (c : Conn) (x : ℕ) (v : W)
      → c.status ≡ some x
      → let n = taken (limit c) part in
        run limit (capture_append part w next) c v
        ≡ run limit
            (next (HttpCache.append_body part n (ltb n (length part)) w) n (ltb n (length part)))
            (conn_append n part c)
            v
  unfolding run capture_append
  run-capture_append part next w c x v e =
      ap
        (λ d.
          let n = taken (limit d) part in
          run limit
            (next (HttpCache.append_body part n (ltb n (length part)) w) n (ltb n (length part)))
            (conn_append n part d) v)
        (conn-later 200 x c e)

  run-capture_write :
      (part : Text) (next : Capture → ℕ → Bool → Program W) (w : Capture) (c : Conn) (v : W)
      → IsTracking w c
      → let n = taken (limit (conn_write_header 200 c)) part in
        run limit (capture_write part w next) c v
        ≡ run limit
            (next (after_write limit part w c).0 n (ltb n (length part)))
            (after_write limit part w c).1
            v
  run-capture_write part next w c v h = elim (Option-cases c.status) [
    | inl f ↦
        ap (λ p. run limit p c v) (capture_write-first part next w (wrote_of w c h f))
        ∙ (run-capture_header 200 (λ started. capture_append part started next) w c v h
            ∙ run-capture_append part next (HttpCache.write_header c.header 200 w)
                (conn_write_header 200 c) 200 v (ap (λ d. d.status) (conn-first 200 c f refl)))
    | inr (x, f) ↦
        ap (λ p. run limit p c v) (capture_write-later part next w (wrote_of_sent w c x h f))
        ∙ (run-capture_append part next w c x v f
            ∙ (ap
                  (λ u.
                    let n = taken (limit c) part in
                    run limit
                      (next (HttpCache.append_body part n (ltb n (length part)) u) n
                        (ltb n (length part)))
                      (conn_append n part c) v)
                  (sym (capture-later c.header 200 w (wrote_of_sent w c x h f)))
                ∙ ap
                    (λ d.
                      let n = taken (limit d) part in
                      run limit
                        (next
                          (HttpCache.append_body part n (ltb n (length part))
                            (HttpCache.write_header c.header 200 w))
                          n (ltb n (length part)))
                        (conn_append n part d) v)
                    (sym (conn-later 200 x c f))))
  ]

  -- What follows the handler, if it returns.
  abbrev pub go_on : (Capture → Program W) → Capture → Outcome W → Outcome W
  go_on finish w o = elim o.panic [ none ↦ run limit (finish w) o.conn o.world | some p ↦ o ]

  -- The run of a handler on the capturing writer: the same response; and if it returns, what follows
  -- has a writer that knows it.
  pub run-captured :
      (finish : Capture → Program W) (p : Program W) (w : Capture) (c : Conn) (v : W)
      → IsTracking w c
      → let o = run limit p c v in
        (u : Capture) × IsTracking u o.conn
        × (run limit (captured finish p w) c v ≡ go_on finish u o)
  unfolding run captured
  run-captured finish returns w c v h = (w, h, refl)
  run-captured finish (panics p) w c v h = (w, h, refl)
  run-captured finish (read_header f) w c v h = run-captured finish (f c.header) w c v h
  run-captured finish (put_header g p) w c v h =
      run-captured finish p w (record c { header = g }) v (headers_free w c g h)
  run-captured finish (write_header status p) w c v h =
      let (u, k, e) =
        run-captured finish p (HttpCache.write_header c.header status w)
          (conn_write_header status c) v (header-IsTracking status w c h) in
      (u, k, run-capture_header status (λ after. captured finish p after) w c v h ∙ e)
  run-captured finish (write part f) w c v h =
      let n = taken (limit (conn_write_header 200 c)) part in
      let (x, d) = after_write limit part w c in
      let (u, k, e) =
        run-captured finish (f n (ltb n (length part))) x d v (write-IsTracking limit part w c h) in
      (
        u,
        k,
        run-capture_write part (λ after m failed. captured finish (f m failed) after) w c v h ∙ e,
      )
  run-captured finish (read_world f) w c v h = run-captured finish (f v) w c v h
  run-captured finish (put_world x p) w c v h = run-captured finish p w c x h
