-- ===== src/Proxy/Tracking.antt =====
-- What the capturing writer of internal/proxy/cache.go knows of its connection.
use gatex.Prelude.{
  ◌≡◌, refl, ◌∙◌, ap, ℕ, Bool, true, false, not, ◌&&◌, [], none, some, ◌==◌, ltb, length, arith,
  Bool-cases, Option-cases, inl, inr,
}
use gatex.Prelude.Text.{Text}
use gatex.Http.{Header, Conn, conn_write_header, conn_append, taken, is_some, is_informational}
use gatex.Http.Serve.{conn-first, conn-later}
use gatex.HttpCache
use gatex.HttpCache.{Capture, response_headers_prevent_caching}

-- What a capturing writer knows of its connection.
pub record IsTracking (w : Capture) (c : Conn) : Type 0 where
  pub wrote : w.wrote_header ≡ is_some c.status
  pub status : w.wrote_header ≡ true → (c.status ≡ some w.status_code) × (c.sent_header ≡ w.header)
  pub body : w.recording ≡ true → w.body ≡ c.body
  pub success :
      w.recording ≡ true
      → (w.status_code ≡ 200) × (response_headers_prevent_caching w.header ≡ false)
  pub idle : w.wrote_header ≡ false → (w.body ≡ []) × (c.body ≡ []) × (w.recording ≡ false)

pub capture-early :
    (h : Header) (status : ℕ) (w : Capture)
    → is_informational status ≡ true
    → HttpCache.write_header h status w ≡ w
unfolding HttpCache.write_header
capture-early h status w e = rw e refl

pub capture-later :
    (h : Header) (status : ℕ) (w : Capture)
    → w.wrote_header ≡ true
    → HttpCache.write_header h status w ≡ w
unfolding HttpCache.write_header
capture-later h status w e = ground arith

pub capture-first :
    (h : Header) (status : ℕ) (w : Capture)
    → is_informational status ≡ false
    → w.wrote_header ≡ false
    → HttpCache.write_header h status w ≡ record w {
      status_code = status;
      header = h;
      wrote_header = true;
      recording = (status == 200) && not (response_headers_prevent_caching h);
    }
unfolding HttpCache.write_header
capture-first h status w e f = ground arith

early-IsTracking :
    (status : ℕ) (w : Capture) (c : Conn)
    → is_informational status ≡ true
    → IsTracking w c
    → IsTracking w (conn_write_header status c)
unfolding conn_write_header
early-IsTracking status w c e h = ground (arith, h.wrote, h.status, h.body, h.success, h.idle)

first-IsTracking :
    (status : ℕ) (w : Capture) (c : Conn)
    → c.status ≡ none
    → IsTracking w c
    → IsTracking
        (record w {
          status_code = status;
          header = c.header;
          wrote_header = true;
          recording = (status == 200) && not (response_headers_prevent_caching c.header);
        })
        (record c { status = some status; sent_header = c.header })
first-IsTracking status w c e h = ground (arith, h.wrote, h.idle)

pub wrote_of : (w : Capture) (c : Conn) → IsTracking w c → c.status ≡ none → w.wrote_header ≡ false
wrote_of w c h e = h.wrote ∙ ap is_some e

pub wrote_of_sent :
    (w : Capture) (c : Conn) (x : ℕ) → IsTracking w c → c.status ≡ some x → w.wrote_header ≡ true
wrote_of_sent w c x h e = h.wrote ∙ ap is_some e

pub headers_free :
    (w : Capture) (c : Conn) (g : Header) → IsTracking w c → IsTracking w (record c { header = g })
headers_free w c g h = record {
  wrote = h.wrote;
  status = h.status;
  body = h.body;
  success = h.success;
  idle = h.idle;
}

pub header-IsTracking :
    (status : ℕ) (w : Capture) (c : Conn)
    → IsTracking w c
    → IsTracking (HttpCache.write_header c.header status w) (conn_write_header status c)
header-IsTracking status w c h = elim (Bool-cases (is_informational status)) [
  | inl e ↦ rw (capture-early c.header status w e) (early-IsTracking status w c e h)
  | inr e ↦ elim (Option-cases c.status) [
    | inl f ↦
        rw (capture-first c.header status w e (wrote_of w c h f), conn-first status c f e)
          (first-IsTracking status w c f h)
    | inr (x, f) ↦
        rw (capture-later c.header status w (wrote_of_sent w c x h f), conn-later status x c f) h
  ]
]

append-IsTracking :
    (n : ℕ) (part : Text) (failed : Bool) (w : Capture) (c : Conn)
    → w.wrote_header ≡ true
    → IsTracking w c
    → IsTracking (HttpCache.append_body part n failed w) (conn_append n part c)
unfolding conn_append HttpCache.append_body
append-IsTracking n part failed w c wrote h =
    ground (arith, h.wrote, h.status, h.body, h.success, h.idle)

-- The state of the writer and of the connection after a `Write` of a part.
abbrev pub after_write : (Conn → ℕ) → Text → Capture → Conn → Capture × Conn
after_write limit part w c =
    let d = conn_write_header 200 c in
    let n = taken (limit d) part in
    (
      HttpCache.append_body part n (ltb n (length part)) (HttpCache.write_header c.header 200 w),
      conn_append n part d,
    )

started-wrote : (h : Header) (w : Capture) → (HttpCache.write_header h 200 w).wrote_header ≡ true
unfolding HttpCache.write_header
started-wrote h w = ground arith

pub write-IsTracking :
    (limit : Conn → ℕ) (part : Text) (w : Capture) (c : Conn)
    → IsTracking w c
    → IsTracking (after_write limit part w c).0 (after_write limit part w c).1
write-IsTracking limit part w c h =
    let n = taken (limit (conn_write_header 200 c)) part in
    append-IsTracking n part (ltb n (length part)) (HttpCache.write_header c.header 200 w)
      (conn_write_header 200 c) (started-wrote c.header w) (header-IsTracking 200 w c h)
