-- ===== src/Cors/Steps.antt =====
-- The decisions of internal/middleware/cors.go, one by one.
use gatex.Prelude.{
  ◌≡◌, refl, ◌∙◌, ap, ℕ, Bool, true, false, not, ◌&&◌, [], ◌∷◌, none, some, if◌then◌else◌, arith,
}
use gatex.Prelude.Text.{Text, bytes, text_eq}
use gatex.Http.{
  Header, Request, Program, Conn, run, get, values, returns, write_header, http_error, on_header,
}
use gatex.Http.Headers.{values-error_header}
use gatex.Http.Serve.{conn-first, run-http_error}
use gatex.Cors.{
  CorsOptions, is_empty, make_string_set, origin_allowed, use_wildcard, vary_headers, allow_headers,
  preflight_headers, allow_origin_header, allow_credentials_header, vary, varies_on,
}
use gatex.Cors.Fields.{
  values-vary_headers, credentials-allow_headers, origin-allow_headers, origin-preflight_headers,
  origin-varies, vary-allow_headers,
}

module _ (options : CorsOptions) where
  -- The middleware is on, and the request has an origin.
  abbrev pub is_cross_origin : Request → Bool
  is_cross_origin r =
      not (is_empty (make_string_set options.allowed_origins false))
      && not (text_eq (get (bytes "Origin") r.header) [])

  -- The value of `Access-Control-Allow-Origin` for an accepted origin.
  abbrev pub answer : Request → Text
  answer r = if use_wildcard options then bytes "*" else get (bytes "Origin") r.header

  -- The decisions of `cors`, on the results of its tests.
  unfoldable pub decide :
      {W : Type 0} → Bool → Bool → Bool → Bool → Bool → Request → Program W → Program W
  decide empty no_origin accepted preflight asked r next =
      let denied = http_error (bytes "CORS request denied") 403 in
      if empty
      then next
      else if no_origin
      then next
      else on_header (vary_headers options r) (
          if not accepted
          then if preflight then denied else next
          else if preflight && not asked
          then denied
          else on_header (allow_headers options (get (bytes "Origin") r.header)) (
              if not preflight
              then next
              else on_header (preflight_headers options r) (write_header 204 returns)))

  unfoldable pub passed_at : Bool → Bool → Bool → Request → Header → Header
  passed_at empty no_origin accepted r h =
      if not (not empty && not no_origin)
      then h
      else if not accepted
      then vary_headers options r h
      else allow_headers options (get (bytes "Origin") r.header) (vary_headers options r h)

  -- The headers that the handler below starts with.
  unfoldable pub passed_headers : Request → Header → Header
  unfolding passed_at
  passed_headers r =
      passed_at (is_empty (make_string_set options.allowed_origins false))
        (text_eq (get (bytes "Origin") r.header) [])
        (origin_allowed options (get (bytes "Origin") r.header)) r

  pub passed_at-origin :
      (empty no_origin accepted : Bool) (r : Request) (h : Header)
      → values allow_origin_header (passed_at empty no_origin accepted r h) ≡ (
          if (not empty && not no_origin) && accepted
          then answer r ∷ []
          else values allow_origin_header h)
  unfolding passed_at text_eq
  passed_at-origin true no_origin accepted r h = refl
  passed_at-origin false true accepted r h = refl
  passed_at-origin false false false r h = values-vary_headers options allow_origin_header r h refl
  passed_at-origin false false true r h =
      origin-allow_headers options (get (bytes "Origin") r.header) (vary_headers options r h)

  not_wildcard : options.allow_credentials ≡ true → use_wildcard options ≡ false
  not_wildcard on = ground arith

  pub passed_at-credentials :
      (empty no_origin accepted : Bool) (r : Request) (h : Header)
      → (not empty && not no_origin) && accepted ≡ true
      → options.allow_credentials ≡ true
      → let g = passed_at empty no_origin accepted r h in
        (values allow_credentials_header g ≡ bytes "true" ∷ [])
        × (values allow_origin_header g ≡ get (bytes "Origin") r.header ∷ [])
  unfolding passed_at
  passed_at-credentials true no_origin accepted r h e on = absurd (cc)
  passed_at-credentials false true accepted r h e on = absurd (cc)
  passed_at-credentials false false false r h e on = absurd (cc)
  passed_at-credentials false false true r h e on =
      let origin = get (bytes "Origin") r.header in
      let g = vary_headers options r h in
      (
        credentials-allow_headers options origin g on,
        origin-allow_headers options origin g
            ∙ ap (λ b. (if b then bytes "*" else origin) ∷ []) (not_wildcard on),
      )

  pub passed_at-varies :
      (empty no_origin accepted : Bool) (r : Request) (h : Header)
      → not empty && not no_origin ≡ true
      → use_wildcard options ≡ false
      → varies_on (bytes "Origin") (values vary (passed_at empty no_origin accepted r h)) ≡ true
  unfolding passed_at
  passed_at-varies true no_origin accepted r h e off = absurd (cc)
  passed_at-varies false true accepted r h e off = absurd (cc)
  passed_at-varies false false false r h e off = origin-varies options r h off
  passed_at-varies false false true r h e off =
      let g = vary_headers options r h in
      ap (varies_on (bytes "Origin")) (vary-allow_headers options (get (bytes "Origin") r.header) g)
      ∙ origin-varies options r h off

  module _ (limit : Conn → ℕ) {W : Type 0} where
    run-denied :
        (r : Request) (c : Conn) (v : W)
        → c.status ≡ none
        → let d = record c { header = vary_headers options r c.header } in
          let o = run limit (http_error {W = W} (bytes "CORS request denied") 403) d v in
          (o.conn.status ≡ some 403)
          × (values allow_origin_header o.conn.sent_header ≡ values allow_origin_header c.header)
          × (o.world ≡ v)
          × (o.panic ≡ none)
    unfolding text_eq
    run-denied r c v idle =
        let g = vary_headers options r c.header in
        let (a, b, k, l) =
          run-http_error limit (bytes "CORS request denied") 403 (record c { header = g }) v idle
            refl in
        (
          a,
          ap (values allow_origin_header) b
              ∙ (values-error_header allow_origin_header g (refl, refl, refl)
                  ∙ values-vary_headers options allow_origin_header r c.header refl),
          k,
          l,
        )

    run-granted :
        (r : Request) (c : Conn) (v : W)
        → c.status ≡ none
        → let g =
            allow_headers options
              (get (bytes "Origin") r.header)
              (vary_headers options r c.header) in
          let d = record c { header = preflight_headers options r g } in
          let o = run limit {W = W} (write_header 204 returns) d v in
          (o.conn.status ≡ some 204)
          × (values allow_origin_header o.conn.sent_header ≡ answer r ∷ [])
          × (o.world ≡ v)
          × (o.panic ≡ none)
    unfolding run
    run-granted r c v idle =
        let origin = get (bytes "Origin") r.header in
        let g = allow_headers options origin (vary_headers options r c.header) in
        let d : Conn = record c { header = preflight_headers options r g } in
        rw (conn-first 204 d idle refl) (
          refl,
          origin-preflight_headers options r g
              ∙ origin-allow_headers options origin (vary_headers options r c.header),
          refl,
          refl,
        )

    pub run-answered :
        (empty no_origin accepted preflight asked : Bool) (next : Program W) (r : Request)
        (c : Conn) (v : W)
        → (not empty && not no_origin) && preflight ≡ true
        → c.status ≡ none
        → let o = run limit (decide empty no_origin accepted preflight asked r next) c v in
          (o.conn.status ≡ some (if accepted && asked then 204 else 403))
          × (values allow_origin_header o.conn.sent_header
              ≡ (if accepted && asked then answer r ∷ [] else values allow_origin_header c.header))
          × (o.world ≡ v)
          × (o.panic ≡ none)
    unfolding run decide
    run-answered true no_origin accepted preflight asked next r c v e idle = absurd (cc)
    run-answered false true accepted preflight asked next r c v e idle = absurd (cc)
    run-answered false false accepted false asked next r c v e idle = absurd (cc)
    run-answered false false false true asked next r c v e idle = run-denied r c v idle
    run-answered false false true true false next r c v e idle = run-denied r c v idle
    run-answered false false true true true next r c v e idle = run-granted r c v idle

    pub run-decide :
        (empty no_origin accepted preflight asked : Bool) (next : Program W) (r : Request)
        (c : Conn) (v : W)
        → (not empty && not no_origin) && preflight ≡ false
        → run limit (decide empty no_origin accepted preflight asked r next) c v
          ≡ run limit next (record c { header = passed_at empty no_origin accepted r c.header }) v
    unfolding run decide passed_at
    run-decide true no_origin accepted preflight asked next r c v e = refl
    run-decide false true accepted preflight asked next r c v e = refl
    run-decide false false accepted true asked next r c v e = absurd (cc)
    run-decide false false true false asked next r c v e = refl
    run-decide false false false false asked next r c v e = refl
