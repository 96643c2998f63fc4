-- ===== src/Proxy/Serving.antt =====
-- What `ServeHTTP` and `rateLimit` of internal/proxy/gateway.go answer.
use gatex.Prelude.{
  ◌≡◌, refl, sym, ◌∙◌, ap, subst, ℕ, Bool, true, false, not, List, Option, none, some,
  if◌then◌else◌,
}
use gatex.Prelude.Float.{Float}
use gatex.Prelude.Text.{Text, bytes, text_eq}
use gatex.Http.{
  Header, Request, Handler, Program, Conn, Outcome, run, get, http_error, on_header, on_world,
  error_header,
}
use gatex.Http
use gatex.Http.Headers.{get-set, get-values, values-error_header}
use gatex.Http.Serve.{run-http_error}
use gatex.RateLimiter.{ClientLimiter, allow}
use gatex.RequestMeta.{Store, id_header, ensure, request_id, route, set_route}
use gatex.RequestMeta.Sharing.{ensure-current, set_route_lem}
use gatex.Routing.{Route, match_route}
use gatex.Proxy.{Lens, IsLens, serve_http, rate_limit}

-- What a limiter says of a request, and its new state.
abbrev pub limited :
    {F W : Type 0} ⦃f : Float F⦄
    → Lens W (ClientLimiter F)
    → (W → ℕ)
    → (Text → Text)
    → Request
    → W
    → ClientLimiter F × Bool
limited limiter clock client_key r v = allow (clock v) (client_key r.remote_addr) (limiter.get v)

module _ (limit : Conn → ℕ) {F W : Type 0} ⦃f : Float F⦄ where
  -- A request is put to the limiter under its client's key, at the clock's reading, and the limiter's
  -- new state is kept. If the limiter allows it, the handler below runs, on the request, the headers
  -- and the rest of the state as they were; if not, it does not run, and the client gets the status
  -- 429 with the time after which to try again.
  pub rate_limit_lem :
      (limiter : Lens W (ClientLimiter F)) (clock : W → ℕ) (client_key : Text → Text)
      (retry_after : Text) (next : Handler W) (r : Request) (c : Conn) (v : W)
      → c.status ≡ none
      → let (after, allowed) = limited limiter clock client_key r v in
        let o = run limit (rate_limit limiter clock client_key retry_after next r) c v in
        (allowed ≡ true → o ≡ run limit (next r) c (limiter.put after v))
        × (allowed ≡ false
            → (o.conn.status ≡ some 429)
              × (get (bytes "Retry-After") o.conn.sent_header ≡ retry_after)
              × (o.world ≡ limiter.put after v)
              × (o.panic ≡ none))
  unfolding run rate_limit text_eq
  rate_limit_lem limiter clock client_key retry_after next r c v idle = (passed, denied)
    where
      state : W
      state = limiter.put (limited limiter clock client_key r v).0 v

      header : Header
      header = Http.set (bytes "Retry-After") retry_after c.header

      chosen : Bool → Program W
      chosen b =
          if not b
          then on_header (Http.set (bytes "Retry-After") retry_after)
              (http_error (bytes "rate limit exceeded") 429)
          else next r

      passed :
          (limited limiter clock client_key r v).1 ≡ true
          → run limit (rate_limit limiter clock client_key retry_after next r) c v
            ≡ run limit (next r) c state
      passed e = ap (λ b. run limit (chosen b) c state) e

      denied :
          (limited limiter clock client_key r v).1 ≡ false
          → let o = run limit (rate_limit limiter clock client_key retry_after next r) c v in
            (o.conn.status ≡ some 429)
            × (get (bytes "Retry-After") o.conn.sent_header ≡ retry_after)
            × (o.world ≡ state)
            × (o.panic ≡ none)
      denied e =
          let (a, b, g, h) =
            run-http_error limit (bytes "rate limit exceeded") 429 (record c { header = header })
              state idle refl in
          subst
            (λ b.
              let o = run limit (chosen b) c state in
              (o.conn.status ≡ some 429)
              × (get (bytes "Retry-After") o.conn.sent_header ≡ retry_after)
              × (o.world ≡ state)
              × (o.panic ≡ none))
            (sym e)
            (
              a,
              ap (get (bytes "Retry-After")) b
                  ∙ (get-values (bytes "Retry-After") (error_header header) header
                        (values-error_header (bytes "Retry-After") header (refl, refl, refl))
                      ∙ get-set (bytes "Retry-After") retry_after c.header),
              g,
              h,
            )

-- What the gateway made of a request before it looks for a route.
abbrev pub identified :
    {W : Type 0} → Lens W Store → (W → Option (List ℕ)) → (W → ℕ) → Request → W → Request × Store
identified store random clock r v = ensure (random v) (clock v) r (store.get v)

module _ (limit : Conn → ℕ) {W : Type 0} where
  -- Every request gets metadata and the header with its identifier. If no route's prefix matches its
  -- path, the client gets the status 404 with that header, and no handler runs. If there is a match,
  -- the handler of that route runs, and the metadata names the route's prefix.
  pub serve_http_lem :
      (store : Lens W Store) (random : W → Option (List ℕ)) (clock : W → ℕ) (routes : List Route)
      (handler : Route → Handler W) (r : Request) (c : Conn) (v : W)
      → IsLens store
      → c.status ≡ none
      → let (q, metadata) = identified store random clock r v in
        let h = Http.set id_header (request_id q metadata) c.header in
        let o = run limit (serve_http store random clock routes handler r) c v in
        (match_route routes q.path ≡ none
          → (o.conn.status ≡ some 404)
            × (get id_header o.conn.sent_header ≡ request_id q metadata)
            × (o.world ≡ store.put metadata v)
            × (o.panic ≡ none))
        × ((matched : Route)
            → match_route routes q.path ≡ some matched
            → let named = set_route q matched.path_prefix metadata in
              (o ≡ run limit (handler matched q) (record c { header = h }) (store.put named v))
              × (route q named ≡ matched.path_prefix))
  unfolding run serve_http text_eq
  serve_http_lem store random clock routes handler r c v lens idle = (missed, found)
    where
      q : Request
      q = (identified store random clock r v).0

      metadata : Store
      metadata = (identified store random clock r v).1

      header : Header
      header = Http.set id_header (request_id q metadata) c.header

      chosen : Option Route → Program W
      chosen m = elim m [
        | none ↦ http_error (bytes "no route configured for request path") 404
        | some found_route ↦
            on_world (λ u. store.put (set_route q found_route.path_prefix (store.get u)) u)
              (handler found_route q)
      ]

      missed :
          match_route routes q.path ≡ none
          → let o = run limit (serve_http store random clock routes handler r) c v in
            (o.conn.status ≡ some 404)
            × (get id_header o.conn.sent_header ≡ request_id q metadata)
            × (o.world ≡ store.put metadata v)
            × (o.panic ≡ none)
      missed e =
          let (a, b, g, h) =
            run-http_error limit (bytes "no route configured for request path") 404
              (record c { header = header }) (store.put metadata v) idle refl in
          subst
            (λ m.
              let o = run limit (chosen m) (record c { header = header }) (store.put metadata v) in
              (o.conn.status ≡ some 404)
              × (get id_header o.conn.sent_header ≡ request_id q metadata)
              × (o.world ≡ store.put metadata v)
              × (o.panic ≡ none))
            (sym e)
            (
              a,
              ap (get id_header) b
                  ∙ (get-values id_header (error_header header) header
                        (values-error_header id_header header (refl, refl, refl))
                      ∙ get-set id_header (request_id q metadata) c.header),
              g,
              h,
            )

      found :
          (matched : Route)
          → match_route routes q.path ≡ some matched
          → let named = set_route q matched.path_prefix metadata in
            (run limit (serve_http store random clock routes handler r) c v
              ≡ run limit (handler matched q) (record c { header = header }) (store.put named v))
            × (route q named ≡ matched.path_prefix)
      found matched e =
          let d : Conn = record c { header = header } in
          let (i, m, at, there) = ensure-current (random v) (clock v) r (store.get v) in
          let named = set_route q matched.path_prefix metadata in
          (
            ap (λ x. run limit (chosen x) d (store.put metadata v)) e
                ∙ (ap
                      (λ s.
                        run limit (handler matched q) d
                          (store.put (set_route q matched.path_prefix s) (store.put metadata v)))
                      (lens.get-put metadata v)
                    ∙ ap (run limit (handler matched q) d) (lens.put-put named metadata v)),
            (set_route_lem q q i matched.path_prefix metadata m at at there).0,
          )
