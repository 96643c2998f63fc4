-- ===== src/Proxy.antt =====
-- internal/proxy/gateway.go and cache.go: the handlers of the gateway, `ServeHTTP`, `rateLimit` and
-- `cacheResponses`. They reach their parts of the process's state through lenses; `clock` is its
-- clock. `netip` stands for the parsers of net/netip, which give an address in its usual form.

pub mod Serving
pub mod Tracking
pub mod Capturing
pub mod Caching
pub mod Replaying
pub mod Ordering
mod Tests
use gatex.Prelude.{◌≡◌, ℕ, Bool, true, false, not, List, [], ◌∷◌, Option, none, some, if◌then◌else◌}
use gatex.Prelude.Float.{Float}
use gatex.Prelude.Text.{Text, bytes, trim_space}
use gatex.Http.{
  Header, Request, Program, returns, panics, read_header, put_header, write_header, write,
  read_world, put_world, on_header, on_world, http_error, Handler, Middleware, is_informational,
}
use gatex.Http
use gatex.Cache.{Cache, Response}
use gatex.Cache
use gatex.HttpCache
use gatex.HttpCache.{Capture, empty_capture, response, is_cacheable_request, response_cache_key}
use gatex.RateLimiter.{ClientLimiter, allow}
use gatex.Middleware.{chain}
use gatex.RequestMeta.{Store, id_header, ensure, request_id, set_route}
use gatex.Routing.{Route, match_route}

-- A part `S` of a state `W`.
pub record Lens (W S : Type 0) : Type 0 where
  pub get : W → S
  pub put : S → W → W

pub record IsLens {W S : Type 0} (l : Lens W S) : Type 0 where
  pub get-put : (s : S) (w : W) → l.get (l.put s w) ≡ s
  pub put-put : (s t : S) (w : W) → l.put s (l.put t w) ≡ l.put s w
  pub put-get : (w : W) → l.put (l.get w) w ≡ w

-- `clientKeyFromRemoteAddr`.
unfoldable pub client_key_from_remote_addr :
    (Text → Option Text) → (Text → Option Text) → Text → Text
client_key_from_remote_addr parse_addr_port parse_addr remote_addr =
    elim (parse_addr_port remote_addr) [
      | some address ↦ address
      | none ↦ elim (parse_addr remote_addr) [
        | some address ↦ address
        | none ↦ trim_space remote_addr
      ]
    ]

module _ {W : Type 0} where
  -- `ServeHTTP`; `handler` is that of a route.
  unfoldable pub serve_http :
      Lens W Store → (W → Option (List ℕ)) → (W → ℕ) → List Route → (Route → Handler W) → Handler W
  unfolding ensure request_id set_route
  serve_http store random clock routes handler r = read_world λ w.
      let (q, metadata) = ensure (random w) (clock w) r (store.get w) in
      put_world (store.put metadata w) (
        on_header (Http.set id_header (request_id q metadata)) (elim (match_route routes q.path) [
          | none ↦ http_error (bytes "no route configured for request path") 404
          | some route ↦
              on_world (λ v. store.put (set_route q route.path_prefix (store.get v)) v)
                (handler route q)
        ]))

module _ {F W : Type 0} ⦃f : Float F⦄ where
  -- `rateLimit`, with the route's limiter and its `Retry-After`.
  unfoldable pub rate_limit :
      Lens W (ClientLimiter F) → (W → ℕ) → (Text → Text) → Text → Middleware W
  rate_limit limiter clock client_key retry_after next r = read_world λ w.
      let (after, allowed) = allow (clock w) (client_key r.remote_addr) (limiter.get w) in
      put_world (limiter.put after w) (
        if not allowed
        then on_header (Http.set (bytes "Retry-After") retry_after)
            (http_error (bytes "rate limit exceeded") 429)
        else next r)

-- `http.Header` of a cached response, put over the fields that are there.
unfoldable pub put_fields : Header → Header → Header
put_fields [] h = h
put_fields ((name, vs) ∷ fields) h = put_fields fields (Http.put_values name vs h)

abbrev pub cache_status_header : Text
cache_status_header = bytes "X-Cache"

-- The headers of a response from the cache.
unfoldable pub cached_headers : Header → Text → Header → Header
unfolding put_fields
cached_headers fields id h =
    Http.set cache_status_header (bytes "HIT") (Http.set id_header id (put_fields fields h))

-- The response as it is stored.
unfoldable pub stored_response : Response → Response
stored_response r = record r { header = Http.del cache_status_header (Http.del id_header r.header) }

module _ {W : Type 0} where
  -- `writeCachedResponse`; its error is only logged.
  unfoldable pub write_cached_response : Response → Text → Program W
  unfolding cached_headers
  write_cached_response response id =
      on_header (cached_headers response.header id)
        (write_header response.status_code (write response.body (λ n failed. returns)))

  -- `WriteHeader` of `cacheResponseWriter`; what follows it is given the new state of the writer.
  unfoldable pub capture_header : ℕ → Capture → (Capture → Program W) → Program W
  capture_header status w next =
      if is_informational status
      then write_header status (next w)
      else if w.wrote_header
      then next w
      else read_header (λ h. write_header status (next (HttpCache.write_header h status w)))

  -- The part of `Write` after the header is written.
  unfoldable pub capture_append : Text → Capture → (Capture → ℕ → Bool → Program W) → Program W
  capture_append part w next =
      write part (λ n failed. next (HttpCache.append_body part n failed w) n failed)

  unfoldable pub capture_write : Text → Capture → (Capture → ℕ → Bool → Program W) → Program W
  unfolding capture_header capture_append
  capture_write part w next =
      if not w.wrote_header
      then capture_header 200 w (λ started. capture_append part started next)
      else capture_append part w next

  -- A handler's run on the capturing writer, and what follows if it returns.
  unfoldable pub captured : (Capture → Program W) → Program W → Capture → Program W
  unfolding capture_header capture_write
  captured finish returns w = finish w
  captured finish (panics p) w = panics p
  captured finish (read_header f) w = read_header (λ h. captured finish (f h) w)
  captured finish (put_header h p) w = put_header h (captured finish p w)
  captured finish (write_header status p) w =
      capture_header status w (λ after. captured finish p after)
  captured finish (write part f) w =
      capture_write part w (λ after n failed. captured finish (f n failed) after)
  captured finish (read_world f) w = read_world (λ v. captured finish (f v) w)
  captured finish (put_world v p) w = put_world v (captured finish p w)

  module _ (cache : Lens W Cache) (clock : W → ℕ) where
    -- What `cacheResponses` does after the handler has returned.
    unfoldable pub store_response : Text → Capture → Program W
    unfolding stored_response
    store_response key w = read_header λ h. elim (response h w) [
      | none ↦ returns
      | some r ↦
          on_world (λ v. cache.put (Cache.set (clock v) key (stored_response r) (cache.get v)) v)
            returns
    ]

    -- `id_of` is `RequestID` of a request.
    unfoldable pub cache_responses : (Request → W → Text) → Middleware W
    unfolding write_cached_response captured store_response
    cache_responses id_of next r =
        if not (is_cacheable_request r)
        then next r
        else read_world λ v.
          let key = response_cache_key r in
          let (after, found) = Cache.get (clock v) key (cache.get v) in
          put_world (cache.put after v) (elim found [
            | some cached ↦ write_cached_response cached (id_of r v)
            | none ↦
                on_header (Http.set cache_status_header (bytes "MISS"))
                  (captured (store_response key) (next r) empty_capture)
          ])

-- A middleware that is there under a condition, in front of the others.
abbrev pub prepend :
    {W : Type 0} → Option (Middleware W) → List (Middleware W) → List (Middleware W)
prepend none ms = ms
prepend (some m) ms = m ∷ ms

-- The handler of a route, as `NewGatewayWithTransport` puts it together: the keys if the route is
-- protected, then its limiter and its cache if it has them, then `serveRoute`.
unfoldable pub route_handler :
    {W : Type 0}
    → Middleware W
    → Bool
    → Option (Middleware W)
    → Option (Middleware W)
    → Handler W
    → Handler W
unfolding chain
route_handler api_key_auth protected limiter cache serve_route =
    chain
      (prepend (if protected then some api_key_auth else none) (prepend limiter (prepend cache [])))
      serve_route
