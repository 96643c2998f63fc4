-- ===== src/Proxy/Tests.antt =====
-- Routes, limits and replays at concrete requests.
use gatex.Prelude.{
  ◌≡◌, ◌⊎◌, ◌≤◌, ◌<◌, ◌+◌, refl, ℕ, true, false, List, [], ◌∷◌, none, some, length, ok,
}
use gatex.Prelude.Float.{whole}
use gatex.Prelude.Int.{pos}
use gatex.Prelude.Text.{Text, bytes, text_eq, trim_space}
use gatex.Prelude.Dict.{lookup}
use gatex.Http.{
  Request, Handler, Conn, Outcome, run, get, values, set, put_values, conn_write_header,
  conn_append, taken, take_bytes, write_header, write, returns,
}
use gatex.Http
use gatex.Process.{World}
use gatex.Process.Samples.{fresh, roomy, plain, quiet, missing}
use gatex.Cache.{Cache, Response}
use gatex.Cache
use gatex.Cache.Views.{IsCache}
use gatex.Cache.Refinement.{get-lru_get}
use gatex.Cache.Lookups.{new_with_clock-IsCache}
use gatex.HttpCache.{
  is_cacheable_request, response_cache_key, cache_control_prevents_caching, header_has_directive,
}
use gatex.Middleware.{chain}
use gatex.Middleware.Keys.{is_authentic}
use gatex.RateLimiter.{ClientLimiter}
use gatex.RequestMeta.{Store, id_header, request_id, route, set_route}
use gatex.Routing.{Route, match_route}
use gatex.Proxy.{
  Lens, IsLens, serve_http, cache_responses, cache_status_header, prepend,
  client_key_from_remote_addr,
}
use gatex.Proxy.Serving.{limited, identified, serve_http_lem}
use gatex.Proxy.Caching.{looked_up, IsMissed, cache_responses-miss}
use gatex.Proxy.Replaying.{IsReplay, cache_responses_lem}
use gatex.Proxy.Ordering.{limited_route, passed, route_handler_lem}

program : Unit {0}
unfolding run conn_write_header conn_append taken take_bytes set put_values values get text_eq
    lookup is_cacheable_request cache_control_prevents_caching header_has_directive Cache.get
    cache_responses client_key_from_remote_addr trim_space
program = tt

by_port : client_key_from_remote_addr (λ s. none) (λ s. none) (bytes "peer") ≡ bytes "peer"
unfolding program
by_port = refl

-- The metadata of the state of the process.
abbrev metadata : Lens World Store
metadata = record { get = λ w. w.metadata; put = λ s w. record w { metadata = s } }

metadata-IsLens : IsLens metadata
metadata-IsLens = record { get-put = λ s w. refl; put-put = λ s t w. refl; put-get = λ w. refl }

abbrev routes : List Route
routes = record { path_prefix = bytes "/x"; pool = bytes "p" } ∷ []

abbrev answer : Route → Handler World
answer matched = missing

serve_http_lem_example :
    let (q, after) = identified metadata (λ w. w.random) (λ w. w.now) plain quiet in
    let h = Http.set id_header (request_id q after) fresh.header in
    let o =
      run roomy
        (serve_http metadata (λ w. w.random) (λ w. w.now) routes answer plain)
        fresh
        quiet in
    (match_route routes q.path ≡ none
      → (o.conn.status ≡ some 404)
        × (get id_header o.conn.sent_header ≡ request_id q after)
        × (o.world ≡ record quiet { metadata = after })
        × (o.panic ≡ none))
    × ((matched : Route)
        → match_route routes q.path ≡ some matched
        → let named = set_route q matched.path_prefix after in
          (o
            ≡ run roomy
                (answer matched q)
                (record fresh { header = h })
                (record quiet { metadata = named }))
          × (route q named ≡ matched.path_prefix))
serve_http_lem_example =
    serve_http_lem roomy metadata (λ w. w.random) (λ w. w.now) routes answer plain fresh quiet
      metadata-IsLens refl

abbrev limiter : ClientLimiter ℕ
limiter = record {
  shards = record { clients = []; last_cleanup = 0 } ∷ [];
  tokens_per_second = 2;
  burst = 3;
  client_idle_ttl = 600;
  cleanup_interval = 60;
}

abbrev itself : Lens (ClientLimiter ℕ) (ClientLimiter ℕ)
itself = record { get = λ w. w; put = λ s w. s }

abbrev at_five : ClientLimiter ℕ → ℕ
at_five w = 5

abbrev keys : List Text
keys = bytes "k1" ∷ []

abbrev guarded : Handler (ClientLimiter ℕ)
guarded = limited_route (λ k. k) keys roomy itself at_five (λ s. s) (bytes "1") none missing true

route_handler_lem_example :
    let o = run roomy (guarded plain) fresh limiter in
    let (after, allowed) = limited itself at_five (λ s. s) (passed plain) limiter in
    (is_authentic (λ k. k) keys plain ≡ false
      → (o.conn.status ≡ some 401) × (o.world ≡ limiter) × (o.panic ≡ none))
    × (is_authentic (λ k. k) keys plain ≡ true
        → allowed ≡ false
        → (o.conn.status ≡ some 429) × (o.world ≡ after) × (o.panic ≡ none))
    × (is_authentic (λ k. k) keys plain ≡ true
        → allowed ≡ true
        → o ≡ run roomy (chain (prepend none []) missing (passed plain)) fresh after)
route_handler_lem_example =
    route_handler_lem (λ k. k) keys roomy itself at_five (λ s. s) (bytes "1") none missing plain
      fresh limiter (λ k inside same. same) refl

-- A clock and a cache.
abbrev Timed : Type 0
Timed = ℕ × Cache

abbrev cache_of : Lens Timed Cache
cache_of = record { get = λ w. w.1; put = λ s w. (w.0, s) }

cache_of-IsLens : IsLens cache_of
cache_of-IsLens = record { get-put = λ s w. refl; put-put = λ s t w. refl; put-get = λ w. refl }

abbrev clock : Timed → ℕ
clock w = w.0

abbrev no_id : Request → Timed → Text
no_id r w = []

abbrev hello : Handler Timed
hello r = write (bytes "hello") (λ n failed. returns)

abbrev empty : Cache
empty = record { ttl = 10; max_entries = 2; entries = []; recency = [] }

may_be_cached : is_cacheable_request plain ≡ true
unfolding program
may_be_cached = refl

nothing_stored : (looked_up cache_of clock plain (3, empty)).1 ≡ none
unfolding program
nothing_stored = refl

abbrev marked : Conn
marked = record fresh { header = Http.set cache_status_header (bytes "MISS") [] }

cache_responses-miss_example :
    IsMissed roomy cache_of clock
      (response_cache_key plain)
      (run roomy
        (hello plain)
        marked
        (cache_of.put (looked_up cache_of clock plain (3, empty)).0 (3, empty)))
      (run roomy (cache_responses cache_of clock no_id hello plain) fresh (3, empty))
cache_responses-miss_example =
    cache_responses-miss roomy cache_of clock no_id hello plain fresh (3, empty) may_be_cached
      nothing_stored refl refl

created : Cache.new_with_clock (pos 10) (pos 2) true ≡ ok empty
unfolding Cache.new_with_clock
created = refl

left_empty : IsCache (Cache.get 3 (response_cache_key plain) empty).0
left_empty = (get-lru_get 3 (response_cache_key plain) empty empty-IsCache).0
  where
    empty-IsCache : IsCache empty
    empty-IsCache = (new_with_clock-IsCache (pos 10) (pos 2) true created).0

cache_responses_lem_example :
    let v : Timed = (3, empty) in
    let inner =
      run roomy (hello plain) marked (cache_of.put (looked_up cache_of clock plain v).0 v) in
    let o = run roomy (cache_responses cache_of clock no_id hello plain) fresh v in
    (o.world ≡ inner.world)
    ⊎ ((later : Handler Timed) (q : Request) (e : Conn) (u : Timed)
        → is_cacheable_request q ≡ true
        → response_cache_key q ≡ response_cache_key plain
        → cache_of.get u ≡ cache_of.get o.world
        → clock u < clock inner.world + (cache_of.get inner.world).ttl
        → e.status ≡ none
        → e.body ≡ []
        → ((x : Conn) → length inner.conn.body ≤ roomy x)
        → IsReplay roomy 200 inner.conn.body
            (cache_of.put (looked_up cache_of clock q u).0 u)
            (run roomy (cache_responses cache_of clock no_id later q) e u))
unfolding run
cache_responses_lem_example =
    cache_responses_lem roomy cache_of clock no_id hello plain fresh (3, empty) cache_of-IsLens
      may_be_cached nothing_stored refl refl left_empty
