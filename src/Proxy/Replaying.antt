-- ===== src/Proxy/Replaying.antt =====
-- What `cacheResponses` of internal/proxy/cache.go answers from the cache.
use gatex.Prelude.{
  ◌≡◌, ◌⊎◌, inl, inr, ◌≤◌, ◌<◌, ◌+◌, refl, sym, ◌∙◌, ap, subst, ℕ, true, false, [], ◌∷◌, ◌++◌, none,
  some, length, arith,
}
use gatex.Prelude.Text.{Text, bytes}
use gatex.Http.{
  Header, Request, Program, Handler, returns, write_header, write, on_header, Conn, Outcome, run,
  get, is_informational, take_bytes, taken, conn_write_header, conn_append,
}
use gatex.Http
use gatex.Http.Headers
use gatex.Http.Serve.{conn-first}
use gatex.Cache.{Cache, Response}
use gatex.Cache.Views.{IsCache}
use gatex.Cache.Lookups.{get-set}
use gatex.Cache
use gatex.HttpCache.{empty_capture, is_cacheable_request, response_cache_key}
use gatex.Proxy.{
  Lens, IsLens, cache_responses, stored_response, write_cached_response, cached_headers,
  cache_status_header, captured, store_response,
}
use gatex.Proxy.Caching.{looked_up, cache_responses-looked_up, cache_responses-miss}

take_bytes-length : (s : Text) → take_bytes (length s) s ≡ s
unfolding take_bytes
take_bytes-length [] = refl
take_bytes-length (b ∷ s) = ap (◌∷◌ b) (take_bytes-length s)

taken-length : (room : ℕ) (s : Text) → length s ≤ room → taken room s ≡ length s
unfolding taken
taken-length room s h = ground arith

get-cached_headers :
    (fields : Header) (id : Text) (h : Header)
    → get cache_status_header (cached_headers fields id h) ≡ bytes "HIT"
unfolding cached_headers
get-cached_headers fields id h = Headers.get-set cache_status_header (bytes "HIT") _

module _ (limit : Conn → ℕ) {W : Type 0} where
  -- A response from the cache, on a connection that has room for it.
  abbrev pub IsReplay : ℕ → Text → W → Outcome W → Type 0
  IsReplay status body v o =
      (o.conn.status ≡ some status)
      × (o.conn.body ≡ body)
      × (get cache_status_header o.conn.sent_header ≡ bytes "HIT")
      × (o.world ≡ v)
      × (o.panic ≡ none)

  run-write_cached_response :
      (cached : Response) (id : Text) (c : Conn) (v : W)
      → c.status ≡ none
      → c.body ≡ []
      → is_informational cached.status_code ≡ false
      → ((d : Conn) → length cached.body ≤ limit d)
      → IsReplay cached.status_code cached.body v (run limit (write_cached_response cached id) c v)
  unfolding run write_cached_response conn_append
  run-write_cached_response cached id c v idle nothing plain room =
      let d : Conn = record c { header = cached_headers cached.header id c.header } in
      let started : Conn = record d { status = some cached.status_code; sent_header = d.header } in
      let all : take_bytes (taken (limit started) cached.body) cached.body ≡ cached.body =
        ap (λ n. take_bytes n cached.body) (taken-length (limit started) cached.body (room started))
        ∙ take_bytes-length cached.body in
      rw (conn-first cached.status_code d idle plain) (
        refl,
        ap (λ b. b ++ take_bytes (taken (limit started) cached.body) cached.body) nothing ∙ all,
        get-cached_headers cached.header id c.header,
        refl,
        refl,
      )

  module _ (cache : Lens W Cache) (clock : W → ℕ) (id_of : Request → W → Text) where
    -- A request that finds a response stored gets that response, with its status, its body and the
    -- header that says `HIT`; the handler below does not run.
    pub cache_responses-hit :
        (next : Handler W) (r : Request) (cached : Response) (c : Conn) (v : W)
        → is_cacheable_request r ≡ true
        → (looked_up cache clock r v).1 ≡ some cached
        → c.status ≡ none
        → c.body ≡ []
        → is_informational cached.status_code ≡ false
        → ((d : Conn) → length cached.body ≤ limit d)
        → IsReplay cached.status_code cached.body
            (cache.put (looked_up cache clock r v).0 v)
            (run limit (cache_responses cache clock id_of next r) c v)
    cache_responses-hit next r cached c v may found idle nothing plain room =
        let state = cache.put (looked_up cache clock r v).0 v in
        let whole =
          cache_responses-looked_up limit cache clock id_of next r c v may
          ∙ ap
              (λ m.
                run limit
                  (elim m [
                    | some s ↦ write_cached_response s (id_of r v)
                    | none ↦ on_header (Http.set cache_status_header (bytes "MISS")) (
                        captured (store_response cache clock (response_cache_key r)) (next r)
                          empty_capture)
                  ])
                  c state)
              found in
        subst (IsReplay cached.status_code cached.body state) (sym whole)
          (run-write_cached_response cached (id_of r v) c state idle nothing plain room)

    replayed :
        (s : Response) (b : Text)
        → s.body ≡ b
        → s.status_code ≡ 200
        → (o : Outcome W) (v : W)
        → (is_informational (stored_response s).status_code ≡ false
            → ((d : Conn) → length (stored_response s).body ≤ limit d)
            → IsReplay (stored_response s).status_code (stored_response s).body v o)
        → ((d : Conn) → length b ≤ limit d)
        → IsReplay 200 b v o
    unfolding stored_response
    replayed s b body status o v hit room =
        let (h, k, x, y, z) =
          hit (ap is_informational status)
            (λ d. subst (λ t. length t ≤ limit d) (sym body) (room d)) in
        (h ∙ ap some status, k ∙ body, x, y, z)

    -- An exchange that found nothing stored either stores nothing, or every later request under the same
    -- key, with any handler below, on a connection to which nothing was sent and that has room for
    -- the body, as long as the cache was not used in between and the lifetime has not ended, gets 200
    -- and the very body that was sent the first time.
    pub cache_responses_lem :
        (next : Handler W) (r : Request) (c : Conn) (v : W)
        → IsLens cache
        → is_cacheable_request r ≡ true
        → (looked_up cache clock r v).1 ≡ none
        → c.status ≡ none
        → c.body ≡ []
        → let d = record c { header = Http.set cache_status_header (bytes "MISS") c.header } in
          let inner = run limit (next r) d (cache.put (looked_up cache clock r v).0 v) in
          let o = run limit (cache_responses cache clock id_of next r) c v in
          IsCache (cache.get inner.world)
          → (o.world ≡ inner.world)
            ⊎ ((later : Handler W) (q : Request) (e : Conn) (u : W)
                → is_cacheable_request q ≡ true
                → response_cache_key q ≡ response_cache_key r
                → cache.get u ≡ cache.get o.world
                → clock u < clock inner.world + (cache.get inner.world).ttl
                → e.status ≡ none
                → e.body ≡ []
                → ((x : Conn) → length inner.conn.body ≤ limit x)
                → IsReplay 200 inner.conn.body
                    (cache.put (looked_up cache clock q u).0 u)
                    (run limit (cache_responses cache clock id_of later q) e u))
    cache_responses_lem next r c v lens may missed idle nothing valid =
        let d = record c { header = Http.set cache_status_header (bytes "MISS") c.header } in
        let inner = run limit (next r) d (cache.put (looked_up cache clock r v).0 v) in
        let (x, y, stored) =
          cache_responses-miss limit cache clock id_of next r c v may missed idle nothing in
        elim stored [
          | inl same ↦ inl same
          | inr (s, written, returned, ok_status, body, plain, seen) ↦
              inr λ later q e u may_q same_key same_cache alive idle_e nothing_e room.
                let key = response_cache_key r in
                let now = clock inner.world in
                let before = cache.get inner.world in
                let kept =
                  same_cache
                  ∙ (ap (λ w. cache.get w) written
                      ∙ lens.get-put (Cache.set now key (stored_response s) before) inner.world) in
                let found =
                  ap (λ k. (Cache.get (clock u) k (cache.get u)).1) same_key
                  ∙ (ap (λ m. (Cache.get (clock u) key m).1) kept
                      ∙ get-set now (clock u) key (stored_response s) before valid alive) in
                replayed s inner.conn.body body ok_status
                  (run limit (cache_responses cache clock id_of later q) e u)
                  (cache.put (looked_up cache clock q u).0 u)
                  (λ plain_s fits.
                    cache_responses-hit later q (stored_response s) e u may_q found idle_e nothing_e
                      plain_s fits)
                  room
        ]
