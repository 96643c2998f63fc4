-- ===== src/Proxy/Caching.antt =====
-- What `cacheResponses` of internal/proxy/cache.go does with a request.
use gatex.Prelude.{
  ◌≡◌, ◌⊎◌, inl, inr, refl, sym, ◌∙◌, ap, subst, ℕ, true, false, not, [], Option, none, some,
  if◌then◌else◌, arith,
}
use gatex.Prelude.Text.{Text, bytes}
use gatex.Http.{
  Header, Request, Panic, Program, Handler, returns, read_world, put_world, on_world, write_header,
  write, on_header, Conn, Outcome, run, get, client_status, is_informational, take_bytes, taken,
  conn_write_header, conn_append, is_some,
}
use gatex.Http
use gatex.Cache.{Cache, Response}
use gatex.Cache
use gatex.HttpCache.{
  Capture, empty_capture, response, is_cacheable_request, response_cache_key,
  response_headers_prevent_caching,
}
use gatex.Proxy.{
  Lens, cache_responses, store_response, stored_response, captured, write_cached_response,
  cache_status_header,
}
use gatex.Proxy.Tracking.{IsTracking}
use gatex.Proxy.Capturing.{run-captured, go_on}

-- A response that a capturing writer gives is the one that the connection has sent.
response-sent_by :
    (u : Capture) (c : Conn) (s : Response)
    → IsTracking u c
    → response c.header u ≡ some s
    → (s.status_code ≡ 200)
      × (s.body ≡ c.body)
      × (response_headers_prevent_caching s.header ≡ false)
      × (client_status c ≡ 200)
unfolding response
response-sent_by u c s h e = ground (arith, h.wrote, h.status, h.body, h.success, h.idle)

start : (c : Conn) → c.status ≡ none → c.body ≡ [] → IsTracking empty_capture c
start c idle nothing = ground arith

module _ {W : Type 0} (cache : Lens W Cache) (clock : W → ℕ) where
  -- The state after a response was stored.
  abbrev pub after_store : Text → Response → W → W
  after_store key s w = cache.put (Cache.set (clock w) key (stored_response s) (cache.get w)) w

  -- The answer of the cache to a request, with what the lookup leaves of it.
  abbrev pub looked_up : Request → W → Cache × Option Response
  looked_up r v = Cache.get (clock v) (response_cache_key r) (cache.get v)

module _ (limit : Conn → ℕ) {W : Type 0} (cache : Lens W Cache) (clock : W → ℕ) where
  -- A run that ended here, with one response stored at most.
  abbrev pub IsStored : Text → Capture → Conn → W → Outcome W → Type 0
  IsStored key u c v o =
      (o.panic ≡ none)
      × (o.conn ≡ c)
      × ((o.world ≡ v)
          ⊎ ((s : Response) × (response c.header u ≡ some s)
              × (o.world ≡ after_store cache clock key s v)))

  run-store_response :
      (key : Text) (u : Capture) (c : Conn) (v : W)
      → IsStored key u c v (run limit (store_response cache clock key u) c v)
  unfolding run store_response
  run-store_response key u c v = at (response c.header u) refl
    where
      chosen : Option Response → Program W
      chosen m = elim m [
        | none ↦ returns
        | some s ↦ on_world (after_store cache clock key s) returns
      ]

      at :
          (m : Option Response)
          → response c.header u ≡ m
          → IsStored key u c v (run limit (chosen m) c v)
      at none e = (refl, refl, inl refl)
      at (some s) e = (refl, refl, inr (s, e, refl))

  -- A run through the capturing writer, for the run of the handler: the same for the client, and one
  -- response stored at most, which is the one that was sent.
  abbrev pub IsMissed : Text → Outcome W → Outcome W → Type 0
  IsMissed key inner o =
      (o.panic ≡ inner.panic)
      × (o.conn ≡ inner.conn)
      × ((o.world ≡ inner.world)
          ⊎ ((s : Response) × (o.world ≡ after_store cache clock key s inner.world)
              × (inner.panic ≡ none)
              × (s.status_code ≡ 200)
              × (s.body ≡ inner.conn.body)
              × (response_headers_prevent_caching s.header ≡ false)
              × (client_status inner.conn ≡ 200)))

  go_on-IsMissed :
      (key : Text) (u : Capture) (inner : Outcome W)
      → IsTracking u inner.conn
      → IsMissed key inner (go_on limit (store_response cache clock key) u inner)
  go_on-IsMissed key u inner h = at inner.panic refl
    where
      at :
          (p : Option Panic)
          → inner.panic ≡ p
          → IsMissed key inner (elim p [
            | none ↦ run limit (store_response cache clock key u) inner.conn inner.world
            | some q ↦ inner
          ])
      at (some q) e = (refl, refl, inl refl)
      at none e =
          let (a, b, stored) = run-store_response key u inner.conn inner.world in
          (
            a ∙ sym e,
            b,
            elim stored [
              | inl same ↦ inl same
              | inr (s, made, written) ↦
                  let (x, y, z, t) = response-sent_by u inner.conn s h made in
                  inr (s, written, e, x, y, z, t)
            ],
          )

  module _ (id_of : Request → W → Text) where
    -- What follows the lookup.
    abbrev pub answered : Handler W → Request → W → Program W
    answered next r v = elim (looked_up cache clock r v).1 [
      | some cached ↦ write_cached_response cached (id_of r v)
      | none ↦
          on_header (Http.set cache_status_header (bytes "MISS"))
            (captured (store_response cache clock (response_cache_key r)) (next r) empty_capture)
    ]

    pub cache_responses-looked_up :
        (next : Handler W) (r : Request) (c : Conn) (v : W)
        → is_cacheable_request r ≡ true
        → run limit (cache_responses cache clock id_of next r) c v
          ≡ run limit (answered next r v) c (cache.put (looked_up cache clock r v).0 v)
    unfolding run cache_responses
    cache_responses-looked_up next r c v e =
        ap
          (λ b.
            run limit
              (if not b
                then next r
                else read_world
                    λ w. put_world (cache.put (looked_up cache clock r w).0 w) (answered next r w))
              c v)
          e

    -- A request that may be cached and finds nothing stored, on a connection to which nothing was sent:
    -- the client gets from the handler below what it gets without the cache, after the header that
    -- says `MISS`, and a panic is passed on. At most one response is stored, only if the handler
    -- returned: its status is 200, which is the client's, its headers allow caching, and its body is
    -- what was sent.
    pub cache_responses-miss :
        (next : Handler W) (r : Request) (c : Conn) (v : W)
        → is_cacheable_request r ≡ true
        → (looked_up cache clock r v).1 ≡ none
        → c.status ≡ none
        → c.body ≡ []
        → let d = record c { header = Http.set cache_status_header (bytes "MISS") c.header } in
          let inner = run limit (next r) d (cache.put (looked_up cache clock r v).0 v) in
          let o = run limit (cache_responses cache clock id_of next r) c v in
          IsMissed (response_cache_key r) inner o
    unfolding run
    cache_responses-miss next r c v may missed idle nothing =
        let state = cache.put (looked_up cache clock r v).0 v in
        let d : Conn = record c { header = Http.set cache_status_header (bytes "MISS") c.header } in
        let key = response_cache_key r in
        let (u, h, e) =
          run-captured limit (store_response cache clock key) (next r) empty_capture d state
            (start d idle nothing) in
        let whole =
          cache_responses-looked_up next r c v may
          ∙ (ap
                (λ m.
                  run limit
                    (elim m [
                      | some cached ↦ write_cached_response cached (id_of r v)
                      | none ↦
                          on_header (Http.set cache_status_header (bytes "MISS"))
                            (captured (store_response cache clock key) (next r) empty_capture)
                    ])
                    c state)
                missed
              ∙ e) in
        subst (IsMissed key (run limit (next r) d state)) (sym whole)
          (go_on-IsMissed key u (run limit (next r) d state) h)
