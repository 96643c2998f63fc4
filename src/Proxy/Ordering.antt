-- ===== src/Proxy/Ordering.antt =====
-- The order in which a route of internal/proxy/gateway.go asks its middleware.
use gatex.Prelude.{
  ◌≡◌, sym, ◌∙◌, ap, subst, ℕ, Bool, true, false, List, [], ◌∷◌, Option, none, some,
}
use gatex.Prelude.Float.{Float}
use gatex.Prelude.Text.{Text}
use gatex.Http.{Request, Handler, Middleware, Conn, Outcome, run, get, del}
use gatex.Middleware.{api_key_header, api_key_auth, chain}
use gatex.Middleware.Keys.{HasNoCollision, is_authentic, api_key_auth_lem}
use gatex.Middleware.Order.{chain_lem}
use gatex.RateLimiter.{ClientLimiter}
use gatex.Proxy.{Lens, rate_limit, route_handler, prepend}
use gatex.Proxy.Serving.{limited, rate_limit_lem}

-- The request that passes the keys.
abbrev pub passed : Request → Request
passed r = record r { header = del api_key_header r.header }

module _ (sum256 : Text → Text) (keys : List Text) (limit : Conn → ℕ) {F W : Type 0} ⦃f : Float F⦄
    (limiter : Lens W (ClientLimiter F)) (clock : W → ℕ) (client_key : Text → Text)
    (retry_after : Text) (cache : Option (Middleware W)) (serve_route : Handler W) where
  -- The handler of a route with a limiter.
  abbrev pub limited_route : Bool → Handler W
  limited_route protected =
      route_handler (api_key_auth sum256 keys) protected
        (some (rate_limit limiter clock client_key retry_after)) cache serve_route

  route_nested :
      limited_route true
      ≡ api_key_auth sum256 keys
          (rate_limit limiter clock client_key retry_after (chain (prepend cache []) serve_route))
  unfolding route_handler
  route_nested =
      let auth : Middleware W = api_key_auth sum256 keys in
      let rate : Middleware W = rate_limit limiter clock client_key retry_after in
      (chain_lem (rate ∷ prepend cache []) [] auth serve_route).1
      ∙ ap auth (chain_lem (prepend cache []) [] rate serve_route).1

  -- A protected route with a limiter, whatever its cache and its pool do, and a connection to which
  -- nothing was sent, provided that no other valid key has the digest of the request's. A request
  -- without a valid key gets 401 and leaves the state as it was: it takes no token of the limiter, and
  -- neither cache nor pool sees it. A request with a valid key that the limiter denies gets 429, and
  -- only the limiter's state is changed. Any other goes on to the cache, if there is one, and to the
  -- pool, without its key.
  pub route_handler_lem :
      (r : Request) (c : Conn) (v : W)
      → HasNoCollision sum256 (get api_key_header r.header) keys
      → c.status ≡ none
      → let o = run limit (limited_route true r) c v in
        let (after, allowed) = limited limiter clock client_key (passed r) v in
        (is_authentic sum256 keys r ≡ false
          → (o.conn.status ≡ some 401) × (o.world ≡ v) × (o.panic ≡ none))
        × (is_authentic sum256 keys r ≡ true
            → allowed ≡ false
            → (o.conn.status ≡ some 429) × (o.world ≡ limiter.put after v) × (o.panic ≡ none))
        × (is_authentic sum256 keys r ≡ true
            → allowed ≡ true
            → o
              ≡ run limit (chain (prepend cache []) serve_route (passed r)) c (limiter.put after v))
  route_handler_lem r c v apart idle =
      let (allowing, b, denying) = api_key_auth_lem sum256 limit keys inner r c v apart idle in
      let (through, held) =
        rate_limit_lem limit limiter clock client_key retry_after behind (passed r) c v idle in
      (
        λ e.
            let (s, h, w, p) = denying e in
            subst Refused (sym (ap (λ g. run limit (g r) c v) nested)) (s, w, p),
        λ e d.
            let (s, h, w, p) = held d in
            subst Held (sym (ap (λ g. run limit (g r) c v) nested ∙ allowing e)) (s, w, p),
        λ e d. ap (λ g. run limit (g r) c v) nested ∙ (allowing e ∙ through d),
      )
    where
      behind : Handler W
      behind = chain (prepend cache []) serve_route

      inner : Handler W
      inner = rate_limit limiter clock client_key retry_after behind

      nested : limited_route true ≡ api_key_auth sum256 keys inner
      nested = route_nested

      Refused : Outcome W → Type 0
      Refused o = (o.conn.status ≡ some 401) × (o.world ≡ v) × (o.panic ≡ none)

      Held : Outcome W → Type 0
      Held o =
          (o.conn.status ≡ some 429)
          × (o.world ≡ limiter.put (limited limiter clock client_key (passed r) v).0 v)
          × (o.panic ≡ none)
