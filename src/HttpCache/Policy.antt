-- ===== src/HttpCache/Policy.antt =====
-- Which requests internal/proxy/cache.go caches, and under which key.
use gatex.Prelude.{
  inl, inr, ◌≡◌, ◌≢◌, refl, Bool, true, false, not, List, [], ◌∷◌, ◌++◌, arith, All, Bool-cases,
  if◌then◌else◌,
}
use gatex.Prelude.Text.{Text, bytes, text_eq, text_eq_iff, any, to_lower}
use gatex.Http.{Header, get, Request}
use gatex.HttpCache.{
  personal, is_cacheable_request, cache_control_prevents_caching, response_cache_key,
}

any-All :
    (header : Header) (names : List Text)
    → any (λ name. not (text_eq (get name header) [])) names ≡ false
    → All (λ name. get name header ≡ []) names
any-All header [] e = tt
any-All header (n ∷ ns) e = ground (arith, text_eq_iff (get n header) [], any-All header ns)

-- A request is cached only if it is a GET without a body, has none of the headers that carry
-- credentials, conditions or ranges, and its cache control allows it.
pub is_cacheable_request-plain :
    (r : Request)
    → is_cacheable_request r ≡ true
    → (r.method ≡ bytes "GET")
      × (r.has_body ≡ false)
      × All (λ name. get name r.header ≡ []) personal
      × (cache_control_prevents_caching r.header ≡ false)
unfolding is_cacheable_request
is_cacheable_request-plain r e =
    elim (Bool-cases (any (λ name. not (text_eq (get name r.header) [])) personal)) [
      | inl some_personal ↦ absurd (ground arith)
      | inr plain ↦
          let all = any-All r.header personal plain in
          ground (arith, text_eq_iff r.method (bytes "GET"))
    ]

-- The text holds no zero byte.
abbrev pub HasNoZero : Text → Type 0
HasNoZero s = All (λ b. b ≢ 0) s

to_lower-HasNoZero : (s : Text) → HasNoZero s → HasNoZero (to_lower s)
unfolding to_lower
to_lower-HasNoZero [] h = tt
to_lower-HasNoZero (b ∷ s) (n, h) = (ground arith, to_lower-HasNoZero s h)

-- Two texts with a zero byte after the first such: the parts agree.
parts-equal :
    (s t u v : Text) → HasNoZero s → HasNoZero t → s ++ (0 ∷ u) ≡ t ++ (0 ∷ v) → (s ≡ t) × (u ≡ v)
parts-equal [] [] u v h k e = ground arith
parts-equal [] (b ∷ t) u v h k e = absurd (ground arith)
parts-equal (a ∷ s) [] u v h k e = absurd (ground arith)
parts-equal (a ∷ s) (b ∷ t) u v h k e =
    let head : a ≡ b = ground arith in
    let tail : s ++ (0 ∷ u) ≡ t ++ (0 ∷ v) = ground arith in
    let rest = parts-equal s t u v h.1 k.1 tail in ground arith

-- Requests whose hosts hold no zero byte share a key only if they agree in the scheme, in the host
-- up to the case of letters, and in the request's URI.
pub response_cache_key-injective :
    (q r : Request)
    → HasNoZero q.host
    → HasNoZero r.host
    → response_cache_key q ≡ response_cache_key r
    → (q.tls ≡ r.tls) × (to_lower q.host ≡ to_lower r.host) × (q.request_uri ≡ r.request_uri)
unfolding response_cache_key
response_cache_key-injective q r hq hr e =
    let scheme : Bool → Text = λ tls. if tls then bytes "https" else bytes "http" in
    let outer =
      parts-equal (scheme q.tls) (scheme r.tls) (to_lower q.host ++ (0 ∷ q.request_uri))
        (to_lower r.host ++ (0 ∷ r.request_uri)) (scheme-HasNoZero q.tls) (scheme-HasNoZero r.tls)
        e in
    let inner =
      parts-equal (to_lower q.host) (to_lower r.host) q.request_uri r.request_uri
        (to_lower-HasNoZero q.host hq) (to_lower-HasNoZero r.host hr) outer.1 in
    (scheme-injective q.tls r.tls outer.0, inner.0, inner.1)
  where
    scheme-HasNoZero : (tls : Bool) → HasNoZero (if tls then bytes "https" else bytes "http")
    scheme-HasNoZero true = ground arith
    scheme-HasNoZero false = ground arith

    scheme-injective :
        (a b : Bool)
        → (if a then bytes "https" else bytes "http") ≡ (if b then bytes "https" else bytes "http")
        → a ≡ b
    scheme-injective true true e = refl
    scheme-injective false false e = refl
    scheme-injective true false e = absurd (ground arith)
    scheme-injective false true e = absurd (ground arith)
