-- ===== src/Cors/Decisions.antt =====
-- What internal/middleware/cors.go answers.
use gatex.Prelude.{
  ◌≡◌, ◌∙◌, ap, arith, ℕ, Bool, true, false, ◌&&◌, List, [], ◌∷◌, none, some, if◌then◌else◌,
}
use gatex.Prelude.Text.{Text, bytes, text_eq}
use gatex.Http.{Request, Handler, Conn, run, get, values}
use gatex.Cors.{
  CorsOptions, is_empty, make_string_set, is_preflight, origin_allowed, preflight_allowed,
  use_wildcard, cors, allow_origin_header, allow_credentials_header, vary, varies_on,
}
use gatex.Cors.Requested.{IsOrigin, IsMethod, AreHeaders, origin_allowed_iff, preflight_allowed_iff}
use gatex.Cors.Steps.{
  is_cross_origin, answer, passed_headers, decide, passed_at-origin, passed_at-credentials,
  passed_at-varies, run-answered, run-decide,
}

both : (a b : Bool) → a ≡ true → b ≡ true → a && b ≡ true
both a b e f = ground arith

not_both : (a b : Bool) → (a ≡ true → b ≡ true → ⊥) → a && b ≡ false
not_both a b h = ground arith

module _ (options : CorsOptions) where
  module _ (limit : Conn → ℕ) {W : Type 0} where
    -- A request other than a cross-origin preflight request reaches the handler below, which starts with
    -- these headers: an accepted origin, that is one of the allowed origins, or any where `*` is one of
    -- them, and no other is answered in `Access-Control-Allow-Origin`, by itself or by `*`; where
    -- credentials are allowed, the answer is the origin itself, and never `*` in its place; and where the
    -- answer depends on the origin, `Vary` lists `Origin`.
    pub cors-passed :
        (next : Handler W) (r : Request) (c : Conn) (v : W)
        → is_cross_origin options r && is_preflight options r ≡ false
        → let h = passed_headers options r c.header in
          (run limit (cors options next r) c v ≡ run limit (next r) (record c { header = h }) v)
          × (is_cross_origin options r ≡ true
              → IsOrigin options r
              → values allow_origin_header h ≡ answer options r ∷ [])
          × (¬ ((is_cross_origin options r ≡ true) × IsOrigin options r)
              → values allow_origin_header h ≡ values allow_origin_header c.header)
          × (is_cross_origin options r ≡ true
              → IsOrigin options r
              → options.allow_credentials ≡ true
              → (values allow_credentials_header h ≡ bytes "true" ∷ [])
                × (values allow_origin_header h ≡ get (bytes "Origin") r.header ∷ []))
          × (is_cross_origin options r ≡ true
              → use_wildcard options ≡ false
              → varies_on (bytes "Origin") (values vary h) ≡ true)
    unfolding passed_headers cors decide
    cors-passed next r c v e =
        let empty = is_empty (make_string_set options.allowed_origins false) in
        let no_origin = text_eq (get (bytes "Origin") r.header) [] in
        let accepted = origin_allowed options (get (bytes "Origin") r.header) in
        let cross = is_cross_origin options r in
        let origins = origin_allowed_iff options r in
        let answered = passed_at-origin options empty no_origin accepted r c.header in
        let pick : Bool → List Text =
          λ b. if b then answer options r ∷ [] else values allow_origin_header c.header in
        (
          run-decide options limit empty no_origin accepted (is_preflight options r)
              (preflight_allowed options r) (next r) r c v e,
          (λ x o. answered ∙ ap pick (both cross accepted x (origins.1 o))),
          (λ bad. answered ∙ ap pick (not_both cross accepted (λ x a. bad (x, origins.0 a)))),
          (λ x o.
              passed_at-credentials options empty no_origin accepted r c.header
                (both cross accepted x (origins.1 o))),
          passed_at-varies options empty no_origin accepted r c.header,
        )

    -- A cross-origin preflight request is answered by the gateway, whatever the handler below is, which
    -- does not run: by 204 if `*` or its origin is an allowed origin, the method that it asks for is
    -- allowed, and `*` is an allowed header or every header that it asks for is allowed, method and
    -- headers up to case; and else by 403, without an answer in `Access-Control-Allow-Origin`.
    pub cors-preflight :
        (next : Handler W) (r : Request) (c : Conn) (v : W)
        → is_cross_origin options r && is_preflight options r ≡ true
        → c.status ≡ none
        → let o = run limit (cors options next r) c v in
          (IsOrigin options r
            → IsMethod options r
            → AreHeaders options r
            → (o.conn.status ≡ some 204)
              × (values allow_origin_header o.conn.sent_header ≡ answer options r ∷ []))
          × (¬ (IsOrigin options r × IsMethod options r × AreHeaders options r)
              → (o.conn.status ≡ some 403)
                × (values allow_origin_header o.conn.sent_header
                    ≡ values allow_origin_header c.header))
          × (o.world ≡ v)
          × (o.panic ≡ none)
    unfolding cors decide
    cors-preflight next r c v e idle =
        let accepted = origin_allowed options (get (bytes "Origin") r.header) in
        let asked = preflight_allowed options r in
        let (status, origin, world, panic) =
          run-answered options limit (is_empty (make_string_set options.allowed_origins false))
            (text_eq (get (bytes "Origin") r.header) []) accepted (is_preflight options r) asked
            (next r) r c v e idle in
        let origins = origin_allowed_iff options r in
        let others = preflight_allowed_iff options r in
        (
          (λ o m h.
              let yes = both accepted asked (origins.1 o) (others.1 (m, h)) in
              (
                status ∙ ap (λ b. some (if b then 204 else 403)) yes,
                origin
                    ∙ ap
                        (λ b.
                          if b then answer options r ∷ [] else values allow_origin_header c.header)
                        yes,
              )),
          (λ bad.
              let no =
                not_both accepted asked
                  (λ a k. bad (origins.0 a, (others.0 k).0, (others.0 k).1)) in
              (
                status ∙ ap (λ b. some (if b then 204 else 403)) no,
                origin
                    ∙ ap
                        (λ b.
                          if b then answer options r ∷ [] else values allow_origin_header c.header)
                        no,
              )),
          world,
          panic,
        )
