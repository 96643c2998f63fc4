-- ===== src/Cors/Fields.antt =====
-- The fields of the response under internal/middleware/cors.go.
use gatex.Prelude.{◌≡◌, refl, ◌∙◌, Bool, true, false, not, ◌&&◌, [], ◌∷◌, if◌then◌else◌, ltb}
use gatex.Prelude.Text.{Text, bytes, decimal, to_lower, trim_space, split, text_eq}
use gatex.Http.{
  Header, Request, Program, Handler, Conn, Outcome, run, get, values, conn_write_header, returns,
  write_header, http_error, on_header,
}
use gatex.Http
use gatex.Prelude.Dict.{mem}
use gatex.Http.Headers.{values-if, values-set_other, values-set_self}
use gatex.Cors.{
  CorsOptions, make_string_set, is_preflight, use_wildcard, vary_headers, allow_headers,
  preflight_headers, allow_origin_header, allow_credentials_header, expose_headers_header,
  allow_methods_header, allow_headers_header, max_age_header, request_headers_header,
  request_method_header, vary, varies_on, add_vary, join, max_age_seconds, uppercase_strings,
}
use gatex.Cors.Vary.{values-add_vary, add_vary_lem}

single_name : Unit {0}
unfolding varies_on text_eq to_lower trim_space split
single_name = tt

one_origin : varies_on (bytes "Origin") (bytes "Origin" ∷ []) ≡ true
unfolding single_name
one_origin = refl

one_method : varies_on request_method_header (request_method_header ∷ []) ≡ true
unfolding single_name
one_method = refl

one_headers : varies_on request_headers_header (request_headers_header ∷ []) ≡ true
unfolding single_name
one_headers = refl

module _ (options : CorsOptions) where
  pub values-vary_headers :
      (q : Text) (r : Request) (h : Header)
      → text_eq vary q ≡ false
      → values q (vary_headers options r h) ≡ values q h
  unfolding vary_headers
  values-vary_headers q r h e =
      let g = if not (use_wildcard options) then add_vary (bytes "Origin") h else h in
      let asked = add_vary request_method_header g in
      values-if q (is_preflight options r) (add_vary request_headers_header asked) g (
        values-add_vary q request_headers_header asked e
        ∙ values-add_vary q request_method_header g e)
      ∙ values-if q (not (use_wildcard options)) (add_vary (bytes "Origin") h) h
          (values-add_vary q (bytes "Origin") h e)

  -- What `allow_headers` does to a field other than the two optional ones.
  values-allow_headers :
      (q origin : Text) (h : Header)
      → text_eq allow_credentials_header q ≡ false
      → text_eq expose_headers_header q ≡ false
      → values q (allow_headers options origin h)
        ≡ values q
            (Http.set allow_origin_header (if use_wildcard options then bytes "*" else origin) h)
  unfolding allow_headers
  values-allow_headers q origin h e f =
      let g = Http.set allow_origin_header (if use_wildcard options then bytes "*" else origin) h in
      let k =
        if options.allow_credentials
        then Http.set allow_credentials_header (bytes "true") g
        else g in
      values-if q (not (text_eq (join options.exposed_headers) []))
        (Http.set expose_headers_header (join options.exposed_headers) k) k
        (values-set_other q expose_headers_header (join options.exposed_headers) k f)
      ∙ values-if q options.allow_credentials (Http.set allow_credentials_header (bytes "true") g) g
          (values-set_other q allow_credentials_header (bytes "true") g e)

  chosen :
      (b : Bool) (g : Header)
      → b ≡ true
      → values allow_credentials_header
          (if b then Http.set allow_credentials_header (bytes "true") g else g)
        ≡ bytes "true" ∷ []
  chosen true g e = values-set_self allow_credentials_header (bytes "true") g
  chosen false g e = absurd (cc)

  pub credentials-allow_headers :
      (origin : Text) (h : Header)
      → options.allow_credentials ≡ true
      → values allow_credentials_header (allow_headers options origin h) ≡ bytes "true" ∷ []
  unfolding allow_headers text_eq
  credentials-allow_headers origin h on =
      let g = Http.set allow_origin_header (if use_wildcard options then bytes "*" else origin) h in
      let k =
        if options.allow_credentials
        then Http.set allow_credentials_header (bytes "true") g
        else g in
      values-if allow_credentials_header (not (text_eq (join options.exposed_headers) []))
        (Http.set expose_headers_header (join options.exposed_headers) k) k
        (values-set_other allow_credentials_header expose_headers_header
          (join options.exposed_headers) k refl)
      ∙ chosen options.allow_credentials g on

  pub origin-allow_headers :
      (origin : Text) (h : Header)
      → values allow_origin_header (allow_headers options origin h)
        ≡ (if use_wildcard options then bytes "*" else origin) ∷ []
  unfolding text_eq
  origin-allow_headers origin h =
      values-allow_headers allow_origin_header origin h refl refl
      ∙ values-set_self allow_origin_header (if use_wildcard options then bytes "*" else origin) h

  either :
      (q : Text) (b : Bool) (g k h : Header)
      → values q g ≡ values q h
      → values q k ≡ values q h
      → values q (if b then g else k) ≡ values q h
  either q true g k h e f = e
  either q false g k h e f = f

  pub origin-preflight_headers :
      (r : Request) (h : Header)
      → values allow_origin_header (preflight_headers options r h) ≡ values allow_origin_header h
  unfolding preflight_headers text_eq
  origin-preflight_headers r h =
      let q = allow_origin_header in
      let methods = join (uppercase_strings options.allowed_methods) in
      let g = Http.set allow_methods_header methods h in
      let requested = get request_headers_header r.header in
      let listed =
        if not (text_eq (join options.allowed_headers) [])
        then Http.set allow_headers_header (join options.allowed_headers) g
        else g in
      let every = mem (bytes "*") (make_string_set options.allowed_headers true) in
      let k =
        if every && not (text_eq requested [])
        then Http.set allow_headers_header requested g
        else listed in
      values-if q (ltb 0 (max_age_seconds options))
        (Http.set max_age_header (decimal (max_age_seconds options)) k) k
        (values-set_other q max_age_header (decimal (max_age_seconds options)) k refl)
      ∙ (either q (every && not (text_eq requested [])) (Http.set allow_headers_header requested g)
            listed g (values-set_other q allow_headers_header requested g refl)
            (values-if q (not (text_eq (join options.allowed_headers) []))
              (Http.set allow_headers_header (join options.allowed_headers) g) g
              (values-set_other q allow_headers_header (join options.allowed_headers) g refl))
          ∙ values-set_other q allow_methods_header methods h refl)

  -- An origin is among what the response varies on, unless the answer is the same for all origins.
  pub origin-varies :
      (r : Request) (h : Header)
      → use_wildcard options ≡ false
      → varies_on (bytes "Origin") (values vary (vary_headers options r h)) ≡ true
  unfolding vary_headers
  origin-varies r h e =
      let g = add_vary (bytes "Origin") h in
      let listed = (add_vary_lem (bytes "Origin") h one_origin).0 in
      let asked = (add_vary_lem request_method_header g one_method).1 (bytes "Origin") listed in
      let more =
        (add_vary_lem request_headers_header (add_vary request_method_header g) one_headers).1
          (bytes "Origin") asked in
      rw e (under (is_preflight options r) _ g more listed)
    where
      under :
          (b : Bool) (k g : Header)
          → varies_on (bytes "Origin") (values vary k) ≡ true
          → varies_on (bytes "Origin") (values vary g) ≡ true
          → varies_on (bytes "Origin") (values vary (if b then k else g)) ≡ true
      under true k g x y = x
      under false k g x y = y

  pub vary-allow_headers :
      (origin : Text) (h : Header) → values vary (allow_headers options origin h) ≡ values vary h
  unfolding text_eq
  vary-allow_headers origin h =
      values-allow_headers vary origin h refl refl
      ∙ values-set_other vary allow_origin_header
          (if use_wildcard options then bytes "*" else origin) h refl
