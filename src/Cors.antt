-- ===== src/Cors.antt =====
-- internal/middleware/cors.go: cross-origin response headers and preflight requests. A set of strings
-- is the list of its members. Upper and lower case are those of ASCII.

pub mod Vary
pub mod Requested
pub mod Fields
pub mod Steps
pub mod Decisions
mod Tests
use gatex.Prelude.{
  ℕ, ◌+◌, ◌-◌, ◌/◌, ◌^◌, Bool, true, false, not, ◌&&◌, List, [], ◌∷◌, ◌++◌, Option, none, some, ltb,
  leb, if◌then◌else◌, map,
}
use gatex.Prelude.Int.{ℤ, pos, negsuc}
use gatex.Prelude.Dict.{mem}
use gatex.Prelude.Text.{Text, bytes, text_eq, trim_space, split, to_lower, comma, any, decimal}
use gatex.Http.{
  Header, Request, Program, returns, write_header, on_header, http_error, Middleware, values, get,
  add,
}
use gatex.Http

abbrev pub allow_credentials_header : Text
allow_credentials_header = bytes "Access-Control-Allow-Credentials"

abbrev pub allow_headers_header : Text
allow_headers_header = bytes "Access-Control-Allow-Headers"

abbrev pub allow_methods_header : Text
allow_methods_header = bytes "Access-Control-Allow-Methods"

abbrev pub allow_origin_header : Text
allow_origin_header = bytes "Access-Control-Allow-Origin"

abbrev pub expose_headers_header : Text
expose_headers_header = bytes "Access-Control-Expose-Headers"

abbrev pub max_age_header : Text
max_age_header = bytes "Access-Control-Max-Age"

abbrev pub request_headers_header : Text
request_headers_header = bytes "Access-Control-Request-Headers"

abbrev pub request_method_header : Text
request_method_header = bytes "Access-Control-Request-Method"

-- `CORSOptions`; the age is in nanoseconds.
pub record CorsOptions : Type 0 where
  pub allowed_origins : List Text
  pub allowed_methods : List Text
  pub allowed_headers : List Text
  pub exposed_headers : List Text
  pub allow_credentials : Bool
  pub max_age : ℤ

-- `strings.ToUpper` of ASCII text; other letters are not changed.
unfoldable pub to_upper : Text → Text
to_upper [] = []
to_upper (b ∷ s) = (if leb 97 b && leb b 122 then b - 32 else b) ∷ to_upper s

-- `strings.Join` with `, `.
unfoldable pub join : List Text → Text
join [] = []
join (s ∷ []) = s
join (s ∷ t ∷ rest) = s ++ (comma ∷ 32 ∷ join (t ∷ rest))

unfoldable pub uppercase_strings : List Text → List Text
unfolding to_upper
uppercase_strings = map to_upper

abbrev pub is_empty {ℓ} : {A : Type ℓ} → List A → Bool
is_empty [] = true
is_empty (x ∷ xs) = false

-- `makeStringSet`; `contains` is `mem`.
unfoldable pub make_string_set : List Text → Bool → List Text
unfolding to_upper
make_string_set [] upper = []
make_string_set (v ∷ vs) upper = (if upper then to_upper v else v) ∷ make_string_set vs upper

-- The inner loop of `headersAllowed`, over the names in one value.
unfoldable pub names_allowed : List Text → List Text → Bool
unfolding to_upper
names_allowed [] allowed = true
names_allowed (name ∷ names) allowed =
    let rest = names_allowed names allowed in
    let header = to_upper (trim_space name) in
    if not (text_eq header []) && not (mem header allowed) then false else rest

-- The outer loop.
unfoldable pub values_allowed : List Text → List Text → Bool
unfolding names_allowed
values_allowed [] allowed = true
values_allowed (v ∷ vs) allowed =
    if names_allowed (split comma v) allowed then values_allowed vs allowed else false

unfoldable pub headers_allowed : List Text → List Text → Bool → Bool
unfolding values_allowed
headers_allowed vs allowed every = if every then true else values_allowed vs allowed

-- The value is one of those of `Vary`, up to case.
unfoldable pub varies_on : Text → List Text → Bool
varies_on value = any (λ existing.
    any (λ name. text_eq (to_lower (trim_space name)) (to_lower value)) (split comma existing))

abbrev pub vary : Text
vary = bytes "Vary"

unfoldable pub add_vary : Text → Header → Header
unfolding varies_on
add_vary value header =
    if varies_on value (values vary header) then header else add vary value header

module _ (options : CorsOptions) where
  abbrev pub allow_every_origin : Bool
  allow_every_origin = mem (bytes "*") (make_string_set options.allowed_origins false)

  abbrev pub use_wildcard : Bool
  use_wildcard = allow_every_origin && not options.allow_credentials

  abbrev pub is_preflight : Request → Bool
  is_preflight r =
      text_eq r.method (bytes "OPTIONS") && not (text_eq (get request_method_header r.header) [])

  -- The origin of a request is accepted.
  unfoldable pub origin_allowed : Text → Bool
  unfolding make_string_set
  origin_allowed origin =
      not
        (not allow_every_origin && not (mem origin (make_string_set options.allowed_origins false)))

  -- The method and the headers that a preflight request asks for are accepted.
  unfoldable pub preflight_allowed : Request → Bool
  unfolding make_string_set headers_allowed to_upper
  preflight_allowed r =
      let allowed_headers = make_string_set options.allowed_headers true in
      let requested = to_upper (trim_space (get request_method_header r.header)) in
      mem requested (make_string_set options.allowed_methods true)
      && headers_allowed (values request_headers_header r.header) allowed_headers
          (mem (bytes "*") allowed_headers)

  -- The `Vary` that every request with an origin gets.
  unfoldable pub vary_headers : Request → Header → Header
  unfolding add_vary
  vary_headers r h =
      let on_origin = if not use_wildcard then add_vary (bytes "Origin") h else h in
      if is_preflight r
      then add_vary request_headers_header (add_vary request_method_header on_origin)
      else on_origin

  -- The headers that an accepted origin gets.
  unfoldable pub allow_headers : Text → Header → Header
  unfolding join
  allow_headers origin h =
      let with_origin =
        Http.set allow_origin_header (if use_wildcard then bytes "*" else origin) h in
      let with_credentials =
        if options.allow_credentials
        then Http.set allow_credentials_header (bytes "true") with_origin
        else with_origin in
      if not (text_eq (join options.exposed_headers) [])
      then Http.set expose_headers_header (join options.exposed_headers) with_credentials
      else with_credentials

  -- Whole seconds, where they are positive.
  abbrev pub max_age_seconds : ℕ
  max_age_seconds = elim options.max_age [ pos n ↦ n / 10 ^ 9 | negsuc n ↦ 0 ]

  -- The headers that an accepted preflight request gets besides.
  unfoldable pub preflight_headers : Request → Header → Header
  unfolding join uppercase_strings make_string_set
  preflight_headers r h =
      let with_methods =
        Http.set allow_methods_header (join (uppercase_strings options.allowed_methods)) h in
      let requested = get request_headers_header r.header in
      let every = mem (bytes "*") (make_string_set options.allowed_headers true) in
      let with_headers =
        if every && not (text_eq requested [])
        then Http.set allow_headers_header requested with_methods
        else if not (text_eq (join options.allowed_headers) [])
        then Http.set allow_headers_header (join options.allowed_headers) with_methods
        else with_methods in
      if ltb 0 max_age_seconds
      then Http.set max_age_header (decimal max_age_seconds) with_headers
      else with_headers

  unfoldable pub cors : {W : Type 0} → Middleware W
  unfolding origin_allowed preflight_allowed vary_headers allow_headers preflight_headers
      make_string_set
  cors next r =
      let origin = get (bytes "Origin") r.header in
      let preflight = is_preflight r in
      let denied = http_error (bytes "CORS request denied") 403 in
      if is_empty (make_string_set options.allowed_origins false)
      then next r
      else if text_eq origin []
      then next r
      else on_header (vary_headers r) (
          if not (origin_allowed origin)
          then if preflight then denied else next r
          else if preflight && not (preflight_allowed r)
          then denied
          else on_header (allow_headers origin) (
              if not preflight
              then next r
              else on_header (preflight_headers r) (write_header 204 returns)))
