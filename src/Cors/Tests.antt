-- ===== src/Cors/Tests.antt =====
-- Cross-origin requests.
use gatex.Prelude.{◌≡◌, refl, inl, inr, ℕ, true, false, ◌&&◌, [], ◌∷◌, none, some}
use gatex.Prelude.Int.{pos}
use gatex.Prelude.Text.{bytes, text_eq, trim_space, split, to_lower}
use gatex.Prelude.Dict.{mem}
use gatex.Http.{
  Request, Header, run, conn_write_header, conn_append, taken, take_bytes, get, values, set,
  put_values, del, add, http_error, error_header,
}
use gatex.Process.Samples.{fresh, roomy, plain, missing}
use gatex.Cors.{
  CorsOptions, cors, add_vary, varies_on, vary, origin_allowed, preflight_allowed, is_preflight,
  use_wildcard, vary_headers, allow_headers, preflight_headers, make_string_set, headers_allowed,
  to_upper, join, uppercase_strings, values_allowed, names_allowed, allow_origin_header,
  allow_credentials_header, request_method_header, request_headers_header, allow_methods_header,
}
use gatex.Cors.Requested.{IsOrigin, IsMethod, AreHeaders}
use gatex.Cors.Steps.{is_cross_origin, answer, passed_headers}
use gatex.Cors.Decisions.{cors-passed, cors-preflight}

program : Unit {0}
unfolding text_eq trim_space split to_lower mem run conn_write_header conn_append taken take_bytes
    get values set put_values del add http_error error_header cors add_vary varies_on origin_allowed
    preflight_allowed vary_headers allow_headers preflight_headers make_string_set headers_allowed
    to_upper join uppercase_strings values_allowed names_allowed
program = tt

abbrev start : ℕ
start = 0

abbrev options : CorsOptions
options = record {
  allowed_origins = bytes "https://a.example" ∷ [];
  allowed_methods = bytes "get" ∷ bytes "POST" ∷ [];
  allowed_headers = bytes "X-Token" ∷ [];
  exposed_headers = [];
  allow_credentials = true;
  max_age = pos 5000000000;
}

abbrev from_a : Request
from_a = record plain { header = (bytes "Origin", bytes "https://a.example" ∷ []) ∷ [] }

abbrev preflight : Request
preflight = record from_a {
  method = bytes "OPTIONS";
  header =
      (bytes "Origin", bytes "https://a.example" ∷ [])
      ∷ (request_method_header, bytes "GET" ∷ [])
      ∷ (request_headers_header, bytes "x-token, " ∷ [])
      ∷ [];
}

answered : (run roomy (cors options missing preflight) fresh start).conn.status ≡ some 204
unfolding program
answered = refl

methods :
    get allow_methods_header
      (run roomy (cors options missing preflight) fresh start).conn.sent_header
    ≡ bytes "GET, POST"
unfolding program
methods = refl

passed_on : (run roomy (cors options missing from_a) fresh start).conn.status ≡ some 404
unfolding program
passed_on = refl

no_preflight : is_cross_origin options from_a && is_preflight options from_a ≡ false
unfolding program
no_preflight = refl

a_preflight : is_cross_origin options preflight && is_preflight options preflight ≡ true
unfolding program
a_preflight = refl

cors-passed_example :
    let h = passed_headers options from_a [] in
    (run roomy (cors options missing from_a) fresh start
      ≡ run roomy (missing from_a) (record fresh { header = h }) start)
    × (is_cross_origin options from_a ≡ true
        → IsOrigin options from_a
        → values allow_origin_header h ≡ answer options from_a ∷ [])
    × (¬ ((is_cross_origin options from_a ≡ true) × IsOrigin options from_a)
        → values allow_origin_header h ≡ [])
    × (is_cross_origin options from_a ≡ true
        → IsOrigin options from_a
        → options.allow_credentials ≡ true
        → (values allow_credentials_header h ≡ bytes "true" ∷ [])
          × (values allow_origin_header h ≡ get (bytes "Origin") from_a.header ∷ []))
    × (is_cross_origin options from_a ≡ true
        → use_wildcard options ≡ false
        → varies_on (bytes "Origin") (values vary h) ≡ true)
unfolding values
cors-passed_example = cors-passed options roomy missing from_a fresh start no_preflight

cors-preflight_example :
    let o = run roomy (cors options missing preflight) fresh start in
    (IsOrigin options preflight
      → IsMethod options preflight
      → AreHeaders options preflight
      → (o.conn.status ≡ some 204)
        × (values allow_origin_header o.conn.sent_header ≡ answer options preflight ∷ []))
    × (¬ (IsOrigin options preflight × IsMethod options preflight × AreHeaders options preflight)
        → (o.conn.status ≡ some 403)
          × (values allow_origin_header o.conn.sent_header ≡ values allow_origin_header []))
    × (o.world ≡ start)
    × (o.panic ≡ none)
cors-preflight_example = cors-preflight options roomy missing preflight fresh start a_preflight refl

granted : IsOrigin options preflight × IsMethod options preflight × AreHeaders options preflight
unfolding program
granted = (inr (0, refl), (0, refl), inr ((inr (0, refl), (inl refl, tt)), tt))

abbrev encoded : Header
encoded = (vary, bytes "Accept-Encoding, origin" ∷ []) ∷ []

listed_once : add_vary (bytes "Origin") encoded ≡ encoded
unfolding program
listed_once = refl

one_name : varies_on (bytes "Origin") (bytes "Origin" ∷ []) ≡ true
unfolding program
one_name = refl
