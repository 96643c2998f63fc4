-- ===== src/Cors/Requested.antt =====
-- Which requested headers internal/middleware/cors.go accepts.
use gatex.Prelude.{◌≡◌, ◌↔◌, ◌⊎◌, refl, ap, Bool, true, false, List, [], ◌∷◌, All, map, arith}
use gatex.Prelude.Dict.{mem, IsMember, mem_iff}
use gatex.Prelude.Text.{Text, bytes, text_eq_iff, trim_space, split, comma}
use gatex.Http.{Request, get, values}
use gatex.Cors.{
  CorsOptions, request_method_header, request_headers_header, origin_allowed, preflight_allowed,
  to_upper, make_string_set, names_allowed, values_allowed, headers_allowed,
}

-- A requested name, trimmed and in upper case, is empty or one of the set.
abbrev pub IsAllowed : List Text → Text → Type 0
IsAllowed allowed name =
    let header = to_upper (trim_space name) in (header ≡ []) ⊎ IsMember header allowed

names_allowed_iff :
    (names allowed : List Text)
    → (names_allowed names allowed ≡ true) ↔ All (IsAllowed allowed) names
unfolding names_allowed
names_allowed_iff [] allowed = ((λ e. tt), λ h. refl)
names_allowed_iff (n ∷ names) allowed =
    let header = to_upper (trim_space n) in
    ground (arith, text_eq_iff header [], mem_iff header allowed, names_allowed_iff names allowed)

values_allowed_iff :
    (vs allowed : List Text)
    → (values_allowed vs allowed ≡ true) ↔ All (λ v. All (IsAllowed allowed) (split comma v)) vs
unfolding values_allowed
values_allowed_iff [] allowed = ((λ e. tt), λ h. refl)
values_allowed_iff (v ∷ vs) allowed =
    ground (arith, names_allowed_iff (split comma v) allowed, values_allowed_iff vs allowed)

make_string_set-map : (ws : List Text) → make_string_set ws true ≡ map to_upper ws
unfolding make_string_set
make_string_set-map [] = refl
make_string_set-map (w ∷ ws) = ap (◌∷◌ (to_upper w)) (make_string_set-map ws)

-- The requested headers are accepted exactly if every header is allowed, or each name in each of the
-- comma-separated values is, trimmed and up to case, empty or one of the allowed headers.
pub headers_allowed_iff :
    (vs allowed : List Text) (every : Bool)
    → (headers_allowed vs (make_string_set allowed true) every ≡ true)
      ↔ ((every ≡ true) ⊎ All (λ v. All (IsAllowed (map to_upper allowed)) (split comma v)) vs)
unfolding headers_allowed
headers_allowed_iff vs allowed every =
    rw (make_string_set-map allowed) (ground (arith, values_allowed_iff vs (map to_upper allowed)))

make_string_set_same : (ws : List Text) → make_string_set ws false ≡ ws
unfolding make_string_set
make_string_set_same [] = refl
make_string_set_same (w ∷ ws) = ap (◌∷◌ w) (make_string_set_same ws)

module _ (options : CorsOptions) (r : Request) where
  -- The origin, or `*`, is one of the allowed origins.
  abbrev pub IsOrigin : Type 0
  IsOrigin =
      IsMember (bytes "*") options.allowed_origins
      ⊎ IsMember (get (bytes "Origin") r.header) options.allowed_origins

  -- The method asked for, trimmed, is one of the allowed methods, up to case.
  abbrev pub IsMethod : Type 0
  IsMethod =
      IsMember (to_upper (trim_space (get request_method_header r.header)))
        (map to_upper options.allowed_methods)

  -- The allowed headers have `*`, or every name asked for, trimmed, is empty or one of them, up to
  -- case.
  abbrev pub AreHeaders : Type 0
  AreHeaders =
      let allowed = map to_upper options.allowed_headers in
      IsMember (bytes "*") allowed
      ⊎ All (λ v. All (IsAllowed allowed) (split comma v)) (values request_headers_header r.header)

  pub origin_allowed_iff :
      (origin_allowed options (get (bytes "Origin") r.header) ≡ true) ↔ IsOrigin
  unfolding origin_allowed
  origin_allowed_iff =
      let origin = get (bytes "Origin") r.header in
      let every = mem_iff (bytes "*") options.allowed_origins in
      let this = mem_iff origin options.allowed_origins in
      rw (make_string_set_same options.allowed_origins) (ground arith)

  headers_iff :
      let allowed = make_string_set options.allowed_headers true in
      (headers_allowed (values request_headers_header r.header) allowed (mem (bytes "*") allowed)
        ≡ true)
      ↔ AreHeaders
  headers_iff =
      let asked = values request_headers_header r.header in
      let every = mem (bytes "*") (make_string_set options.allowed_headers true) in
      let star = mem_iff (bytes "*") (map to_upper options.allowed_headers) in
      let same = make_string_set-map options.allowed_headers in
      let parts = headers_allowed_iff asked options.allowed_headers every in ground arith

  pub preflight_allowed_iff : (preflight_allowed options r ≡ true) ↔ (IsMethod × AreHeaders)
  unfolding preflight_allowed
  preflight_allowed_iff =
      let method = to_upper (trim_space (get request_method_header r.header)) in
      let asked = mem_iff method (map to_upper options.allowed_methods) in
      let same = make_string_set-map options.allowed_methods in
      let headers = headers_iff in ground arith
