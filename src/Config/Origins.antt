-- ===== src/Config/Origins.antt =====
-- When the CORS settings of internal/config/config.go pass validation.
use gatex.Prelude.{
  ◌≤◌, ◌≡◌, ◌≢◌, ◌↔◌, ◌⊎◌, inl, inr, refl, Bool, true, false, not, ◌&&◌, ◌||◌, List, [], ◌∷◌,
  Option, none, some, arith, All, Bool-cases, Option-cases, List-cases, ◌==◌, ltb, length,
}
use gatex.Prelude.Int.{is_neg, is_pos}
use gatex.Prelude.Text.{Text, bytes, text_eq, text_eq_iff}
use gatex.Config.Spec.{all_bytes-All}
use gatex.Config.Routes.{chain-none, loop-All, refused-empty, rejected}
use gatex.Config.{
  Cors, ParsedUrl, ConfigError, ◌orelse◌, reject, first_error, token_byte, is_http_token, not_lower,
  invalid_method_text, no_origins, no_methods, wildcard_credentials, invalid_method, invalid_header,
  invalid_origin_url, check_origin, allows_every_origin, validate_cors,
}

-- A non-empty text of the bytes of an HTTP token.
pub IsToken : Text → Type 0
IsToken s = (s ≢ []) × All (λ b. token_byte b ≡ true) s

is_http_token-IsToken : (s : Text) → (is_http_token s ≡ true) ↔ IsToken s
unfolding is_http_token IsToken
is_http_token-IsToken s = ground (
  arith,
  text_eq_iff s [],
  all_bytes-All token_byte (λ b. token_byte b ≡ true) (λ b. ((λ e. e), λ e. e)) s,
)

-- A token without lower-case letters other than `*`.
pub IsMethod : Text → Type 0
IsMethod s = (s ≢ bytes "*") × IsToken s × All (λ b. (b ≤ 96) ⊎ (123 ≤ b)) s

IsMethod-none :
    (e : ConfigError) (s : Text) → (reject (invalid_method_text s) e ≡ none) ↔ IsMethod s
unfolding invalid_method_text IsMethod not_lower
IsMethod-none e s = ground (
  arith,
  text_eq_iff s (bytes "*"),
  is_http_token-IsToken s,
  all_bytes-All not_lower (λ b. (b ≤ 96) ⊎ (123 ≤ b)) (λ b. ground arith) s,
)

header-none : (e : ConfigError) (s : Text) → (reject (not (is_http_token s)) e ≡ none) ↔ IsToken s
header-none e s = let same = is_http_token-IsToken s in ground (arith, same)

-- An `http` or `https` URL of a scheme and a host alone.
pub record IsOriginUrl (u : ParsedUrl) : Type 0 where
  pub scheme : (u.scheme ≡ bytes "http") ⊎ (u.scheme ≡ bytes "https")
  pub host : u.host ≢ []
  pub user : u.has_user ≡ false
  pub path : u.path ≡ []
  pub raw_query : u.raw_query ≡ []
  pub fragment : u.fragment ≡ []

invalid_origin_url-IsOriginUrl :
    (u : ParsedUrl) → (invalid_origin_url (some u) ≡ false) ↔ IsOriginUrl u
unfolding invalid_origin_url
invalid_origin_url-IsOriginUrl u = ground (
  arith,
  text_eq_iff u.scheme (bytes "http"),
  text_eq_iff u.scheme (bytes "https"),
  text_eq_iff u.host [],
  text_eq_iff u.path [],
  text_eq_iff u.raw_query [],
  text_eq_iff u.fragment [],
)

wildcard :
    (credentials : Bool) (os : List Text)
    → ((allows_every_origin os && credentials) ≡ false)
      ↔ (credentials ≡ true → All (λ o. o ≢ bytes "*") os)
unfolding allows_every_origin
wildcard credentials [] = ground arith
wildcard credentials (o ∷ os) = ground (arith, text_eq_iff o (bytes "*"), wildcard credentials os)

empty-length {ℓ} : {A : Type ℓ} (xs : List A) → (ltb 0 (length xs) ≡ false) ↔ (xs ≡ [])
empty-length [] = ((λ _. refl), λ _. refl)
empty-length (x ∷ xs) = ((λ e. absurd (ground arith)), λ e. absurd (cc))

off-none :
    (c : Cors)
    → (reject
          (ltb 0 (length c.allowed_methods)
            || ltb 0 (length c.allowed_headers)
            || ltb 0 (length c.exposed_headers)
            || c.allow_credentials
            || is_pos c.max_age)
          no_origins
        ≡ none)
      ↔ ((c.allowed_methods ≡ [])
          × (c.allowed_headers ≡ [])
          × (c.exposed_headers ≡ [])
          × (c.allow_credentials ≡ false)
          × (is_pos c.max_age ≡ false))
off-none c = ground (
  arith,
  empty-length c.allowed_methods,
  empty-length c.allowed_headers,
  empty-length c.exposed_headers,
)

module _ (parse : Text → Option ParsedUrl) where
  pub IsOrigin : Text → Type 0
  IsOrigin o = (o ≡ bytes "*") ⊎ ((u : ParsedUrl) × (parse o ≡ some u) × IsOriginUrl u)

  check_origin-IsOrigin : (o : Text) → (check_origin parse o ≡ none) ↔ IsOrigin o
  unfolding check_origin IsOrigin
  check_origin-IsOrigin o = elim (Option-cases (parse o)) [
    | inl e ↦ (
      (λ h. inl (ground (arith, text_eq_iff o (bytes "*")))),
      λ h. elim h [
        | inl star ↦ ground (arith, text_eq_iff o (bytes "*"))
        | inr (u, e', v) ↦ absurd (cc)
      ],
    )
    | inr (u, e) ↦
        let same = invalid_origin_url-IsOriginUrl u in
        (
          (λ h. star-or-url o u e (λ other. ground (arith, same))),
          λ h. elim h [
            | inl star ↦ ground (arith, text_eq_iff o (bytes "*"))
            | inr (u', e', v) ↦ ground (arith, same)
          ],
        )
  ]
    where
      star-or-url :
          (o : Text) (u : ParsedUrl)
          → parse o ≡ some u
          → (text_eq o (bytes "*") ≡ false → IsOriginUrl u)
          → IsOrigin o
      star-or-url o u e v = elim (Bool-cases (text_eq o (bytes "*"))) [
        | inl star ↦ inl ((text_eq_iff o (bytes "*")).0 star)
        | inr other ↦ inr (u, e, v other)
      ]

  -- The settings where there are origins.
  pub record IsCorsOn (c : Cors) : Type 0 where
    pub some_method : c.allowed_methods ≢ []
    pub origins : All IsOrigin c.allowed_origins
    pub no_wildcard : c.allow_credentials ≡ true → All (λ o. o ≢ bytes "*") c.allowed_origins
    pub methods : All IsMethod c.allowed_methods
    pub allowed : All IsToken c.allowed_headers
    pub exposed : All IsToken c.exposed_headers

  -- Without origins nothing else is set; the age is never negative.
  pub record IsCors (c : Cors) : Type 0 where
    pub max_age : is_neg c.max_age ≡ false
    pub off :
        c.allowed_origins ≡ []
        → ((c.allowed_methods ≡ [])
            × (c.allowed_headers ≡ [])
            × (c.exposed_headers ≡ [])
            × (c.allow_credentials ≡ false)
            × (is_pos c.max_age ≡ false))
    pub on : c.allowed_origins ≢ [] → IsCorsOn c

  on-none :
      (c : Cors)
      → ((reject (length c.allowed_methods == 0) no_methods
            orelse first_error (check_origin parse) c.allowed_origins
            orelse reject
                (allows_every_origin c.allowed_origins && c.allow_credentials)
                wildcard_credentials
            orelse first_error
                (λ m. reject (invalid_method_text m) invalid_method)
                c.allowed_methods
            orelse first_error
                (λ h. reject (not (is_http_token h)) invalid_header)
                c.allowed_headers
            orelse first_error
                (λ h. reject (not (is_http_token h)) invalid_header)
                c.exposed_headers)
          ≡ none)
        ↔ IsCorsOn c
  on-none c =
      let all = chain-none _ _ _ _ (refused-empty c.allowed_methods _) (
        chain-none _ _ _ _ (loop-All _ IsOrigin check_origin-IsOrigin c.allowed_origins) (
          chain-none _ _ _ _ (rejected _ _ _ (wildcard c.allow_credentials c.allowed_origins)) (
            chain-none _ _ _ _
              (loop-All _ IsMethod (IsMethod-none invalid_method) c.allowed_methods)
              (chain-none _ _ _ _
                (loop-All _ IsToken (header-none invalid_header) c.allowed_headers)
                (loop-All _ IsToken (header-none invalid_header) c.exposed_headers))))) in
      (
        (λ e.
            let (some_method, (origins, (no_wildcard, (methods, (allowed, exposed))))) = all.0 e in
            record {
              some_method = some_method;
              origins = origins;
              no_wildcard = no_wildcard;
              methods = methods;
              allowed = allowed;
              exposed = exposed;
            }),
        λ v.
            all.1
              (v.some_method, (v.origins, (v.no_wildcard, (v.methods, (v.allowed, v.exposed))))),
      )

  pub validate_cors-IsCors : (c : Cors) → (validate_cors parse c ≡ none) ↔ IsCors c
  unfolding validate_cors
  validate_cors-IsCors c = elim (List-cases c.allowed_origins) [
    | inl empty ↦ let off = off-none c in ground (arith, off)
    | inr (o, os, full) ↦ let on = on-none c in ground (arith, on)
  ]
