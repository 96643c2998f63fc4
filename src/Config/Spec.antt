-- ===== src/Config/Spec.antt =====
-- What internal/config/config.go means a valid configuration to be, stated without its control flow.
use gatex.Prelude.{
  ℕ, ◌≤◌, ◌≡◌, ◌≢◌, ◌↔◌, ◌⊎◌, refl, Bool, true, false, List, [], ◌∷◌, Option, none, some, arith,
  All,
}
use gatex.Prelude.Float.{Float}
use gatex.Prelude.Int.{is_neg, is_pos}
use gatex.Prelude.Text.{Text, bytes, text_eq_iff, has_prefix}
use gatex.Config.{
  RateLimit, CacheConfig, HealthCheck, ConfigError, ◌orelse◌, reject, first_error, all_bytes,
  visible, is_valid_api_key, validate_health_check, validate_cache, validate_rate_limit,
}

pub orelse-none : (a b : Option ConfigError) → ((a orelse b) ≡ none) ↔ ((a ≡ none) × (b ≡ none))
orelse-none none b = ((λ e. (refl, e)), λ h. h.1)
orelse-none (some e) b = ((λ e. absurd (cc)), λ h. absurd (ground arith))

pub reject-none : (bad : Bool) (e : ConfigError) → (reject bad e ≡ none) ↔ (bad ≡ false)
reject-none bad e = ground arith

pub first_error-none {ℓ} :
    {A : Type ℓ} (check : A → Option ConfigError) (xs : List A)
    → (first_error check xs ≡ none) ↔ All (λ x. check x ≡ none) xs
unfolding first_error
first_error-none check [] = ((λ _. tt), λ _. refl)
first_error-none check (x ∷ xs) =
    let both = orelse-none (check x) (first_error check xs) in
    let rest = first_error-none check xs in
    ((λ e. ((both.0 e).0, rest.0 (both.0 e).1)), λ h. both.1 (h.0, rest.1 h.1))

-- A key of visible ASCII characters, at least one.
pub IsApiKey : Text → Type 0
IsApiKey key = (key ≢ []) × All (λ b. (0x21 ≤ b) × (b ≤ 0x7e)) key

pub all_bytes-All :
    (accept : ℕ → Bool) (P : ℕ → Type 0)
    → ((b : ℕ) → (accept b ≡ true) ↔ P b)
    → (s : Text) → (all_bytes accept s ≡ true) ↔ All P s
unfolding all_bytes
all_bytes-All accept P same [] = ((λ _. tt), λ _. refl)
all_bytes-All accept P same (b ∷ s) = ground (arith, same b, all_bytes-All accept P same s)

pub is_valid_api_key-IsApiKey : (key : Text) → (is_valid_api_key key ≡ true) ↔ IsApiKey key
unfolding is_valid_api_key IsApiKey visible
is_valid_api_key-IsApiKey key = ground (
  arith,
  text_eq_iff key [],
  all_bytes-All visible (λ b. (0x21 ≤ b) × (b ≤ 0x7e)) (λ b. ground arith) key,
)

abbrev pub StartsWithSlash : Text → Type 0
StartsWithSlash s = has_prefix s (bytes "/") ≡ true

pub record IsHealthCheck (h : HealthCheck) : Type 0 where
  pub interval : is_neg h.interval ≡ false
  pub timeout : is_neg h.timeout ≡ false
  pub path : (h.path ≡ []) ⊎ StartsWithSlash h.path

pub validate_health_check-IsHealthCheck :
    (h : HealthCheck) → (validate_health_check h ≡ none) ↔ IsHealthCheck h
unfolding validate_health_check
validate_health_check-IsHealthCheck h = ground (arith, text_eq_iff h.path [])

pub record IsCacheConfig (c : CacheConfig) : Type 0 where
  pub ttl : is_pos c.ttl ≡ true
  pub max_entries : is_pos c.max_entries ≡ true

pub validate_cache-IsCacheConfig : (c : CacheConfig) → (validate_cache c ≡ none) ↔ IsCacheConfig c
unfolding validate_cache
validate_cache-IsCacheConfig c = ground arith

module _ {F : Type 0} ⦃f : Float F⦄ where
  -- A finite rate that is not negative, a burst that is not negative, and neither or both zero.
  pub record IsRateLimit (l : RateLimit F) : Type 0 where
    pub number : f.is_nan l.requests_per_second ≡ false
    pub finite : f.is_inf l.requests_per_second ≡ false
    pub rate : f.lt l.requests_per_second (f.of_nat 0) ≡ false
    pub burst : is_neg l.burst ≡ false
    pub both : (f.lt (f.of_nat 0) l.requests_per_second ≡ true) ↔ (is_pos l.burst ≡ true)

  pub validate_rate_limit-IsRateLimit :
      (l : RateLimit F) → (validate_rate_limit l ≡ none) ↔ IsRateLimit l
  unfolding validate_rate_limit
  validate_rate_limit-IsRateLimit l = ground arith
