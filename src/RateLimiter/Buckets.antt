-- ===== src/RateLimiter/Buckets.antt =====
-- The token bucket of internal/ratelimiter/bucket.go, over any floats with the laws of IEEE numbers.
use gatex.Prelude.{
  ℕ, zero, suc, ◌-◌, ◌^◌, ◌≤◌, ◌<◌, ◌≡◌, ◌∙◌, ap, All, refl, min, Bool, true, false, List, [], ◌∷◌,
  none, ok, arith, ltb, if◌then◌else◌, Bool-cases, inl, inr,
}
use gatex.Prelude.Float.{Float, IsFloat, IsNonneg, le}
use gatex.Prelude.Int.{ℤ, nonneg}
use gatex.RateLimiter.{
  Bucket, max_int64, new_bucket, new_bucket_at, validate_bucket_config, refill, allow_at,
}

-- As many calls are allowed as there are tokens, and no later ones.
pub first_allowed : ℕ → List ℕ → List Bool
first_allowed n [] = []
first_allowed n (t ∷ ts) = ltb 0 n ∷ first_allowed (n - 1) ts

module _ {F : Type 0} ⦃f : Float F⦄ where
  -- The tokens are a number between zero and the capacity, and the rate is finite and positive.
  pub record IsBucket (b : Bucket F) : Type 0 where
    pub rate : IsNonneg b.tokens_per_second
    pub finite : f.is_inf b.tokens_per_second ≡ false
    pub room : IsNonneg b.capacity
    pub some_tokens : IsNonneg b.tokens
    pub bounded : le b.tokens b.capacity ≡ true

  -- The answers of calls of `Allow` at the given times.
  unfoldable pub answers : List ℕ → Bucket F → List Bool
  answers [] b = []
  answers (t ∷ ts) b = (allow_at t b).1 ∷ answers ts (allow_at t b).0

  allow_at_early :
      (now : ℕ) (b : Bucket F)
      → now ≤ b.last_refill
      → allow_at now b ≡ (
          if f.lt b.tokens (f.of_nat 1)
          then (b, false)
          else (record b { tokens = f.sub b.tokens (f.of_nat 1) }, true))
  unfolding allow_at refill
  allow_at_early now b h = ground arith

  module _ (laws : IsFloat F) where
    pub new_bucket_at-IsBucket :
        (rate : F) (burst now : ℕ)
        → IsNonneg rate
        → f.is_inf rate ≡ false
        → IsBucket (new_bucket_at rate burst now)
    unfolding new_bucket_at
    new_bucket_at-IsBucket rate burst now r i = record {
      rate = r;
      finite = i;
      room = laws.nonneg_nat burst;
      some_tokens = laws.nonneg_nat burst;
      bounded = laws.le_refl burst;
    }

    -- A configuration that passes the check has a rate that the buckets can use.
    pub rate_of_config :
        (rate : F) (burst : ℤ)
        → validate_bucket_config rate burst ≡ none
        → IsNonneg rate × (f.is_inf rate ≡ false)
    unfolding validate_bucket_config
    rate_of_config rate burst e = ground (arith, laws.nonneg_of_pos rate, laws.nonneg_nat 0)

    -- A bucket that the constructor makes is full, and well formed.
    pub new_bucket-IsBucket :
        (rate : F) (burst : ℤ) (has_clock : Bool) (now : ℕ) {b : Bucket F}
        → new_bucket rate burst has_clock now ≡ ok b
        → IsBucket b × (b.tokens ≡ b.capacity) × (b.last_refill ≡ now)
    unfolding new_bucket
    new_bucket-IsBucket rate burst has_clock now e = ground (
      arith,
      laws.nonneg_of_pos rate,
      laws.nonneg_nat 0,
      laws.nonneg_nat (nonneg burst),
      laws.le_refl (nonneg burst),
    )

    refill-IsBucket : (now : ℕ) (b : Bucket F) → IsBucket b → IsBucket (refill now b)
    unfolding refill
    refill-IsBucket now b v =
        let t = min (now - b.last_refill) max_int64 in
        let small : t < 2 ^ 63 = omega arith in
        let gained =
          laws.nonneg_mul (f.seconds t) b.tokens_per_second (laws.nonneg_seconds t small) v.rate
            (laws.finite_seconds t small) v.finite in
        let sum =
          laws.nonneg_add b.tokens (f.mul (f.seconds t) b.tokens_per_second) v.some_tokens gained in
        ground (
          arith,
          laws.nonneg_minimum b.capacity (f.add b.tokens (f.mul (f.seconds t) b.tokens_per_second))
              v.room sum,
          laws.minimum-le b.capacity (f.add b.tokens (f.mul (f.seconds t) b.tokens_per_second))
              v.room sum,
        )

    -- `Allow` keeps the tokens between zero and the capacity, at any times, also when the clock
    -- goes back.
    pub allow_at-IsBucket : (now : ℕ) (b : Bucket F) → IsBucket b → IsBucket (allow_at now b).0
    unfolding allow_at
    allow_at-IsBucket now b v =
        let r = refill-IsBucket now b v in
        elim (Bool-cases (f.lt (refill now b).tokens (f.of_nat 1))) [
          | inl short ↦ rw short r
          | inr enough ↦
              let left =
                laws.sub_one (refill now b).tokens (refill now b).capacity r.some_tokens enough
                  r.bounded in
              rw enough (record {
                rate = r.rate;
                finite = r.finite;
                room = r.room;
                some_tokens = left.0;
                bounded = left.1;
              })
        ]

    -- A bucket of `n` whole tokens, up to 2 ^ 53, answers calls that come no later than its last
    -- refill like a counter: the first `n` are allowed, and all others denied.
    pub answers-first_allowed :
        (n : ℕ) (ts : List ℕ) (b : Bucket F)
        → n ≤ 2 ^ 53
        → b.tokens ≡ f.of_nat n
        → All (λ t. t ≤ b.last_refill) ts
        → answers ts b ≡ first_allowed n ts
    unfolding answers first_allowed
    answers-first_allowed n [] b small e early = refl
    answers-first_allowed zero (t ∷ ts) b small e (h, early) = ground (
      arith,
      allow_at_early t b h,
      laws.lt_one 0 small,
      answers-first_allowed zero ts b small e early,
    )
    answers-first_allowed (suc n) (t ∷ ts) b small e (h, early) =
        let spent : Bucket F = record b { tokens = f.sub b.tokens (f.of_nat 1) } in
        let left : spent.tokens ≡ f.of_nat n =
          ap (λ x. f.sub x (f.of_nat 1)) e ∙ laws.exact_pred n (omega arith) in
        let rest = answers-first_allowed n ts spent (omega arith) left early in
        ground (arith, allow_at_early t b h, laws.lt_one (suc n) small)
