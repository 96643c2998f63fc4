-- ===== src/RateLimiter/Tests.antt =====
-- Runs of the limiter of internal/ratelimiter over whole numbers, and the theorems at concrete ones.
use gatex.Prelude.{ℕ, ◌≡◌, ◌≢◌, ◌*◌, refl, true, false, [], ◌∷◌, ok, err, arith, length}
use gatex.Prelude.Float.{whole, whole-IsFloat}
use gatex.Prelude.Int.{pos}
use gatex.Prelude.Text.{bytes}
use gatex.RateLimiter.Buckets.{answers, first_allowed, answers-first_allowed}
use gatex.RateLimiter.Clients.{MayDropIdle, find, IsLimiter}
use gatex.RateLimiter.Isolation.{allow-other}
use gatex.RateLimiter.Validity.{new_client_limiter-IsLimiter}
use gatex.RateLimiter.{
  Bucket, ClientLimiter, ClientLimiterOptions, invalid_burst, default_options, hash_client_key,
  new_bucket, allow_at, allow, refill, new_client_limiter,
}

abbrev second : ℕ
second = 1000000000

abbrev three : Bucket ℕ
three = record { tokens_per_second = 2; capacity = 3; tokens = 3; last_refill = 0 }

three_made : new_bucket {F = ℕ} 2 (pos 3) true 0 ≡ ok three
unfolding new_bucket
three_made = refl

no_burst : new_bucket {F = ℕ} 2 (pos 0) true 0 ≡ err invalid_burst
unfolding new_bucket
no_burst = refl

-- A burst of three, a denial, and two tokens more a second later.
refills :
    answers (0 ∷ 0 ∷ 0 ∷ 0 ∷ second ∷ second ∷ second ∷ []) three
    ≡ true ∷ true ∷ true ∷ false ∷ true ∷ true ∷ false ∷ []
unfolding answers allow_at refill
refills = refl

fnv : hash_client_key (bytes "a") ≡ 0xaf63dc4c8601ec8c
unfolding hash_client_key
fnv = refl

answers-first_allowed_example :
    answers (0 ∷ 0 ∷ 0 ∷ 0 ∷ []) three ≡ first_allowed 3 (0 ∷ 0 ∷ 0 ∷ 0 ∷ [])
answers-first_allowed_example =
    answers-first_allowed whole-IsFloat 3 (0 ∷ 0 ∷ 0 ∷ 0 ∷ []) three (omega arith) refl
      (omega arith)

abbrev options : ClientLimiterOptions
options = record default_options { shard_count = pos 2 }

abbrev limiter : ClientLimiter ℕ
limiter = record {
  shards =
      record { clients = []; last_cleanup = 0 } ∷ record { clients = []; last_cleanup = 0 } ∷ [];
  tokens_per_second = 2;
  burst = 3;
  client_idle_ttl = 600 * second;
  cleanup_interval = 60 * second;
}

limiter_made : new_client_limiter {F = ℕ} 2 (pos 3) options 0 ≡ ok limiter
unfolding new_client_limiter
limiter_made = refl

a_not_b : bytes "a" ≢ bytes "b"
a_not_b = ground arith

limiter-IsLimiter : IsLimiter limiter × (pos (length limiter.shards) ≡ pos 2)
limiter-IsLimiter = new_client_limiter-IsLimiter whole-IsFloat 2 (pos 3) options 0 limiter_made

allow-other_example :
    MayDropIdle 7
      (600 * second)
      (find (bytes "b") limiter)
      (find (bytes "b") (allow 7 (bytes "a") limiter).0)
allow-other_example = allow-other 7 (bytes "a") (bytes "b") limiter (limiter-IsLimiter.0) a_not_b
