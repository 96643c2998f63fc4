-- ===== src/RateLimiter.antt =====
-- internal/ratelimiter/bucket.go and client_limiter.go: token buckets, and one for each client in a
-- sharded map. Times and durations are nanoseconds; the clock's reading is an argument. `Allow` of
-- the client limiter holds its shard's mutex from the cleanup to the bucket's answer, so it is one
-- step.
pub mod Buckets
pub mod Sharding
pub mod Clients
pub mod Isolation
pub mod Validity
mod Tests
use Prim.Native.Nat.{bit_xor, max}
use gatex.Prelude.{
  ℕ, zero, suc, ◌+◌, ◌-◌, ◌*◌, ◌%◌, ◌^◌, min, Bool, true, false, not, ◌||◌, List, [], ◌∷◌, Option,
  none, some, Result, ok, err, ltb, if◌then◌else◌, length, get_elem?, set,
}
use gatex.Prelude.Dict.{lookup, put}
use gatex.Prelude.Float.{Float, le}
use gatex.Prelude.Int.{ℤ, is_pos, nonneg}
use gatex.Prelude.Text.{Text}

pub data LimiterError : Type 0 where
  invalid_rate invalid_burst nil_clock invalid_shard_count : LimiterError
  invalid_idle_ttl invalid_cleanup_interval : LimiterError

pub record Bucket (F : Type 0) : Type 0 where
  pub tokens_per_second : F
  pub capacity : F
  pub tokens : F
  pub last_refill : ℕ

pub record ClientEntry (F : Type 0) : Type 0 where
  pub bucket : Bucket F
  pub last_seen : ℕ

pub record ClientShard (F : Type 0) : Type 0 where
  pub clients : List (Text × ClientEntry F)
  pub last_cleanup : ℕ

pub record ClientLimiter (F : Type 0) : Type 0 where
  pub shards : List (ClientShard F)
  pub tokens_per_second : F
  pub burst : ℕ
  pub client_idle_ttl : ℕ
  pub cleanup_interval : ℕ

pub record ClientLimiterOptions : Type 0 where
  pub shard_count : ℤ
  pub client_idle_ttl : ℤ
  pub cleanup_interval : ℤ
  pub has_clock : Bool

abbrev pub max_int64 : ℕ
max_int64 = 2 ^ 63 - 1

abbrev pub default_options : ClientLimiterOptions
default_options = record {
  shard_count = ℤ.pos 64;
  client_idle_ttl = ℤ.pos (10 * 60 * 10 ^ 9);
  cleanup_interval = ℤ.pos (60 * 10 ^ 9);
  has_clock = true;
}

-- `Time.Sub`, for a later minuend: the difference stops at the largest duration.
abbrev elapsed_since : ℕ → ℕ → ℕ
elapsed_since now earlier = min (now - earlier) max_int64

-- The hash of 64-bit FNV-1a, byte by byte.
pub hash_from : ℕ → Text → ℕ
hash_from hash [] = hash
hash_from hash (byte ∷ key) = hash_from (bit_xor hash byte * 1099511628211 % 2 ^ 64) key

pub hash_client_key : Text → ℕ
unfolding hash_from
hash_client_key key = hash_from 14695981039346656037 key

-- The index that `shardFor` computes.
pub shard_index {ℓ} : {A : Type ℓ} → Text → List A → ℕ
shard_index key shards = hash_client_key key % length shards

module _ {F : Type 0} ⦃f : Float F⦄ where
  unfoldable pub validate_bucket_config : F → ℤ → Option LimiterError
  validate_bucket_config rate burst =
      if le rate (f.of_nat 0) || f.is_nan rate || f.is_inf rate
      then some invalid_rate
      else if not (is_pos burst)
      then some invalid_burst
      else none

  pub new_bucket_at : F → ℕ → ℕ → Bucket F
  new_bucket_at rate burst started_at = record {
    tokens_per_second = rate;
    capacity = f.of_nat burst;
    tokens = f.of_nat burst;
    last_refill = started_at;
  }

  -- `has_clock` says that the clock is not nil.
  pub new_bucket : F → ℤ → Bool → ℕ → Result LimiterError (Bucket F)
  unfolding validate_bucket_config new_bucket_at
  new_bucket rate burst has_clock now = elim (validate_bucket_config rate burst) [
    | some e ↦ err e
    | none ↦ if not has_clock then err nil_clock else ok (new_bucket_at rate (nonneg burst) now)
  ]

  pub refill : ℕ → Bucket F → Bucket F
  refill now b = if not (ltb b.last_refill now) then b else record b {
    tokens =
        f.minimum b.capacity (
          f.add b.tokens (f.mul (f.seconds (elapsed_since now b.last_refill)) b.tokens_per_second));
    last_refill = now;
  }

  pub allow_at : ℕ → Bucket F → Bucket F × Bool
  allow_at now b =
      let b' = refill now b in
      if f.lt b'.tokens (f.of_nat 1)
      then (b', false)
      else (record b' { tokens = f.sub b'.tokens (f.of_nat 1) }, true)

  pub bucket_refill_duration : F → ℕ → ℕ
  bucket_refill_duration rate burst =
      let nanoseconds = f.ceil (f.mul (f.div (f.of_nat burst) rate) (f.of_nat (10 ^ 9))) in
      if le (f.of_nat max_int64) nanoseconds then max_int64 else f.to_nat nanoseconds

  pub new_shards : ℕ → ℕ → List (ClientShard F)
  new_shards zero started_at = []
  new_shards (suc n) started_at =
      record { clients = []; last_cleanup = started_at } ∷ new_shards n started_at

  unfoldable pub new_client_limiter :
      F → ℤ → ClientLimiterOptions → ℕ → Result LimiterError (ClientLimiter F)
  unfolding validate_bucket_config bucket_refill_duration new_shards
  new_client_limiter rate burst options now = elim (validate_bucket_config rate burst) [
    | some e ↦ err e
    | none ↦
        if not (is_pos options.shard_count)
        then err invalid_shard_count
        else if not (is_pos options.client_idle_ttl)
        then err invalid_idle_ttl
        else if not (is_pos options.cleanup_interval)
        then err invalid_cleanup_interval
        else if not options.has_clock
        then err nil_clock
        else ok (record {
          shards = new_shards (nonneg options.shard_count) now;
          tokens_per_second = rate;
          burst = nonneg burst;
          client_idle_ttl =
              max (nonneg options.client_idle_ttl) (bucket_refill_duration rate (nonneg burst));
          cleanup_interval = nonneg options.cleanup_interval;
        })
  ]

  -- The loop of `cleanup`: entries that have been idle for the lifetime go.
  pub drop_idle : ℕ → ℕ → List (Text × ClientEntry F) → List (Text × ClientEntry F)
  drop_idle now idle_ttl [] = []
  drop_idle now idle_ttl ((key, e) ∷ m) =
      let rest = drop_idle now idle_ttl m in
      if not (ltb now (e.last_seen + idle_ttl)) then rest else (key, e) ∷ rest

  pub cleanup : ℕ → ℕ → ℕ → ClientShard F → ClientShard F
  unfolding drop_idle
  cleanup now idle_ttl interval s =
      if ltb now (s.last_cleanup + interval)
      then s
      else record { clients = drop_idle now idle_ttl s.clients; last_cleanup = now }

  -- The entry of the client, made or seen now.
  pub client_entry : ClientLimiter F → ℕ → Option (ClientEntry F) → ClientEntry F
  unfolding new_bucket_at
  client_entry l now none = record {
    bucket = new_bucket_at l.tokens_per_second l.burst now;
    last_seen = now;
  }
  client_entry l now (some e) = if ltb e.last_seen now then record e { last_seen = now } else e

  -- `Allow`, on the client's shard.
  pub allow_in : ClientLimiter F → ℕ → Text → ClientShard F → ClientShard F × Bool
  unfolding cleanup client_entry allow_at
  allow_in l now key shard =
      let s = cleanup now l.client_idle_ttl l.cleanup_interval shard in
      let e = client_entry l now (lookup key s.clients) in
      let r = allow_at now e.bucket in
      (record s { clients = put key (record e { bucket = r.0 }) s.clients }, r.1)

  -- `ClientLimiter.Allow`; a limiter has a shard at every index that it computes.
  pub allow : ℕ → Text → ClientLimiter F → ClientLimiter F × Bool
  unfolding allow_in
  allow now key l = elim (get_elem? l.shards (shard_index key l.shards)) [
    | none ↦ (l, false)
    | some shard ↦ (
      record l { shards = set l.shards (shard_index key l.shards) (allow_in l now key shard).0 },
      (allow_in l now key shard).1,
    )
  ]
