-- ===== src/RateLimiter/Sharding.antt =====
-- The shards of internal/ratelimiter/client_limiter.go: every key has one.
use Prim.Native.Nat.{bit_xor}
use native.Mathlib.Nat.{mod-lt}
use gatex.Prelude.{
  ℕ, zero, suc, ◌%◌, ◌^◌, ◌<◌, ◌≡◌, refl, ap, List, [], ◌∷◌, some, arith, length, get_elem?,
  get_elem?_of_lt, ◌*◌,
}
use gatex.Prelude.Float.{Float}
use gatex.Prelude.Text.{Text}
use gatex.RateLimiter.{hash_from, hash_client_key, shard_index, new_shards}

hash_from-lt : (hash : ℕ) (key : Text) → hash < 2 ^ 64 → hash_from hash key < 2 ^ 64
unfolding hash_from
hash_from-lt hash [] h = h
hash_from-lt hash (byte ∷ key) h =
    hash_from-lt (bit_xor hash byte * 1099511628211 % 2 ^ 64) key (omega arith)

-- The hash of a client key fits 64 bits.
pub hash_client_key-lt : (key : Text) → hash_client_key key < 2 ^ 64
unfolding hash_client_key
hash_client_key-lt key = hash_from-lt 14695981039346656037 key (omega arith)

pub get_elem?-shard_index {ℓ} :
    {A : Type ℓ} (key : Text) (shards : List A)
    → 0 < length shards
    → (s : A) × (get_elem? shards (shard_index key shards) ≡ some s)
unfolding shard_index
get_elem?-shard_index key shards h =
    get_elem?_of_lt shards (hash_client_key key % length shards) (mod-lt (hash_client_key key) h)

pub length-new_shards :
    (F : Type 0) ⦃f : Float F⦄ (n started_at : ℕ) → length (new_shards {F = F} n started_at) ≡ n
unfolding new_shards
length-new_shards F zero started_at = refl
length-new_shards F (suc n) started_at = ap suc (length-new_shards F n started_at)
