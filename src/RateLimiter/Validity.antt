-- ===== src/RateLimiter/Validity.antt =====
-- The invariant of the limiter of internal/ratelimiter/client_limiter.go.
use gatex.Prelude.{
  ℕ, zero, suc, ◌+◌, ◌≡◌, inl, inr, subst, false, List, [], ◌∷◌, some, ok, arith, ltb, length, All,
  All-get_elem?, All-set, Option-cases, Bool-cases, length-set,
}
use gatex.Prelude.Dict.{lookup, put, keys, Distinct, Distinct-put}
use gatex.Prelude.Float.{Float, IsFloat, IsNonneg}
use gatex.Prelude.Int.{ℤ, pos, nonneg}
use gatex.Prelude.Text.{Text, text_eq}
use gatex.RateLimiter.Buckets.{IsBucket, new_bucket_at-IsBucket, rate_of_config, allow_at-IsBucket}
use gatex.RateLimiter.Clients.{All-drop_idle, Distinct-drop_idle, IsLimiter}
use gatex.RateLimiter.Isolation.{shard-Distinct}
use gatex.RateLimiter.Sharding.{get_elem?-shard_index, length-new_shards}
use gatex.RateLimiter.{
  ClientEntry, ClientShard, ClientLimiter, ClientLimiterOptions, shard_index, cleanup, client_entry,
  allow_in, allow_at, allow, validate_bucket_config, new_shards, new_client_limiter,
}

module _ {F : Type 0} ⦃f : Float F⦄ (laws : IsFloat F) where
  abbrev AllBuckets : List (Text × ClientEntry F) → Type 0
  AllBuckets m = All (λ (e : Text × ClientEntry F). IsBucket e.1.bucket) m

  lookup-AllBuckets :
      (k : Text) (m : List (Text × ClientEntry F)) (e : ClientEntry F)
      → AllBuckets m
      → lookup k m ≡ some e
      → IsBucket e.bucket
  unfolding lookup
  lookup-AllBuckets k [] e h found = absurd (cc)
  lookup-AllBuckets k ((j, d) ∷ m) e (b, h) found = elim (Bool-cases (text_eq j k)) [
    | inl here ↦
        let same : d ≡ e = ground arith in subst (λ (x : ClientEntry F). IsBucket x.bucket) same b
    | inr later ↦ lookup-AllBuckets k m e h (ground arith)
  ]

  put-AllBuckets :
      (k : Text) (e : ClientEntry F) (m : List (Text × ClientEntry F))
      → AllBuckets m
      → IsBucket e.bucket
      → AllBuckets (put k e m)
  unfolding put
  put-AllBuckets k e [] h b = (b, tt)
  put-AllBuckets k e ((j, d) ∷ m) (c, h) b = elim (Bool-cases (text_eq j k)) [
    | inl here ↦ rw here (b, h)
    | inr later ↦ rw later (c, put-AllBuckets k e m h b)
  ]

  cleanup-keeps :
      (now ttl interval : ℕ) (s : ClientShard F)
      → Distinct (keys s.clients)
      → AllBuckets s.clients
      → Distinct (keys (cleanup now ttl interval s).clients)
        × AllBuckets (cleanup now ttl interval s).clients
  unfolding cleanup
  cleanup-keeps now ttl interval s d b = elim (Bool-cases (ltb now (s.last_cleanup + interval))) [
    | inl early ↦ rw early (d, b)
    | inr due ↦ rw due (
      Distinct-drop_idle now ttl s.clients d,
      All-drop_idle (λ (e : Text × ClientEntry F). IsBucket e.1.bucket) now ttl s.clients b,
    )
  ]

  client_entry-IsBucket :
      (l : ClientLimiter F) (now : ℕ) (key : Text) (m : List (Text × ClientEntry F))
      → IsNonneg l.tokens_per_second
      → f.is_inf l.tokens_per_second ≡ false
      → AllBuckets m
      → IsBucket (client_entry l now (lookup key m)).bucket
  unfolding client_entry
  client_entry-IsBucket l now key m r i b = elim (Option-cases (lookup key m)) [
    | inl new ↦
        rw (new, client_entry) (new_bucket_at-IsBucket laws l.tokens_per_second l.burst now r i)
    | inr (e, old) ↦ let known = lookup-AllBuckets key m e b old in ground arith
  ]

  -- `Allow` keeps the keys of each shard distinct and every client's tokens between zero and the
  -- bucket's capacity, whoever calls it and when.
  pub allow-IsLimiter :
      (now : ℕ) (key : Text) (l : ClientLimiter F) → IsLimiter l → IsLimiter (allow now key l).0
  unfolding allow
  allow-IsLimiter now key l v =
      let (s, at) = get_elem?-shard_index key l.shards v.some_shard in
      let i = shard_index key l.shards in
      let (d, b) =
        cleanup-keeps now l.client_idle_ttl l.cleanup_interval s (shard-Distinct l i s v at)
          (All-get_elem? (λ (s : ClientShard F). AllBuckets s.clients) l.shards i s v.buckets at) in
      let s' = cleanup now l.client_idle_ttl l.cleanup_interval s in
      let e = client_entry l now (lookup key s'.clients) in
      let e' : ClientEntry F = record e { bucket = (allow_at now e.bucket).0 } in
      let good =
        allow_at-IsBucket laws now e.bucket
          (client_entry-IsBucket l now key s'.clients v.rate v.finite b) in
      rw (at, allow)
        (record {
          some_shard = rw (length-set l.shards i (allow_in l now key s).0) (v.some_shard);
          distinct =
              All-set (λ (s : ClientShard F). Distinct (keys s.clients)) l.shards i
                (allow_in l now key s).0 v.distinct
                (unfold allow_in in Distinct-put key e' s'.clients d);
          buckets =
              All-set (λ (s : ClientShard F). AllBuckets s.clients) l.shards i
                (allow_in l now key s).0 v.buckets
                (unfold allow_in in put-AllBuckets key e' s'.clients b good);
          rate = v.rate;
          finite = v.finite;
        })

  new_shards-All :
      (n now : ℕ)
      → All (λ (s : ClientShard F). Distinct (keys s.clients)) (new_shards n now)
        × All (λ (s : ClientShard F). AllBuckets s.clients) (new_shards n now)
  unfolding new_shards
  new_shards-All zero now = (tt, tt)
  new_shards-All (suc n) now = let (d, b) = new_shards-All n now in ((tt, d), (tt, b))

  -- The constructor makes a well formed limiter with as many shards as its options say.
  pub new_client_limiter-IsLimiter :
      (rate : F) (burst : ℤ) (options : ClientLimiterOptions) (now : ℕ) {l : ClientLimiter F}
      → new_client_limiter rate burst options now ≡ ok l
      → IsLimiter l × (pos (length l.shards) ≡ options.shard_count)
  unfolding new_client_limiter
  new_client_limiter-IsLimiter rate burst options now {l} e =
      elim (Option-cases (validate_bucket_config rate burst)) [
        | inr (bad, refused) ↦ absurd (ground arith)
        | inl accepted ↦
            let (r, i) = rate_of_config laws rate burst accepted in
            let n = nonneg options.shard_count in
            let (d, b) = new_shards-All n now in
            let size = length-new_shards F n now in
            let shards : l.shards ≡ new_shards n now = ground arith in
            let same : l.tokens_per_second ≡ rate = ground arith in
            (
              record {
                some_shard = ground arith;
                distinct = rw shards d;
                buckets = rw shards b;
                rate = rw same r;
                finite = rw same i;
              },
              ground arith,
            )
      ]
