-- ===== src/RateLimiter/Isolation.antt =====
-- One call of `ClientLimiter.Allow` of internal/ratelimiter/client_limiter.go, for its own client and
-- for any other.
use gatex.Prelude.{
  ℕ, ◌≡◌, ◌≢◌, ◌∙◌, inl, inr, ap, Option, some, arith, if◌then◌else◌, get_elem?, All-get_elem?,
  Bool-cases, ◌==◌,
}
use gatex.Prelude.Dict.{lookup, keys, Distinct, lookup-put}
use gatex.Prelude.Float.{Float}
use gatex.Prelude.Text.{Text, text_eq, text_eq_iff}
use gatex.RateLimiter.Clients.{
  MayDropIdle, find, find-shard, allow-shard, lookup-cleanup, IsLimiter,
}
use gatex.RateLimiter.Sharding.{get_elem?-shard_index}
use gatex.RateLimiter.{
  ClientEntry, ClientShard, ClientLimiter, shard_index, cleanup, client_entry, allow_in, allow_at,
  allow,
}

module _ {F : Type 0} ⦃f : Float F⦄ where
  allow_in-lookup :
      (l : ClientLimiter F) (now : ℕ) (key q : Text) (s : ClientShard F)
      → lookup q (allow_in l now key s).0.clients ≡ (
          if text_eq key q
          then some
              (record (client_entry l now
                (lookup key (cleanup now l.client_idle_ttl l.cleanup_interval s).clients)) {
                  bucket =
                      (allow_at now
                        (client_entry l now (
                          lookup key
                            (cleanup now l.client_idle_ttl l.cleanup_interval
                              s).clients)).bucket).0;
                })
          else lookup q (cleanup now l.client_idle_ttl l.cleanup_interval s).clients)
  unfolding allow_in
  allow_in-lookup l now key q s = lookup-put key q _ _

  pub shard-Distinct :
      (l : ClientLimiter F) (i : ℕ) (s : ClientShard F)
      → IsLimiter l
      → get_elem? l.shards i ≡ some s
      → Distinct (keys s.clients)
  shard-Distinct l i s v e =
      All-get_elem? (λ (s : ClientShard F). Distinct (keys s.clients)) l.shards i s v.distinct e

  -- `Allow` for one client leaves every other client's entry, with its bucket, as it was, or drops
  -- it if it had been idle for the lifetime.
  pub allow-other :
      (now : ℕ) (key q : Text) (l : ClientLimiter F)
      → IsLimiter l
      → key ≢ q
      → MayDropIdle now l.client_idle_ttl (find q l) (find q (allow now key l).0)
  allow-other now key q l v other =
      let (s, at) = get_elem?-shard_index key l.shards v.some_shard in
      let (t, at') = get_elem?-shard_index q l.shards v.some_shard in
      let after = allow-shard now key q l s t at at' in
      elim (Bool-cases (shard_index key l.shards == shard_index q l.shards)) [
        | inr apart ↦ inl (ground (arith, after, find-shard q l t at'))
        | inl together ↦
            let same : t ≡ s = ground (arith, at, at') in
            let before : find q l ≡ lookup q s.clients =
              find-shard q l t at' ∙ ap (λ (u : ClientShard F). lookup q u.clients) same in
            let cleaned : find q (allow now key l).0
                ≡ lookup q (cleanup now l.client_idle_ttl l.cleanup_interval s).clients =
              ground (arith, after, allow_in-lookup l now key q s, text_eq_iff key q) in
            rw (before, cleaned)
              (lookup-cleanup now l.client_idle_ttl l.cleanup_interval q s
                (shard-Distinct l (shard_index key l.shards) s v at))
      ]

  -- `Allow` answers as the client's own bucket does, and stores that bucket: the client's entry, if
  -- there is one that no cleanup has dropped for being idle, or a full bucket made now.
  pub allow-own :
      (now : ℕ) (key : Text) (l : ClientLimiter F)
      → IsLimiter l
      → (before : Option (ClientEntry F)) × MayDropIdle now l.client_idle_ttl (find key l) before
        × (find key (allow now key l).0
            ≡ some (record (client_entry l now before) {
              bucket = (allow_at now (client_entry l now before).bucket).0;
            }))
        × ((allow now key l).1 ≡ (allow_at now (client_entry l now before).bucket).1)
  unfolding allow
  allow-own now key l v =
      let (s, at) = get_elem?-shard_index key l.shards v.some_shard in
      let left = lookup key (cleanup now l.client_idle_ttl l.cleanup_interval s).clients in
      (
        left,
        rw (find-shard key l s at) (
            lookup-cleanup now l.client_idle_ttl l.cleanup_interval key s
              (shard-Distinct l (shard_index key l.shards) s v at)),
        ground (
          arith,
          allow-shard now key key l s s at at,
          allow_in-lookup l now key key s,
          text_eq_iff key key,
        ),
        unfold allow_in in ground (arith, at),
      )
