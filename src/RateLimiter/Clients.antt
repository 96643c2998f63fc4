-- ===== src/RateLimiter/Clients.antt =====
-- The entries of internal/ratelimiter/client_limiter.go: what one call does to its own client's, and
-- to the others'.
use gatex.Prelude.{
  ℕ, ◌+◌, ◌<◌, ◌≡◌, ◌⊎◌, inl, inr, refl, Bool, false, List, [], ◌∷◌, Option, none, some, arith, ltb,
  if◌then◌else◌, length, get_elem?, set, get_elem?-set, All, Option-cases, Bool-cases, ◌==◌,
  length-set,
}
use gatex.Prelude.Dict.{lookup, keys, mem, Distinct, mem-keys}
use gatex.Prelude.Float.{Float, IsNonneg}
use gatex.Prelude.Text.{Text, text_eq_iff}
use gatex.RateLimiter.Buckets.{IsBucket}
use gatex.RateLimiter.{
  ClientEntry, ClientShard, ClientLimiter, shard_index, drop_idle, cleanup, allow_in, allow,
}

module _ {F : Type 0} ⦃f : Float F⦄ where
  -- An entry that has been seen within the lifetime.
  abbrev pub is_active : ℕ → ℕ → ClientEntry F → Bool
  is_active now idle_ttl e = ltb now (e.last_seen + idle_ttl)

  mem-drop_idle :
      (now ttl : ℕ) (q : Text) (m : List (Text × ClientEntry F))
      → mem q (keys m) ≡ false
      → mem q (keys (drop_idle now ttl m)) ≡ false
  unfolding drop_idle mem
  mem-drop_idle now ttl q [] h = refl
  mem-drop_idle now ttl q ((k, e) ∷ m) h = ground (arith, mem-drop_idle now ttl q m)

  pub Distinct-drop_idle :
      (now ttl : ℕ) (m : List (Text × ClientEntry F))
      → Distinct (keys m)
      → Distinct (keys (drop_idle now ttl m))
  unfolding drop_idle
  Distinct-drop_idle now ttl [] d = tt
  Distinct-drop_idle now ttl ((k, e) ∷ m) (h, d) =
      ground (arith, Distinct-drop_idle now ttl m d, mem-drop_idle now ttl k m h)

  -- The active entries stay, and no other.
  lookup-drop_idle :
      (now ttl : ℕ) (q : Text) (m : List (Text × ClientEntry F))
      → Distinct (keys m)
      → lookup q (drop_idle now ttl m) ≡ (elim (lookup q m) [
        | none ↦ none
        | some e ↦ if is_active now ttl e then some e else none
      ])
  unfolding drop_idle lookup
  lookup-drop_idle now ttl q [] d = refl
  lookup-drop_idle now ttl q ((k, e) ∷ m) (h, d) =
      ground (arith, text_eq_iff k q, mem-keys k m, lookup-drop_idle now ttl q m d)

  pub All-drop_idle :
      (P : Text × ClientEntry F → Type 0) (now ttl : ℕ) (m : List (Text × ClientEntry F))
      → All P m
      → All P (drop_idle now ttl m)
  unfolding drop_idle
  All-drop_idle P now ttl [] h = tt
  All-drop_idle P now ttl ((k, e) ∷ m) (p, h) = elim (Bool-cases (is_active now ttl e)) [
    | inl active ↦ rw active (p, All-drop_idle P now ttl m h)
    | inr idle ↦ rw idle (All-drop_idle P now ttl m h)
  ]

  -- The entry of a client in its shard.
  unfoldable pub find : Text → ClientLimiter F → Option (ClientEntry F)
  find key l = elim (get_elem? l.shards (shard_index key l.shards)) [
    | none ↦ none
    | some s ↦ lookup key s.clients
  ]

  -- An entry as a cleanup leaves it: as it was, or gone if it had been idle for the lifetime.
  abbrev pub MayDropIdle : ℕ → ℕ → Option (ClientEntry F) → Option (ClientEntry F) → Type 0
  MayDropIdle now ttl before after =
      (after ≡ before)
      ⊎ ((e : ClientEntry F) × (before ≡ some e) × (is_active now ttl e ≡ false) × (after ≡ none))

  pub lookup-cleanup :
      (now ttl interval : ℕ) (q : Text) (s : ClientShard F)
      → Distinct (keys s.clients)
      → MayDropIdle now ttl (lookup q s.clients) (lookup q (cleanup now ttl interval s).clients)
  unfolding cleanup
  lookup-cleanup now ttl interval q s d = elim (Bool-cases (ltb now (s.last_cleanup + interval))) [
    | inl early ↦ inl (rw early)
    | inr due ↦ elim (Option-cases (lookup q s.clients)) [
      | inl missing ↦ inl (ground (arith, lookup-drop_idle now ttl q s.clients d))
      | inr (e, found) ↦ elim (Bool-cases (is_active now ttl e)) [
        | inl active ↦ inl (ground (arith, lookup-drop_idle now ttl q s.clients d))
        | inr idle ↦ inr (e, found, idle, ground (arith, lookup-drop_idle now ttl q s.clients d))
      ]
    ]
  ]

  -- A limiter has shards, whose keys are distinct and whose buckets are well formed.
  pub record IsLimiter (l : ClientLimiter F) : Type 0 where
    pub some_shard : 0 < length l.shards
    pub distinct : All (λ (s : ClientShard F). Distinct (keys s.clients)) l.shards
    pub buckets :
        All
          (λ (s : ClientShard F). All (λ (e : Text × ClientEntry F). IsBucket e.1.bucket) s.clients)
          l.shards
    pub rate : IsNonneg l.tokens_per_second
    pub finite : f.is_inf l.tokens_per_second ≡ false

  shard_index-set :
      (key : Text) (xs : List (ClientShard F)) (i : ℕ) (s : ClientShard F)
      → shard_index key (set xs i s) ≡ shard_index key xs
  unfolding shard_index
  shard_index-set key xs i s = rw (length-set xs i s)

  pub find-shard :
      (key : Text) (l : ClientLimiter F) (s : ClientShard F)
      → get_elem? l.shards (shard_index key l.shards) ≡ some s
      → find key l ≡ lookup key s.clients
  unfolding find
  find-shard key l s e = ground arith

  -- What `Allow` leaves in the shard of a key.
  pub allow-shard :
      (now : ℕ) (key q : Text) (l : ClientLimiter F) (s t : ClientShard F)
      → get_elem? l.shards (shard_index key l.shards) ≡ some s
      → get_elem? l.shards (shard_index q l.shards) ≡ some t
      → find q (allow now key l).0 ≡ (
          if shard_index key l.shards == shard_index q l.shards
          then lookup q (allow_in l now key s).0.clients
          else lookup q t.clients)
  unfolding allow find
  allow-shard now key q l s t e e' = ground (
    arith,
    shard_index-set q l.shards (shard_index key l.shards) (allow_in l now key s).0,
    get_elem?-set l.shards (shard_index key l.shards) (shard_index q l.shards)
        (allow_in l now key s).0,
  )
