-- ===== src/Cache/Lookups.antt =====
-- What can be read from the cache of internal/cache/cache.go, and when.
use gatex.Prelude.{
  ℕ, zero, suc, ◌+◌, ◌<◌, ◌≡◌, ◌⊎◌, inl, inr, Bool, false, List, [], ◌∷◌, reverse, some, ok, arith,
  ltb, length, Bool-cases, Option-cases,
}
use gatex.Prelude.Dict.{lookup, lookup-put, lookup-delete}
use gatex.Prelude.Int.{ℤ}
use gatex.Prelude.Text.{Text, text_eq, text_eq_iff}
use gatex.Cache.Lru.{Lru, lru_set}
use gatex.Cache.Refinement.{set-lru_set}
use gatex.Cache.Views.{view, IsCache, lookup-view}
use gatex.Cache.{
  Entry, Response, Cache, is_fresh, remove, get, set, insert, evict, back, make_room,
  remove_expired, remove_expired_from, new_with_clock,
}

-- A new cache is well formed and empty.
pub new_with_clock-IsCache :
    (ttl max_entries : ℤ) (has_clock : Bool) {c : Cache}
    → new_with_clock ttl max_entries has_clock ≡ ok c
    → IsCache c × (c.entries ≡ []) × (0 < c.ttl)
unfolding new_with_clock
new_with_clock-IsCache ttl max_entries has_clock e = ground arith

-- Every entry of the second cache is one of the first, under the same key.
abbrev pub Keeps : Cache → Cache → Type 0
Keeps c c' = (q : Text) (e : Entry) → lookup q c'.entries ≡ some e → lookup q c.entries ≡ some e

remove-Keeps : (k : Text) (c : Cache) → Keeps c (remove k c)
unfolding remove
remove-Keeps k c q e h = ground (arith, lookup-delete k q c.entries)

remove_expired_from-Keeps :
    (now : ℕ) (js : List Text) (c : Cache) → Keeps c (remove_expired_from now js c)
unfolding remove_expired_from
remove_expired_from-Keeps now [] c q e h = h
remove_expired_from-Keeps now (j ∷ js) c q e h = elim (Option-cases (lookup j c.entries)) [
  | inl missing ↦ remove_expired_from-Keeps now js c q e (ground arith)
  | inr (d, found) ↦ elim (Bool-cases (is_fresh now d)) [
    | inl fresh ↦ remove_expired_from-Keeps now js c q e (ground arith)
    | inr stale ↦
        remove-Keeps j c q e (remove_expired_from-Keeps now js (remove j c) q e (ground arith))
  ]
]

evict-Keeps : (c : Cache) → Keeps c (evict c)
unfolding evict
evict-Keeps c q e h = elim (Bool-cases (ltb c.max_entries (length c.entries))) [
  | inl full ↦ elim (Option-cases (back c.recency)) [
    | inl empty ↦ ground arith
    | inr (o, last) ↦ remove-Keeps o c q e (ground arith)
  ]
  | inr fits ↦ ground arith
]

make_room-Keeps : (now : ℕ) (c : Cache) → Keeps c (make_room now c)
unfolding make_room remove_expired
make_room-Keeps now c q e h =
    ground (arith, remove_expired_from-Keeps now (reverse c.recency) c q e)

pub get-Keeps : (now : ℕ) (key : Text) (c : Cache) → Keeps c (get now key c).0
unfolding get
get-Keeps now key c q e h = ground (arith, remove-Keeps key c q e)

pub set-lookup :
    (now : ℕ) (key q : Text) (response : Response) (c : Cache) (e : Entry)
    → lookup q (set now key response c).entries ≡ some e
    → ((key ≡ q) × (e ≡ record { response = response; expires_at = now + c.ttl }))
      ⊎ ((text_eq key q ≡ false) × (lookup q c.entries ≡ some e))
unfolding set insert
set-lookup now key q response c e h = elim (Option-cases (lookup key c.entries)) [
  | inr (old, found) ↦ ground (
    arith,
    text_eq_iff key q,
    lookup-put key q (record { response = response; expires_at = now + c.ttl }) c.entries,
  )
  | inl missing ↦ ground (
    arith,
    text_eq_iff key q,
    evict-Keeps
        (insert key (record { response = response; expires_at = now + c.ttl }) (make_room now c)) q
        e,
    lookup-put key q (record { response = response; expires_at = now + c.ttl })
        (make_room now c).entries,
    make_room-Keeps now c q e,
  )
]

lookup-lru_set :
    (now capacity : ℕ) (key : Text) (e : Entry) (l : Lru)
    → 0 < capacity
    → lookup key (lru_set now capacity key e l) ≡ some e
unfolding lru_set lookup
lookup-lru_set now zero key e l h = absurd (omega arith)
lookup-lru_set now (suc capacity) key e l h = ground (arith, text_eq_iff key key)

-- A response that `Set` stored is what `Get` answers under its key, until its lifetime ends.
pub get-set :
    (now later : ℕ) (key : Text) (response : Response) (c : Cache)
    → IsCache c
    → later < now + c.ttl
    → (get later key (set now key response c)).1 ≡ some response
unfolding get
get-set now later key response c v h = ground (
  arith,
  (set-lru_set now key response c v).1,
  lookup-view key (set now key response c) (set-lru_set now key response c v).0.linked,
  lookup-lru_set now c.max_entries key (record { response = response; expires_at = now + c.ttl })
      (view c) v.capacity,
)
