-- ===== src/Cache/Refinement.antt =====
-- The methods of internal/cache/cache.go do what the list of Lru.antt says.
use gatex.Prelude.{
  ℕ, zero, suc, ◌+◌, ◌≤◌, ◌≡◌, ◌∙◌, refl, ap, ap₂, inl, inr, [], ◌∷◌, reverse, none, arith, leb,
  if◌then◌else◌, length, Bool-cases, Option-cases,
}
use gatex.Prelude.Dict.{lookup}
use gatex.Prelude.Text.{Text}
use gatex.Cache.Eviction.{evict-take, evict-settings}
use gatex.Cache.Expiry.{
  view-remove, remove-bounded, remove-IsLinked, remove_expired-fresh_only,
  remove_expired_from-settings,
}
use gatex.Cache.Lru.{Lru, lru_get, lru_set, fresh_only, take}
use gatex.Cache.Views.{view, IsCache, lookup-view, length-view}
use gatex.Cache.Writes.{touch-IsLinked, touch-view, replace-IsLinked, insert-IsLinked}
use gatex.Cache.{
  Entry, Response, Cache, is_fresh, get, set, insert, evict, remove_expired, make_room,
}

-- `Get` keeps a cache well formed, and moves and drops entries and answers as the list does.
pub get-lru_get :
    (now : ℕ) (key : Text) (c : Cache)
    → IsCache c
    → IsCache (get now key c).0
      × (view (get now key c).0 ≡ (lru_get now key (view c)).0)
      × ((get now key c).1 ≡ (lru_get now key (view c)).1)
unfolding get lru_get
get-lru_get now key c v = elim (Option-cases (lookup key c.entries)) [
  | inl missing ↦ ground (arith, lookup-view key c v.linked)
  | inr (e, found) ↦ elim (Bool-cases (is_fresh now e)) [
    | inl fresh ↦
        let touched = touch-IsLinked key c v.linked found in
        let front = touch-view key c v.linked found in ground (arith, lookup-view key c v.linked)
    | inr stale ↦
        let removed = remove-IsLinked key c v.linked in
        let bounds = remove-bounded key c v.linked in
        ground (arith, lookup-view key c v.linked, view-remove key c v.linked)
  ]
]

length-fresh_only-le : (now : ℕ) (l : Lru) → length (fresh_only now l) ≤ length l
unfolding fresh_only
length-fresh_only-le now [] = omega arith
length-fresh_only-le now ((k, e) ∷ l) = ground (arith, length-fresh_only-le now l)

lookup-fresh_only :
    (now : ℕ) (k : Text) (l : Lru) → lookup k l ≡ none → lookup k (fresh_only now l) ≡ none
unfolding fresh_only lookup
lookup-fresh_only now k [] h = refl
lookup-fresh_only now k ((j, e) ∷ l) h = ground (arith, lookup-fresh_only now k l)

length-take-le : (n : ℕ) (l : Lru) → length (take n l) ≤ n
unfolding take
length-take-le zero l = omega arith
length-take-le (suc n) [] = omega arith
length-take-le (suc n) (x ∷ l) = omega (arith, length-take-le n l)

-- A new key in a cache that has room, or one entry too many once it is in.
insert-evict :
    (key : Text) (e : Entry) (c : Cache)
    → IsCache c
    → lookup key c.entries ≡ none
    → IsCache (evict (insert key e c))
      × (view (evict (insert key e c)) ≡ take c.max_entries ((key, e) ∷ view c))
insert-evict key e c v missing =
    let (linked, front, size) = insert-IsLinked key e c v.linked missing in
    let same : (insert key e c).max_entries ≡ c.max_entries = unfold insert in refl in
    let (linked', shown) = evict-take (insert key e c) linked (omega (arith, v.bounded)) in
    let settings = evict-settings (insert key e c) in
    let shown' : view (evict (insert key e c)) ≡ take c.max_entries ((key, e) ∷ view c) =
      shown ∙ ap₂ take same front in
    (
      record {
        linked = linked';
        capacity = omega (arith, settings.0, v.capacity);
        bounded = omega (
          arith,
          settings.0,
          ap length shown',
          length-view (evict (insert key e c)) linked',
          length-take-le c.max_entries ((key, e) ∷ view c),
        );
      },
      shown',
    )

-- The cache into which `Set` puts a new key.
make_room-IsCache :
    (now : ℕ) (key : Text) (c : Cache)
    → IsCache c
    → lookup key c.entries ≡ none
    → IsCache (make_room now c)
      × (view (make_room now c)
          ≡ (if leb c.max_entries (length (view c)) then fresh_only now (view c) else view c))
      × (lookup key (make_room now c).entries ≡ none)
      × ((make_room now c).max_entries ≡ c.max_entries)
unfolding make_room remove_expired
make_room-IsCache now key c v missing = elim (Bool-cases (leb c.max_entries (length c.entries))) [
  | inl full ↦
      let (linked, shown) = remove_expired-fresh_only now c v.linked in
      let settings = remove_expired_from-settings now (reverse c.recency) c in
      let absent = lookup-fresh_only now key (view c) (lookup-view key c v.linked ∙ missing) in
      let found = lookup-view key (remove_expired now c) linked in
      let sizes = length-view (remove_expired now c) linked in
      rw full (
        record {
          linked = linked;
          capacity = ground arith;
          bounded = ground (arith, length-fresh_only-le now (view c), length-view c v.linked);
        },
        ground (arith, length-view c v.linked),
        ground arith,
        ground arith,
      )
  | inr room ↦ ground (arith, length-view c v.linked)
]

-- `Set` keeps a cache well formed, and stores, orders, expires and evicts entries as the list does.
pub set-lru_set :
    (now : ℕ) (key : Text) (response : Response) (c : Cache)
    → IsCache c
    → IsCache (set now key response c)
      × (view (set now key response c)
          ≡ lru_set now c.max_entries key
              (record { response = response; expires_at = now + c.ttl })
              (view c))
unfolding set lru_set
set-lru_set now key response c v = elim (Option-cases (lookup key c.entries)) [
  | inr (old, found) ↦
      let stored : Entry = record { response = response; expires_at = now + c.ttl } in
      let (linked, front, size) = replace-IsLinked key stored c v.linked found in
      rw (found, set)
        (
          record { linked = linked; capacity = v.capacity; bounded = omega (arith, v.bounded) },
          ground (arith, lookup-view key c v.linked),
        )
  | inl missing ↦
      let stored : Entry = record { response = response; expires_at = now + c.ttl } in
      let (room, shown, absent, same) = make_room-IsCache now key c v missing in
      let (done, shown') = insert-evict key stored (make_room now c) room absent in
      rw (missing, set) (done, ground (arith, lookup-view key c v.linked))
]
