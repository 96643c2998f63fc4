-- ===== src/Cache.antt =====
-- internal/cache/cache.go: the bounded response cache. `entries` is the map and `recency` the linked
-- list, front first; a list element stands for the entry under its key. Every method holds the
-- mutex throughout; the clock's reading is an argument, in nanoseconds. The model has no aliasing, so
-- the copies that `cloneResponse` makes are the values themselves.
pub mod Lru
pub mod Views
pub mod Expiry
pub mod Eviction
pub mod Writes
pub mod Refinement
pub mod Lookups
pub mod History
mod Tests
use gatex.Prelude.{
  ℕ, ◌+◌, Bool, true, false, not, List, [], ◌∷◌, Option, none, some, Result, ok, err, reverse, ltb,
  leb, if◌then◌else◌, length,
}
use gatex.Prelude.Dict.{lookup, put, delete, erase}
use gatex.Prelude.Int.{ℤ, is_pos, nonneg}
use gatex.Prelude.Text.{Text}

pub data CacheError : Type 0 where
  err_invalid_ttl err_invalid_max_entries err_nil_clock : CacheError

pub record Response : Type 0 where
  pub status_code : ℕ
  pub header : List (Text × List Text)
  pub body : Text

pub record Entry : Type 0 where
  pub response : Response
  pub expires_at : ℕ

pub record Cache : Type 0 where
  pub ttl : ℕ
  pub max_entries : ℕ
  pub entries : List (Text × Entry)
  pub recency : List Text

-- `has_clock` says that the clock is not nil.
unfoldable pub new_with_clock : ℤ → ℤ → Bool → Result CacheError Cache
new_with_clock ttl max_entries has_clock =
    if not (is_pos ttl)
    then err err_invalid_ttl
    else if not (is_pos max_entries)
    then err err_invalid_max_entries
    else if not has_clock
    then err err_nil_clock
    else ok
        (record { ttl = nonneg ttl; max_entries = nonneg max_entries; entries = []; recency = [] })

-- `Cache.remove`, of the entry under the key.
pub remove : Text → Cache → Cache
remove key c = record c { entries = delete key c.entries; recency = erase key c.recency }

-- `now.Before(cached.expiresAt)`.
abbrev pub is_fresh : ℕ → Entry → Bool
is_fresh now e = ltb now e.expires_at

-- `recency.MoveToFront`.
abbrev move_to_front : Text → List Text → List Text
move_to_front key recency = key ∷ erase key recency

unfoldable pub get : ℕ → Text → Cache → Cache × Option Response
get now key c = elim (lookup key c.entries) [
  | none ↦ (c, none)
  | some cached ↦
      if not (is_fresh now cached)
      then (remove key c, none)
      else (record c { recency = move_to_front key c.recency }, some cached.response)
]

-- The loop of `removeExpired`, over the keys from the back of the list to its front.
pub remove_expired_from : ℕ → List Text → Cache → Cache
remove_expired_from now [] c = c
remove_expired_from now (key ∷ keys) c = remove_expired_from now keys (elim (lookup key c.entries) [
  | none ↦ c
  | some cached ↦ if not (is_fresh now cached) then remove key c else c
])

pub remove_expired : ℕ → Cache → Cache
remove_expired now c = remove_expired_from now (reverse c.recency) c

-- The last key, if there is one.
pub back : List Text → Option Text
back [] = none
back (k ∷ []) = some k
back (k ∷ j ∷ ks) = back (j ∷ ks)

-- The end of `Set`: one entry too many makes the least recently used one go.
pub evict : Cache → Cache
evict c =
    if ltb c.max_entries (length c.entries)
    then elim (back c.recency) [ none ↦ c | some oldest ↦ remove oldest c ]
    else c

-- `Set` on a new key.
pub insert : Text → Entry → Cache → Cache
insert key e c = record c { entries = put key e c.entries; recency = key ∷ c.recency }

-- A full cache drops its expired entries first.
pub make_room : ℕ → Cache → Cache
make_room now c = if leb c.max_entries (length c.entries) then remove_expired now c else c

unfoldable pub set : ℕ → Text → Response → Cache → Cache
set now key response c =
    let stored : Entry = record { response = response; expires_at = now + c.ttl } in
    elim (lookup key c.entries) [
      | some cached ↦ record c {
        entries = put key stored c.entries;
        recency = move_to_front key c.recency;
      }
      | none ↦ evict (insert key stored (make_room now c))
    ]
