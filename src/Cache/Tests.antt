-- ===== src/Cache/Tests.antt =====
-- Runs of the cache of internal/cache/cache.go, and the theorems at concrete caches.
use gatex.Prelude.{ℕ, ◌+◌, ◌<◌, ◌≡◌, refl, true, List, [], ◌∷◌, none, some, ok, err, arith}
use gatex.Prelude.Dict.{lookup, put, delete, erase}
use gatex.Prelude.Int.{pos}
use gatex.Prelude.Text.{Text, bytes, text_eq}
use gatex.Cache.History.{Call, on_get, on_set, after, run, last_set, run_sound}
use gatex.Cache.Lookups.{new_with_clock-IsCache, get-set}
use gatex.Cache.Lru.{lru_get, lru_set}
use gatex.Cache.Refinement.{get-lru_get, set-lru_set}
use gatex.Cache.Views.{view, IsCache}
use gatex.Cache.{
  Response, Entry, Cache, err_invalid_ttl, new_with_clock, get, set, insert, evict, back, remove,
  make_room, remove_expired, remove_expired_from,
}

-- What the runs below compute with.
program : Unit {0}
unfolding get set lookup text_eq evict insert make_room remove_expired remove_expired_from erase put
    back remove delete run after
program = tt

abbrev response : ℕ → Response
response n = record { status_code = n; header = []; body = bytes "ok" }

abbrev entry : ℕ → ℕ → Entry
entry n expires_at = record { response = response n; expires_at = expires_at }

abbrev empty : Cache
empty = record { ttl = 10; max_entries = 2; entries = []; recency = [] }

abbrev a : Text
a = bytes "a"

abbrev b : Text
b = bytes "b"

abbrev two : Cache
two = record empty { entries = (a, entry 200 11) ∷ (b, entry 201 12) ∷ []; recency = b ∷ a ∷ [] }

created : new_with_clock (pos 10) (pos 2) true ≡ ok empty
unfolding new_with_clock
created = refl

no_ttl : new_with_clock (pos 0) (pos 2) true ≡ err err_invalid_ttl
unfolding new_with_clock
no_ttl = refl

filled : set 2 b (response 201) (set 1 a (response 200) empty) ≡ two
unfolding program
filled = refl

-- `a` is used, so the third key evicts `b`.
evicts_least_recent : (get 5 b (set 4 (bytes "c") (response 202) (get 3 a two).0)).1 ≡ none
unfolding program
evicts_least_recent = refl

-- At time 11 `a` is stale, and goes before anything is evicted.
drops_expired : (get 11 b (set 11 (bytes "c") (response 202) two)).1 ≡ some (response 201)
unfolding program
drops_expired = refl

empty-IsCache : IsCache empty × (empty.entries ≡ []) × (0 < empty.ttl)
empty-IsCache = new_with_clock-IsCache (pos 10) (pos 2) true created

set-lru_set_example :
    IsCache (set 1 a (response 200) empty)
    × (view (set 1 a (response 200) empty) ≡ lru_set 1 2 a (entry 200 (1 + 10)) (view empty))
set-lru_set_example = set-lru_set 1 a (response 200) empty (empty-IsCache.0)

stored-IsCache : IsCache (set 1 a (response 200) empty)
stored-IsCache = (set-lru_set 1 a (response 200) empty (empty-IsCache.0)).0

get-lru_get_example :
    IsCache (get 5 a (set 1 a (response 200) empty)).0
    × (view (get 5 a (set 1 a (response 200) empty)).0
        ≡ (lru_get 5 a (view (set 1 a (response 200) empty))).0)
    × ((get 5 a (set 1 a (response 200) empty)).1
        ≡ (lru_get 5 a (view (set 1 a (response 200) empty))).1)
get-lru_get_example = get-lru_get 5 a (set 1 a (response 200) empty) stored-IsCache

get-set_example : (get 10 a (set 1 a (response 200) empty)).1 ≡ some (response 200)
get-set_example = get-set 1 10 a (response 200) empty (empty-IsCache.0) (omega arith)

abbrev calls : List Call
calls = on_set 1 a (response 200) ∷ on_get 2 b ∷ on_set 3 a (response 203) ∷ []

run_sound_example : (at : ℕ) × (last_set a calls none ≡ some (at, response 203)) × (12 < at + 10)
unfolding program
run_sound_example = run_sound calls 12 a empty (response 203) refl refl
