-- ===== src/Cache/Lru.antt =====
-- What the cache of internal/cache/cache.go promises, on one list of entries, the most recently used
-- first: no map, no linked list.
use gatex.Prelude.{ℕ, zero, suc, List, [], ◌∷◌, Option, none, some, leb, if◌then◌else◌, length}
use gatex.Prelude.Dict.{lookup, delete}
use gatex.Prelude.Text.{Text}
use gatex.Cache.{Response, Entry, is_fresh}

abbrev pub Lru : Type 0
Lru = List (Text × Entry)

-- A fresh entry moves to the front; a stale one goes.
unfoldable pub lru_get : ℕ → Text → Lru → Lru × Option Response
lru_get now key l = elim (lookup key l) [
  | none ↦ (l, none)
  | some e ↦
      if is_fresh now e then ((key, e) ∷ delete key l, some e.response) else (delete key l, none)
]

unfoldable pub fresh_only : ℕ → Lru → Lru
fresh_only now [] = []
fresh_only now ((k, e) ∷ l) =
    let rest = fresh_only now l in if is_fresh now e then (k, e) ∷ rest else rest

unfoldable pub take : ℕ → Lru → Lru
take zero l = []
take (suc n) [] = []
take (suc n) (x ∷ l) = x ∷ take n l

-- The new entry comes to the front; a full list first drops what is stale, and then what does not
-- fit at the end.
unfoldable pub lru_set : ℕ → ℕ → Text → Entry → Lru → Lru
unfolding fresh_only take
lru_set now capacity key e l = elim (lookup key l) [
  | some _ ↦ (key, e) ∷ delete key l
  | none ↦ take capacity ((key, e) ∷ (if leb capacity (length l) then fresh_only now l else l))
]
