-- ===== src/Cache/Writes.antt =====
-- Writes to both structures of internal/cache/cache.go: a key moved to the front, an entry written anew,
-- a new key.
use gatex.Prelude.{◌+◌, ◌≡◌, true, false, ◌∷◌, none, some, arith, length}
use gatex.Prelude.Dict.{
  mem, erase, lookup, put, delete, keys, mem-erase, Distinct-erase, length-erase, mem-keys,
  mem-keys-put, Distinct-put, length-put, lookup-put,
}
use gatex.Prelude.Text.{Text, text_eq_iff}
use gatex.Cache.Views.{view, IsLinked, view_from-put, view_from-erase}
use gatex.Cache.{Entry, Cache, insert}

mem_of_lookup :
    {e : Entry} (k : Text) (c : Cache)
    → IsLinked c
    → lookup k c.entries ≡ some e
    → (mem k c.recency ≡ true) × (mem k (keys c.entries) ≡ true)
mem_of_lookup k c v found = ground (arith, v.same_keys k, mem-keys k c.entries)

not-mem_of_lookup :
    (k : Text) (c : Cache)
    → IsLinked c
    → lookup k c.entries ≡ none
    → (mem k c.recency ≡ false) × (mem k (keys c.entries) ≡ false)
not-mem_of_lookup k c v missing = ground (arith, v.same_keys k, mem-keys k c.entries)

-- A key that the map has, moved to the front of the list.
pub touch-IsLinked :
    {e : Entry} (key : Text) (c : Cache)
    → IsLinked c
    → lookup key c.entries ≡ some e
    → IsLinked (record c { recency = key ∷ erase key c.recency })
unfolding mem
touch-IsLinked key c v found =
    let (listed, mapped) = mem_of_lookup key c v found in
    record {
      sizes = omega (arith, length-erase key c.recency listed, v.sizes);
      distinct_keys = v.distinct_keys;
      distinct_list = (
        ground (arith, mem-erase key key c.recency v.distinct_list, text_eq_iff key key),
        Distinct-erase key c.recency v.distinct_list,
      );
      same_keys = λ q.
          ground
            (arith, v.same_keys q, mem-erase q key c.recency v.distinct_list, text_eq_iff key q);
    }

pub touch-view :
    {e : Entry} (key : Text) (c : Cache)
    → IsLinked c
    → lookup key c.entries ≡ some e
    → view (record c { recency = key ∷ erase key c.recency }) ≡ (key, e) ∷ delete key (view c)
unfolding view
touch-view {e} key c v found =
    ground (arith, found, view_from-erase c.entries key c.recency v.distinct_list)

-- The entry under a key, written anew.
pub store-IsLinked :
    (key : Text) (e : Entry) (c : Cache)
    → IsLinked c
    → mem key (keys c.entries) ≡ true
    → IsLinked (record c { entries = put key e c.entries })
store-IsLinked key e c v mapped = record {
  sizes = ground (arith, v.sizes, length-put key e c.entries);
  distinct_keys = Distinct-put key e c.entries v.distinct_keys;
  distinct_list = v.distinct_list;
  same_keys = λ q. ground (arith, v.same_keys q, mem-keys-put q key e c.entries, text_eq_iff key q);
}

-- A new key, in front.
pub insert-IsLinked :
    (key : Text) (e : Entry) (c : Cache)
    → IsLinked c
    → lookup key c.entries ≡ none
    → IsLinked (insert key e c)
      × (view (insert key e c) ≡ (key, e) ∷ view c)
      × (length (insert key e c).entries ≡ length c.entries + 1)
unfolding insert mem view
insert-IsLinked key e c v missing =
    let (unlisted, unmapped) = not-mem_of_lookup key c v missing in
    (
      record {
        sizes = ground (arith, v.sizes, length-put key e c.entries);
        distinct_keys = Distinct-put key e c.entries v.distinct_keys;
        distinct_list = (unlisted, v.distinct_list);
        same_keys = λ q. ground (arith, v.same_keys q, mem-keys-put q key e c.entries);
      },
      ground (
        arith,
        lookup-put key key e c.entries,
        text_eq_iff key key,
        view_from-put c.entries key e c.recency unlisted,
      ),
      ground (arith, length-put key e c.entries),
    )

-- What `Set` does with a key that the map has.
pub replace-IsLinked :
    {old : Entry} (key : Text) (e : Entry) (c : Cache)
    → IsLinked c
    → lookup key c.entries ≡ some old
    → IsLinked (record c { entries = put key e c.entries; recency = key ∷ erase key c.recency })
      × (view (record c { entries = put key e c.entries; recency = key ∷ erase key c.recency })
          ≡ (key, e) ∷ delete key (view c))
      × (length (put key e c.entries) ≡ length c.entries)
unfolding view
replace-IsLinked key e c v found =
    let (listed, mapped) = mem_of_lookup key c v found in
    let touched = touch-IsLinked key c v found in
    (
      store-IsLinked key e (record c { recency = key ∷ erase key c.recency }) touched mapped,
      ground (
        arith,
        lookup-put key key e c.entries,
        text_eq_iff key key,
        mem-erase key key c.recency v.distinct_list,
        view_from-put c.entries key e (erase key c.recency),
        view_from-erase c.entries key c.recency v.distinct_list,
      ),
      ground (arith, length-put key e c.entries),
    )
