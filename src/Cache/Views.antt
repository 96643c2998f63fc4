-- ===== src/Cache/Views.antt =====
-- The list that a cache of internal/cache/cache.go represents, and its invariant.
use gatex.Prelude.{
  ◌≤◌, ◌<◌, ◌≡◌, ◌∙◌, sym, refl, true, false, List, [], ◌∷◌, none, some, arith, if◌then◌else◌,
  length,
}
use gatex.Prelude.Dict.{
  mem, erase, Distinct, lookup, put, delete, keys, mem-erase, lookup-put, lookup-delete, mem-keys,
  delete_absent,
}
use gatex.Prelude.Text.{Text, text_eq_iff}
use gatex.Cache.Lru.{Lru}
use gatex.Cache.{Entry, Cache}

-- The entries of the map in the order of the keys.
unfoldable pub view_from : List (Text × Entry) → List Text → Lru
view_from m [] = []
view_from m (k ∷ ks) = elim (lookup k m) [
  | none ↦ view_from m ks
  | some e ↦ (k, e) ∷ view_from m ks
]

unfoldable pub view : Cache → Lru
unfolding view_from
view c = view_from c.entries c.recency

-- The map and the list hold the same keys, each once.
pub record IsLinked (c : Cache) : Type 0 where
  pub sizes : length c.recency ≡ length c.entries
  pub distinct_keys : Distinct (keys c.entries)
  pub distinct_list : Distinct c.recency
  pub same_keys : (k : Text) → mem k c.recency ≡ mem k (keys c.entries)

-- Besides, the entries are within a positive capacity.
pub record IsCache (c : Cache) : Type 0 where
  pub linked : IsLinked c
  pub capacity : 0 < c.max_entries
  pub bounded : length c.entries ≤ c.max_entries

module _ (m : List (Text × Entry)) where
  pub lookup-view_from :
      (k : Text) (ks : List Text)
      → lookup k (view_from m ks) ≡ (if mem k ks then lookup k m else none)
  unfolding view_from lookup mem
  lookup-view_from k [] = refl
  lookup-view_from k (j ∷ ks) = ground (arith, text_eq_iff j k, lookup-view_from k ks)

  pub view_from-put :
      (k : Text) (e : Entry) (ks : List Text)
      → mem k ks ≡ false
      → view_from (put k e m) ks ≡ view_from m ks
  unfolding view_from mem
  view_from-put k e [] h = refl
  view_from-put k e (j ∷ ks) h =
      ground (arith, text_eq_iff j k, text_eq_iff k j, lookup-put k j e m, view_from-put k e ks)

  pub view_from-delete_absent :
      (k : Text) (ks : List Text) → mem k ks ≡ false → view_from (delete k m) ks ≡ view_from m ks
  unfolding view_from mem
  view_from-delete_absent k [] h = refl
  view_from-delete_absent k (j ∷ ks) h =
      ground
        (arith, text_eq_iff j k, text_eq_iff k j, lookup-delete k j m, view_from-delete_absent k ks)

  pub mem-keys-view_from :
      (k : Text) (ks : List Text) → mem k ks ≡ false → mem k (keys (view_from m ks)) ≡ false
  unfolding view_from mem
  mem-keys-view_from k [] h = refl
  mem-keys-view_from k (j ∷ ks) h = ground (arith, mem-keys-view_from k ks)

  -- Taking a key out of the list takes its entry out of the view.
  pub view_from-erase :
      (k : Text) (ks : List Text)
      → Distinct ks
      → view_from m (erase k ks) ≡ delete k (view_from m ks)
  unfolding view_from erase delete
  view_from-erase k [] d = refl
  view_from-erase k (j ∷ ks) (h, d) = ground (
    arith,
    text_eq_iff j k,
    view_from-erase k ks d,
    delete_absent k (view_from m ks),
    mem-keys-view_from k ks,
  )

-- Removing an entry from both structures removes it from the view.
pub view_from-delete :
    (m : List (Text × Entry)) (k : Text) (ks : List Text)
    → Distinct ks
    → view_from (delete k m) (erase k ks) ≡ delete k (view_from m ks)
view_from-delete m k ks d =
    view_from-delete_absent m k (erase k ks) (ground (arith, text_eq_iff k k, mem-erase k k ks d))
    ∙ view_from-erase m k ks d

pub length-view_from :
    (m : List (Text × Entry)) (ks : List Text)
    → ((k : Text) → mem k ks ≡ true → mem k (keys m) ≡ true)
    → length (view_from m ks) ≡ length ks
unfolding view_from mem
length-view_from m [] h = refl
length-view_from m (k ∷ ks) h =
    ground
      (arith, text_eq_iff k k, h k, mem-keys k m, length-view_from m ks (λ j i. h j (ground arith)))

pub lookup-view : (k : Text) (c : Cache) → IsLinked c → lookup k (view c) ≡ lookup k c.entries
unfolding view
lookup-view k c v =
    ground (arith, lookup-view_from c.entries k c.recency, v.same_keys k, mem-keys k c.entries)

pub length-view : (c : Cache) → IsLinked c → length (view c) ≡ length c.entries
unfolding view
length-view c v = length-view_from c.entries c.recency (λ k h. sym (v.same_keys k) ∙ h) ∙ v.sizes

Distinct-keys-view_from :
    (m : List (Text × Entry)) (ks : List Text) → Distinct ks → Distinct (keys (view_from m ks))
unfolding view_from
Distinct-keys-view_from m [] d = tt
Distinct-keys-view_from m (k ∷ ks) (h, d) =
    ground (arith, Distinct-keys-view_from m ks d, mem-keys-view_from m k ks h)

pub Distinct-keys-view : (c : Cache) → IsLinked c → Distinct (keys (view c))
unfolding view
Distinct-keys-view c v = Distinct-keys-view_from c.entries c.recency v.distinct_list
