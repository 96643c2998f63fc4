-- ===== src/Cache/Eviction.antt =====
-- The entry that `Set` of internal/cache/cache.go evicts is the last of the list.
use gatex.Prelude.{
  ℕ, zero, suc, ◌+◌, ◌≤◌, ◌<◌, ◌≡◌, ◌∙◌, sym, refl, ap, inl, inr, true, List, [], ◌∷◌, some, arith,
  ltb, length, Bool-cases,
}
use gatex.Prelude.Dict.{mem, Distinct, delete, keys, mem-keys}
use gatex.Prelude.Text.{Text, text_eq, text_eq_iff}
use gatex.Cache.Expiry.{view-remove, remove-IsLinked}
use gatex.Cache.Lru.{Lru, take}
use gatex.Cache.Views.{view, view_from, IsLinked, length-view, Distinct-keys-view}
use gatex.Cache.{Entry, Cache, remove, evict, back}

keys-view_from :
    (m : List (Text × Entry)) (ks : List Text)
    → ((k : Text) → mem k ks ≡ true → mem k (keys m) ≡ true)
    → keys (view_from m ks) ≡ ks
unfolding view_from mem
keys-view_from m [] h = refl
keys-view_from m (k ∷ ks) h =
    ground
      (arith, text_eq_iff k k, h k, mem-keys k m, keys-view_from m ks (λ j i. h j (ground arith)))

keys-view : (c : Cache) → IsLinked c → keys (view c) ≡ c.recency
unfolding view
keys-view c v = keys-view_from c.entries c.recency (λ k h. sym (v.same_keys k) ∙ h)

mem-back : (o : Text) (ks : List Text) → back ks ≡ some o → mem o ks ≡ true
unfolding back mem
mem-back o [] e = cc
mem-back o (k ∷ []) e = ground (arith, text_eq_iff k o)
mem-back o (k ∷ j ∷ ks) e = ground (arith, mem-back o (j ∷ ks))

back_some : (ks : List Text) → 0 < length ks → (o : Text) × (back ks ≡ some o)
unfolding back
back_some [] h = absurd (omega arith)
back_some (k ∷ []) h = (k, refl)
back_some (k ∷ j ∷ ks) h = back_some (j ∷ ks) (omega arith)

-- Without its last key, a list of distinct keys is its beginning.
delete-back :
    (n : ℕ) (o : Text) (l : Lru)
    → Distinct (keys l)
    → back (keys l) ≡ some o
    → length l ≡ suc n
    → delete o l ≡ take n l
unfolding delete back take
delete-back n o [] d e h = absurd (omega arith)
delete-back zero o ((k, v) ∷ []) d e h = ground (arith, text_eq_iff k o)
delete-back (suc n) o ((k, v) ∷ []) d e h = absurd (omega arith)
delete-back zero o ((k, v) ∷ x ∷ l) d e h = absurd (omega arith)
delete-back (suc n) o ((k, v) ∷ x ∷ l) (fresh, d) e h =
    let later : delete o (x ∷ l) ≡ take n (x ∷ l) = delete-back n o (x ∷ l) d e (omega arith) in
    let last : mem o (keys (x ∷ l)) ≡ true = mem-back o (keys (x ∷ l)) e in
    elim (Bool-cases (text_eq k o)) [
      | inl same ↦
          let e' : k ≡ o = (text_eq_iff k o).0 same in
          absurd (cc (ap (λ q. mem q (keys (x ∷ l))) e'))
      | inr other ↦ rw other (ap (◌∷◌ (k, v)) later)
    ]

pub take_of_length-le : (n : ℕ) (l : Lru) → length l ≤ n → take n l ≡ l
unfolding take
take_of_length-le zero [] h = refl
take_of_length-le zero (x ∷ l) h = absurd (omega arith)
take_of_length-le (suc n) [] h = refl
take_of_length-le (suc n) (x ∷ l) h = ap (◌∷◌ x) (take_of_length-le n l (omega arith))

-- With at most one entry too many, `evict` keeps what fits.
pub evict-take :
    (c : Cache)
    → IsLinked c
    → length c.entries ≤ c.max_entries + 1
    → IsLinked (evict c) × (view (evict c) ≡ take c.max_entries (view c))
unfolding evict
evict-take c v h = elim (Bool-cases (ltb c.max_entries (length c.entries))) [
  | inl full ↦
      let (o, last) = back_some c.recency (ground (arith, v.sizes)) in
      let removed = remove-IsLinked o c v in
      let shorter : delete o (view c) ≡ take c.max_entries (view c) =
        delete-back c.max_entries o (view c) (Distinct-keys-view c v)
          (ap back (keys-view c v) ∙ last) (ground (arith, length-view c v)) in
      rw (full, last) (removed, view-remove o c v ∙ shorter)
  | inr fits ↦
      rw fits (v, sym (take_of_length-le c.max_entries (view c) (ground (arith, length-view c v))))
]

pub evict-settings : (c : Cache) → ((evict c).max_entries ≡ c.max_entries) × ((evict c).ttl ≡ c.ttl)
unfolding evict remove
evict-settings c = ground arith
