-- ===== src/Cache/Expiry.antt =====
-- Removal of entries from both structures of internal/cache/cache.go, one and all expired ones.
use mathlib.Core.List.{reverse-cons}
use gatex.Prelude.{
  ℕ, ◌≤◌, ◌≡◌, ◌∙◌, sym, refl, ap, inl, inr, true, not, ◌&&◌, List, [], ◌∷◌, ◌++◌, reverse, none,
  some, arith, if◌then◌else◌, length, Bool-cases, Option-cases,
}
use gatex.Prelude.Dict.{
  mem, Distinct, lookup, delete, keys, mem-erase, Distinct-erase, length-erase, erase_absent,
  mem-keys, mem-keys-delete, Distinct-delete, length-delete, delete_absent,
}
use gatex.Prelude.Text.{Text, text_eq_iff}
use gatex.Cache.Lru.{Lru, fresh_only}
use gatex.Cache.Views.{
  view, IsLinked, view_from-delete, mem-keys-view_from, lookup-view, Distinct-keys-view,
}
use gatex.Cache.{Cache, is_fresh, remove, remove_expired_from, remove_expired}

pub view-remove : (k : Text) (c : Cache) → IsLinked c → view (remove k c) ≡ delete k (view c)
unfolding view remove
view-remove k c v = view_from-delete c.entries k c.recency v.distinct_list

remove-sizes :
    (k : Text) (c : Cache) → IsLinked c → length (remove k c).recency ≡ length (remove k c).entries
unfolding remove
remove-sizes k c v = ground (
  arith,
  v.same_keys k,
  v.sizes,
  length-erase k c.recency,
  length-delete k c.entries v.distinct_keys,
  erase_absent k c.recency,
  delete_absent k c.entries,
)

pub remove-IsLinked : (k : Text) (c : Cache) → IsLinked c → IsLinked (remove k c)
unfolding remove
remove-IsLinked k c v = record {
  sizes = unfold remove in remove-sizes k c v;
  distinct_keys = Distinct-delete k c.entries v.distinct_keys;
  distinct_list = Distinct-erase k c.recency v.distinct_list;
  same_keys = λ q. ground (
    arith,
    mem-erase q k c.recency v.distinct_list,
    mem-keys-delete q k c.entries,
    v.same_keys q,
  );
}

-- What stays when the stale entries among some keys go.
kept : ℕ → List Text → Lru → Lru
kept now js [] = []
kept now js ((k, e) ∷ l) =
    let rest = kept now js l in if mem k js && not (is_fresh now e) then rest else (k, e) ∷ rest

kept-nil : (now : ℕ) (l : Lru) → kept now [] l ≡ l
unfolding kept mem
kept-nil now [] = refl
kept-nil now ((k, e) ∷ l) = ap (◌∷◌ (k, e)) (kept-nil now l)

kept-cons :
    (now : ℕ) (j : Text) (js : List Text) (l : Lru)
    → Distinct (keys l)
    → kept now (j ∷ js) l
      ≡ kept now js
          (elim (lookup j l) [ none ↦ l | some e ↦ if not (is_fresh now e) then delete j l else l ])
unfolding kept lookup delete mem
kept-cons now j js [] d = refl
kept-cons now j js ((k, e) ∷ l) (h, d) = ground (
  arith,
  text_eq_iff j k,
  text_eq_iff k j,
  kept-cons now j js l d,
  delete_absent j l,
  mem-keys j l,
)

-- The loop of `removeExpired`.
remove_expired_from-kept :
    (now : ℕ) (js : List Text) (c : Cache)
    → IsLinked c
    → IsLinked (remove_expired_from now js c)
      × (view (remove_expired_from now js c) ≡ kept now js (view c))
unfolding remove_expired_from
remove_expired_from-kept now [] c v = (v, sym (kept-nil now (view c)))
remove_expired_from-kept now (j ∷ js) c v = elim (Option-cases (lookup j c.entries)) [
  | inl missing ↦ ground (
    arith,
    remove_expired_from-kept now js c v,
    kept-cons now j js (view c) (Distinct-keys-view c v),
    lookup-view j c v,
  )
  | inr (e, found) ↦ elim (Bool-cases (is_fresh now e)) [
    | inl fresh ↦ ground (
      arith,
      remove_expired_from-kept now js c v,
      kept-cons now j js (view c) (Distinct-keys-view c v),
      lookup-view j c v,
    )
    | inr stale ↦ ground (
      arith,
      remove_expired_from-kept now js (remove j c) (remove-IsLinked j c v),
      kept-cons now j js (view c) (Distinct-keys-view c v),
      lookup-view j c v,
      view-remove j c v,
    )
  ]
]

mem-append :
    (k : Text) (xs ys : List Text) → mem k (xs ++ ys) ≡ (if mem k xs then true else mem k ys)
unfolding mem
mem-append k [] ys = refl
mem-append k (x ∷ xs) ys = ground (arith, mem-append k xs ys)

mem-reverse : (k : Text) (xs : List Text) → mem k (reverse xs) ≡ mem k xs
unfolding mem
mem-reverse k [] = refl
mem-reverse k (x ∷ xs) =
    ap (mem k) (reverse-cons x xs)
    ∙ ground (arith, mem-append k (reverse xs) (x ∷ []), mem-reverse k xs)

-- When every key of the list is looked at, only fresh entries stay.
kept-fresh_only :
    (now : ℕ) (js : List Text) (l : Lru)
    → ((k : Text) → mem k (keys l) ≡ true → mem k js ≡ true)
    → kept now js l ≡ fresh_only now l
unfolding kept fresh_only mem
kept-fresh_only now js [] h = refl
kept-fresh_only now js ((k, e) ∷ l) h =
    ground (arith, text_eq_iff k k, h k, kept-fresh_only now js l (λ j i. h j (ground arith)))

view-keys : (c : Cache) (k : Text) → mem k (keys (view c)) ≡ true → mem k c.recency ≡ true
unfolding view
view-keys c k h = ground (arith, mem-keys-view_from c.entries k c.recency)

-- `removeExpired` keeps the structures linked, and leaves the fresh entries in their order.
pub remove_expired-fresh_only :
    (now : ℕ) (c : Cache)
    → IsLinked c
    → IsLinked (remove_expired now c) × (view (remove_expired now c) ≡ fresh_only now (view c))
unfolding remove_expired
remove_expired-fresh_only now c v =
    let (linked, kept_all) = remove_expired_from-kept now (reverse c.recency) c v in
    (
      linked,
      kept_all
          ∙ kept-fresh_only now (reverse c.recency) (view c)
              (λ k h. mem-reverse k c.recency ∙ view-keys c k h),
    )

pub remove_expired_from-settings :
    (now : ℕ) (js : List Text) (c : Cache)
    → ((remove_expired_from now js c).max_entries ≡ c.max_entries)
      × ((remove_expired_from now js c).ttl ≡ c.ttl)
unfolding remove_expired_from remove
remove_expired_from-settings now [] c = (refl, refl)
remove_expired_from-settings now (j ∷ js) c = elim (Option-cases (lookup j c.entries)) [
  | inl missing ↦ ground (arith, remove_expired_from-settings now js c)
  | inr (e, found) ↦ ground (
    arith,
    remove_expired_from-settings now js c,
    remove_expired_from-settings now js (remove j c),
  )
]

pub remove-bounded :
    (k : Text) (c : Cache)
    → IsLinked c
    → (length (remove k c).entries ≤ length c.entries)
      × ((remove k c).max_entries ≡ c.max_entries)
      × ((remove k c).ttl ≡ c.ttl)
unfolding remove
remove-bounded k c v =
    ground (arith, length-delete k c.entries v.distinct_keys, delete_absent k c.entries)
