-- ===== src/Prelude/Dict.antt =====
-- Go's maps with string keys, as association lists; and lists of distinct keys.
use gatex.Prelude.Lists.{length, get_elem?}
use gatex.Prelude.Tests.{if◌then◌else◌, Bool-cases}
use gatex.Prelude.Text.{Text, text_eq, text_eq_iff}
use Prim.Native.Nat.{ℕ, zero, suc, ◌+◌}
use mathlib.Core.Bool.{Bool, true, false}
use mathlib.Core.Logic.{◌↔◌, inl, inr}
use mathlib.Core.List.{List, [], ◌∷◌, map}
use mathlib.Core.Option.{Option, none, some}
use mathlib.Core.Path.{◌≡◌, refl}
use native.Mathlib.Omega.{arith}

unfoldable pub mem : Text → List Text → Bool
mem k [] = false
mem k (j ∷ ks) = if text_eq j k then true else mem k ks

-- A text stands at some place of a list.
abbrev pub IsMember : Text → List Text → Type 0
IsMember k ks = (i : ℕ) × (get_elem? ks i ≡ some k)

pub IsMember-mem : (k : Text) (ks : List Text) (i : ℕ) → get_elem? ks i ≡ some k → mem k ks ≡ true
unfolding mem
IsMember-mem k [] i e = absurd (cc)
IsMember-mem k (j ∷ ks) zero e = ground (arith, text_eq_iff j k)
IsMember-mem k (j ∷ ks) (suc i) e = ground (arith, IsMember-mem k ks i e)

pub mem-IsMember : (k : Text) (ks : List Text) → mem k ks ≡ true → IsMember k ks
unfolding mem
mem-IsMember k [] e = absurd (cc)
mem-IsMember k (j ∷ ks) e = elim (Bool-cases (text_eq j k)) [
  | inl same ↦ (0, ground (arith, text_eq_iff j k))
  | inr other ↦ let (i, at) = mem-IsMember k ks (ground arith) in (suc i, at)
]

pub mem_iff : (k : Text) (ks : List Text) → (mem k ks ≡ true) ↔ IsMember k ks
mem_iff k ks = (mem-IsMember k ks, λ h. IsMember-mem k ks h.0 h.1)

-- The first occurrence goes.
unfoldable pub erase : Text → List Text → List Text
erase k [] = []
erase k (j ∷ ks) = if text_eq j k then ks else j ∷ erase k ks

abbrev pub Distinct : List Text → Type 0
Distinct [] = Unit
Distinct (k ∷ ks) = (mem k ks ≡ false) × Distinct ks

pub mem-erase :
    (q k : Text) (ks : List Text)
    → Distinct ks
    → mem q (erase k ks) ≡ (if text_eq k q then false else mem q ks)
unfolding mem erase
mem-erase q k [] d = ground arith
mem-erase q k (j ∷ ks) (h, d) =
    ground (arith, text_eq_iff j k, text_eq_iff j q, text_eq_iff k q, mem-erase q k ks d)

pub Distinct-erase : (k : Text) (ks : List Text) → Distinct ks → Distinct (erase k ks)
unfolding erase
Distinct-erase k [] d = tt
Distinct-erase k (j ∷ ks) (h, d) = ground (arith, Distinct-erase k ks d, mem-erase j k ks d)

pub length-erase :
    (k : Text) (ks : List Text) → mem k ks ≡ true → length (erase k ks) + 1 ≡ length ks
unfolding mem erase
length-erase k [] h = cc
length-erase k (j ∷ ks) h = ground (arith, length-erase k ks)

pub erase_absent : (k : Text) (ks : List Text) → mem k ks ≡ false → erase k ks ≡ ks
unfolding mem erase
erase_absent k [] h = refl
erase_absent k (j ∷ ks) h = ground (arith, erase_absent k ks)

module _ {ℓ} {V : Type ℓ} where
  unfoldable pub lookup : Text → List (Text × V) → Option V
  lookup k [] = none
  lookup k ((j, v) ∷ m) = if text_eq j k then some v else lookup k m

  -- `m[k] = v`.
  unfoldable pub put : Text → V → List (Text × V) → List (Text × V)
  put k v [] = (k, v) ∷ []
  put k v ((j, w) ∷ m) = if text_eq j k then (k, v) ∷ m else (j, w) ∷ put k v m

  -- `delete(m, k)`.
  unfoldable pub delete : Text → List (Text × V) → List (Text × V)
  delete k [] = []
  delete k ((j, w) ∷ m) = let rest = delete k m in if text_eq j k then rest else (j, w) ∷ rest

  abbrev pub keys : List (Text × V) → List Text
  keys = map (λ e. e.0)

  pub lookup-put :
      (k q : Text) (v : V) (m : List (Text × V))
      → lookup q (put k v m) ≡ (if text_eq k q then some v else lookup q m)
  unfolding lookup put
  lookup-put k q v [] = refl
  lookup-put k q v ((j, w) ∷ m) =
      ground (arith, text_eq_iff k q, text_eq_iff j k, text_eq_iff j q, lookup-put k q v m)

  pub lookup-delete :
      (k q : Text) (m : List (Text × V))
      → lookup q (delete k m) ≡ (if text_eq k q then none else lookup q m)
  unfolding lookup delete
  lookup-delete k q [] = ground arith
  lookup-delete k q ((j, w) ∷ m) =
      ground (arith, text_eq_iff k q, text_eq_iff j k, text_eq_iff j q, lookup-delete k q m)

  -- A key is found exactly where it is among the keys.
  pub mem-keys :
      (k : Text) (m : List (Text × V))
      → mem k (keys m) ≡ (elim (lookup k m) [ none ↦ false | some _ ↦ true ])
  unfolding mem lookup
  mem-keys k [] = refl
  mem-keys k ((j, w) ∷ m) = ground (arith, mem-keys k m)

  pub mem-keys-put :
      (q k : Text) (v : V) (m : List (Text × V))
      → mem q (keys (put k v m)) ≡ (if text_eq k q then true else mem q (keys m))
  mem-keys-put q k v m = ground (arith, mem-keys q (put k v m), mem-keys q m, lookup-put k q v m)

  pub mem-keys-delete :
      (q k : Text) (m : List (Text × V))
      → mem q (keys (delete k m)) ≡ (if text_eq k q then false else mem q (keys m))
  mem-keys-delete q k m = ground (arith, mem-keys q (delete k m), mem-keys q m, lookup-delete k q m)

  pub Distinct-put :
      (k : Text) (v : V) (m : List (Text × V)) → Distinct (keys m) → Distinct (keys (put k v m))
  unfolding put mem
  Distinct-put k v [] d = (refl, tt)
  Distinct-put k v ((j, w) ∷ m) (h, d) =
      ground (arith, text_eq_iff j k, text_eq_iff k j, Distinct-put k v m d, mem-keys-put j k v m)

  pub Distinct-delete :
      (k : Text) (m : List (Text × V)) → Distinct (keys m) → Distinct (keys (delete k m))
  unfolding delete
  Distinct-delete k [] d = tt
  Distinct-delete k ((j, w) ∷ m) (h, d) =
      ground (arith, Distinct-delete k m d, mem-keys-delete j k m)

  pub delete_absent : (k : Text) (m : List (Text × V)) → mem k (keys m) ≡ false → delete k m ≡ m
  unfolding delete mem
  delete_absent k [] h = refl
  delete_absent k ((j, w) ∷ m) h = ground (arith, delete_absent k m)

  pub length-put :
      (k : Text) (v : V) (m : List (Text × V))
      → length (put k v m) ≡ (if mem k (keys m) then length m else length m + 1)
  unfolding put mem
  length-put k v [] = ground arith
  length-put k v ((j, w) ∷ m) = ground (arith, length-put k v m)

  pub length-delete :
      (k : Text) (m : List (Text × V))
      → Distinct (keys m)
      → mem k (keys m) ≡ true
      → length (delete k m) + 1 ≡ length m
  unfolding delete mem
  length-delete k [] d h = cc
  length-delete k ((j, w) ∷ m) (h, d) e =
      ground (arith, text_eq_iff j k, length-delete k m d, delete_absent k m)
