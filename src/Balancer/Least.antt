-- ===== src/Balancer/Least.antt =====
-- The loop of `nextLeastConnections` of internal/balancer/pool.go.
use gatex.Prelude.{
  ℕ, zero, suc, ◌+◌, ◌≤◌, ◌≡◌, ◌⊎◌, inl, inr, ◌≢◌, refl, true, false, ◌&&◌, List, [], ◌∷◌, Option,
  none, some, ltb, arith, if◌then◌else◌, get_elem?, Bool-cases,
}
use gatex.Balancer.{Backend, is_healthy, least_from}

-- What a run of `nextLeastConnections` over the backends from index `i` on ends with.
abbrev pub BoundsSelected : Option (ℕ × ℕ) → ℕ → Type 0
BoundsSelected none m = Unit
BoundsSelected (some (j, n)) m = m ≤ n

abbrev pub BoundsHealthy : List Backend → ℕ → Type 0
BoundsHealthy bs m =
    (k : ℕ) (b : Backend) → get_elem? bs k ≡ some b → b.healthy ≡ true → m ≤ b.active_connections

BoundsHealthy-cons :
    (b : Backend) (bs : List Backend) (m : ℕ)
    → (b.healthy ≡ true → m ≤ b.active_connections)
    → BoundsHealthy bs m
    → BoundsHealthy (b ∷ bs) m
BoundsHealthy-cons b bs m here later zero c e up = ground arith
BoundsHealthy-cons b bs m here later (suc k) c e up = later k c e up

pub least_from-le :
    (sel : Option (ℕ × ℕ)) (i : ℕ) (bs : List Backend) (j m : ℕ)
    → least_from sel i bs ≡ some (j, m)
    → BoundsSelected sel m × BoundsHealthy bs m
unfolding least_from
least_from-le none i [] j m e = cc
least_from-le (some (j', n)) i [] j m e = (ground arith, λ k b e'. cc)
least_from-le none i (b ∷ bs) j m e =
    let (r, later) =
      least_from-le (if b.healthy then some (i, b.active_connections) else none) (i + 1) bs j m e in
    (tt, BoundsHealthy-cons b bs m (λ up. ground arith) later)
least_from-le (some (j', n)) i (b ∷ bs) j m e =
    let (r, later) =
      least_from-le
        (if b.healthy && ltb b.active_connections n
          then some (i, b.active_connections)
          else some (j', n))
        (i + 1) bs j m e in
    (ground arith, BoundsHealthy-cons b bs m (λ up. ground arith) later)

-- The chosen index is a healthy backend's, with its count, or the one chosen before.
abbrev pub IsFound : Option (ℕ × ℕ) → ℕ → List Backend → ℕ → ℕ → Type 0
IsFound sel i bs j m =
    (sel ≡ some (j, m))
    ⊎ ((k : ℕ) × (b : Backend) × (j ≡ i + k)
        × (get_elem? bs k ≡ some b)
        × (b.healthy ≡ true)
        × (b.active_connections ≡ m))

IsFound-cons :
    (sel sel' : Option (ℕ × ℕ)) (i : ℕ) (b : Backend) (bs : List Backend) (j m : ℕ)
    → (sel' ≡ sel) ⊎ ((sel' ≡ some (i, b.active_connections)) × (b.healthy ≡ true))
    → IsFound sel' (i + 1) bs j m
    → IsFound sel i (b ∷ bs) j m
IsFound-cons sel sel' i b bs j m (inl same) (inl e) = inl (ground arith)
IsFound-cons sel sel' i b bs j m (inr (new, up)) (inl e) =
    inr (0, b, ground arith, refl, up, ground arith)
IsFound-cons sel sel' i b bs j m how (inr (k, c, at, e, up, count)) =
    inr (suc k, c, omega arith, e, up, count)

pub least_from-IsFound :
    (sel : Option (ℕ × ℕ)) (i : ℕ) (bs : List Backend) (j m : ℕ)
    → least_from sel i bs ≡ some (j, m)
    → IsFound sel i bs j m
unfolding least_from
least_from-IsFound none i [] j m e = absurd (cc)
least_from-IsFound (some s) i [] j m e = inl e
least_from-IsFound none i (b ∷ bs) j m e =
    IsFound-cons none (if b.healthy then some (i, b.active_connections) else none) i b bs j m
      (ground arith)
      (least_from-IsFound (if b.healthy then some (i, b.active_connections) else none) (i + 1) bs j
        m e)
least_from-IsFound (some (j', n)) i (b ∷ bs) j m e =
    IsFound-cons (some (j', n))
      (if b.healthy && ltb b.active_connections n
        then some (i, b.active_connections)
        else some (j', n))
      i b bs j m (ground arith)
      (least_from-IsFound
        (if b.healthy && ltb b.active_connections n
          then some (i, b.active_connections)
          else some (j', n))
        (i + 1) bs j m e)

least_from-ne-none : (s : ℕ × ℕ) (i : ℕ) (bs : List Backend) → least_from (some s) i bs ≢ none
unfolding least_from
least_from-ne-none s i [] e = cc
least_from-ne-none (j, n) i (b ∷ bs) e = ground (
  arith,
  least_from-ne-none (j, n) (i + 1) bs,
  least_from-ne-none (i, b.active_connections) (i + 1) bs,
)

pub least_from-none :
    (i : ℕ) (bs : List Backend) → least_from none i bs ≡ none → (k : ℕ) → is_healthy bs k ≡ false
unfolding least_from is_healthy
least_from-none i [] e k = refl
least_from-none i (b ∷ bs) e zero =
    ground (arith, least_from-ne-none (i, b.active_connections) (i + 1) bs)
least_from-none i (b ∷ bs) e (suc k) = elim (Bool-cases b.healthy) [
  | inl up ↦ absurd (ground (arith, least_from-ne-none (i, b.active_connections) (i + 1) bs))
  | inr down ↦ least_from-none (i + 1) bs (ground arith) k
]
