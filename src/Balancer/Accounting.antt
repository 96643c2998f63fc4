-- ===== src/Balancer/Accounting.antt =====
-- Active connections of the pool of internal/balancer/pool.go under any sequence of calls.
use gatex.Prelude.{
  ℕ, zero, suc, ◌+◌, ◌-◌, ◌≡◌, ◌∙◌, inl, inr, refl, Bool, List, [], ◌∷◌, none, some, arith,
  remove_at, set, ap, get_elem?-set_self, lt_of_get_elem?, get_elem?, get_elem?-set, Option-cases,
  Bool-cases, ◌==◌, if◌then◌else◌,
}
use gatex.Balancer.Selection.{acquire-some, acquire-none}
use gatex.Balancer.{Backend, Pool, acquire_backend, release_backend, set_healthy, acquire, release}

-- A pool, and the backends that its users hold, as often as they hold them.
pub record Leased : Type 0 where
  pub pool : Pool
  pub leases : List ℕ

-- A call of `Acquire`, of `Release` on the backend of the lease at a place in the list, or of
-- `SetHealthy` by the health checker.
pub data Event : Type 0 where
  on_acquire : Event
  on_release : ℕ → Event
  on_health : ℕ → Bool → Event

pub step : Event → Leased → Leased
step on_acquire s = elim (acquire s.pool).0 [
  | none ↦ record s { pool = (acquire s.pool).1 }
  | some i ↦ record { pool = (acquire s.pool).1; leases = i ∷ s.leases }
]
step (on_release k) s = elim (get_elem? s.leases k) [
  | none ↦ s
  | some i ↦ record { pool = release i s.pool; leases = remove_at k s.leases }
]
step (on_health i healthy) s = record s {
  pool = record s.pool { backends = set_healthy i healthy s.pool.backends };
}

pub run : List Event → Leased → Leased
run [] s = s
run (e ∷ es) s = run es (step e s)

unfoldable pub count : ℕ → List ℕ → ℕ
count i [] = 0
count i (x ∷ xs) = (if x == i then 1 else 0) + count i xs

count-remove_at :
    (i j k : ℕ) (xs : List ℕ)
    → get_elem? xs k ≡ some j
    → count i (remove_at k xs) + (if j == i then 1 else 0) ≡ count i xs
unfolding count
count-remove_at i j k [] e = cc
count-remove_at i j zero (x ∷ xs) e = ground arith
count-remove_at i j (suc k) (x ∷ xs) e = ground (arith, count-remove_at i j k xs e)

-- Every backend counts the leases on it.
abbrev pub IsCounted : Leased → Type 0
IsCounted s =
    (i : ℕ) (b : Backend)
    → get_elem? s.pool.backends i ≡ some b
    → b.active_connections ≡ count i s.leases

-- The backend at an index before and after each write.
pub get_elem?-acquire_backend :
    (i j : ℕ) (bs : List Backend) (c : Backend)
    → get_elem? (acquire_backend i bs) j ≡ some c
    → (b : Backend) × (get_elem? bs j ≡ some b)
      × (c.active_connections ≡ b.active_connections + (if i == j then 1 else 0))
unfolding acquire_backend
get_elem?-acquire_backend i j bs c e = elim (Option-cases (get_elem? bs i)) [
  | inl missing ↦ (c, ground arith, ground arith)
  | inr (b, found) ↦
      let at = get_elem?-set bs i j (record b { active_connections = b.active_connections + 1 }) in
      elim (Bool-cases (i == j)) [
        | inl same ↦ (b, ground arith, ground arith)
        | inr other ↦ (c, ground arith, ground arith)
      ]
]

pub get_elem?-release_backend :
    (i j : ℕ) (bs : List Backend) (c : Backend)
    → get_elem? (release_backend i bs) j ≡ some c
    → (b : Backend) × (get_elem? bs j ≡ some b)
      × (c.active_connections ≡ b.active_connections - (if i == j then 1 else 0))
unfolding release_backend
get_elem?-release_backend i j bs c e = elim (Option-cases (get_elem? bs i)) [
  | inl missing ↦ (c, ground arith, ground arith)
  | inr (b, found) ↦
      let at = get_elem?-set bs i j (record b { active_connections = b.active_connections - 1 }) in
      elim (Bool-cases (i == j)) [
        | inl same ↦ (b, ground arith, ground arith)
        | inr other ↦ (c, ground arith, ground arith)
      ]
]

pub get_elem?-set_healthy :
    (i j : ℕ) (healthy : Bool) (bs : List Backend) (c : Backend)
    → get_elem? (set_healthy i healthy bs) j ≡ some c
    → (b : Backend) × (get_elem? bs j ≡ some b) × (c.active_connections ≡ b.active_connections)
unfolding set_healthy
get_elem?-set_healthy i j healthy bs c e = elim (Option-cases (get_elem? bs i)) [
  | inl missing ↦ (c, ground arith, refl)
  | inr (b, found) ↦
      let at = get_elem?-set bs i j (record b { healthy = healthy }) in
      elim (Bool-cases (i == j)) [
        | inl same ↦ (b, ground arith, ground arith)
        | inr other ↦ (c, ground arith, refl)
      ]
]

module _ (p : Pool) (ls : List ℕ) (h : IsCounted (record { pool = p; leases = ls })) where
  pub acquired-IsCounted :
      (j : ℕ)
      → (acquire p).0 ≡ some j
      → IsCounted (record { pool = (acquire p).1; leases = j ∷ ls })
  unfolding count
  acquired-IsCounted j found i b e =
      let (up, moved, strategy) = acquire-some p j found in
      let (c, before, bumped) = get_elem?-acquire_backend j i p.backends b (ground arith) in
      ground (arith, h i c before)

  pub released-IsCounted :
      (k j : ℕ)
      → get_elem? ls k ≡ some j
      → IsCounted (record { pool = release j p; leases = remove_at k ls })
  unfolding release
  released-IsCounted k j found i b e =
      let (c, before, dropped) = get_elem?-release_backend j i p.backends b e in
      ground (arith, h i c before, count-remove_at i j k ls found)

  pub health-IsCounted :
      (j : ℕ) (healthy : Bool)
      → IsCounted
          (record { pool = record p { backends = set_healthy j healthy p.backends }; leases = ls })
  health-IsCounted j healthy i b e =
      let (c, before, same) = get_elem?-set_healthy j i healthy p.backends b e in
      same ∙ h i c before

step-IsCounted : (e : Event) (s : Leased) → IsCounted s → IsCounted (step e s)
unfolding step
step-IsCounted on_acquire s h = elim (Option-cases (acquire s.pool).0) [
  | inl missed ↦ let same = (acquire-none s.pool missed).0 in λ i b e. ground (arith, h i b)
  | inr (j, found) ↦
      let counted = acquired-IsCounted s.pool s.leases h j found in
      λ i b e. ground (arith, counted i b)
]
step-IsCounted (on_release k) s h = elim (Option-cases (get_elem? s.leases k)) [
  | inl missing ↦ λ i b e. ground (arith, h i b)
  | inr (j, found) ↦
      let counted = released-IsCounted s.pool s.leases h k j found in
      λ i b e. ground (arith, counted i b)
]
step-IsCounted (on_health j healthy) s h = health-IsCounted s.pool s.leases h j healthy

-- While every `Release` is of a backend that its caller holds, each backend's count is the number of
-- leases on it after any sequence of `Acquire`, `Release` and `SetHealthy`, if it was before.
pub run-IsCounted : (es : List Event) (s : Leased) → IsCounted s → IsCounted (run es s)
unfolding run
run-IsCounted [] s h = h
run-IsCounted (e ∷ es) s h = run-IsCounted es (step e s) (step-IsCounted e s h)

set-set :
    (i : ℕ) (bs : List Backend) (b c : Backend)
    → get_elem? bs i ≡ some c
    → set (set bs i b) i c ≡ bs
set-set i [] b c e = cc
set-set zero (x ∷ bs) b c e = ground arith
set-set (suc i) (x ∷ bs) b c e = ap (◌∷◌ x) (set-set i bs b c e)

-- Releasing a backend just acquired restores the backends.
pub release_backend-acquire_backend :
    (i : ℕ) (bs : List Backend) → release_backend i (acquire_backend i bs) ≡ bs
unfolding release_backend acquire_backend
release_backend-acquire_backend i bs = elim (Option-cases (get_elem? bs i)) [
  | inl missing ↦ ground arith
  | inr (b, found) ↦
      let bumped : Backend = record b { active_connections = b.active_connections + 1 } in
      ground (
        arith,
        get_elem?-set_self bs i bumped (lt_of_get_elem? bs i b found),
        set-set i bs bumped b found,
      )
]

pub release-backends : (i : ℕ) (p : Pool) → (release i p).backends ≡ release_backend i p.backends
unfolding release
release-backends i p = refl
