-- ===== src/Balancer/Scan.antt =====
-- The loop of `nextRoundRobin` of internal/balancer/pool.go.
use native.Mathlib.Nat.{mod-eq_of_lt, add-mod_right}
use gatex.Prelude.{
  ℕ, zero, suc, ◌+◌, ◌-◌, ◌%◌, ◌^◌, ◌≤◌, ◌<◌, ◌≡◌, ◌⊎◌, inl, inr, true, false, List, [], ◌∷◌, none,
  some, ltb, arith, ◌==◌, length, Bool-cases, ==_iff, subst, ◌∙◌,
}
use gatex.Balancer.{Backend, Pool, round_robin, least_connections, is_healthy, scan_from}

-- The index at an offset from the pool's cursor.
abbrev pub at_offset : ℕ → ℕ → List Backend → ℕ
at_offset start offset backends = (start + offset) % 2 ^ 64 % length backends

le-cases : (m n : ℕ) → m ≤ n → (m ≡ n) ⊎ (m + 1 ≤ n)
le-cases m n h = elim (Bool-cases (m == n)) [
  | inl same ↦ inl ((==_iff m n).0 same)
  | inr other ↦ inr (ground arith)
]

-- What holds at the first offset and at the later ones.
from_first : (P : ℕ → Type 0) (offset j : ℕ) → P offset → (offset + 1 ≤ j → P j) → offset ≤ j → P j
from_first P offset j p q l = elim (le-cases offset j l) [
  | inl same ↦ subst P same p
  | inr above ↦ q above
]

pub scan_from-some :
    (rounds offset start : ℕ) (bs : List Backend) {i : ℕ}
    → scan_from rounds offset start bs ≡ some i
    → (k : ℕ) × (offset ≤ k)
      × (k < offset + rounds)
      × (i ≡ at_offset start k bs)
      × (is_healthy bs i ≡ true)
      × ((j : ℕ) → offset ≤ j → j < k → is_healthy bs (at_offset start j bs) ≡ false)
unfolding scan_from
scan_from-some zero offset start bs e = cc
scan_from-some (suc rounds) offset start bs e =
    elim (Bool-cases (is_healthy bs (at_offset start offset bs))) [
      | inl up ↦ (
        offset,
        omega arith,
        omega arith,
        ground arith,
        ground arith,
        λ j l h. absurd (omega arith),
      )
      | inr down ↦
          let (k, l, h, at, up, before) =
            scan_from-some rounds (offset + 1) start bs (ground arith) in
          (
            k,
            omega arith,
            omega arith,
            at,
            up,
            λ j m h'.
                from_first (λ j. is_healthy bs (at_offset start j bs) ≡ false) offset j down
                  (λ m'. before j m' h') m,
          )
    ]

pub scan_from-none :
    (rounds offset start : ℕ) (bs : List Backend)
    → scan_from rounds offset start bs ≡ none
    → (j : ℕ) → offset ≤ j
    → j < offset + rounds
    → is_healthy bs (at_offset start j bs) ≡ false
unfolding scan_from
scan_from-none zero offset start bs e j l h = absurd (omega arith)
scan_from-none (suc rounds) offset start bs e j l h =
    elim (Bool-cases (is_healthy bs (at_offset start offset bs))) [
      | inl up ↦ absurd (ground arith)
      | inr down ↦
          from_first (λ j. is_healthy bs (at_offset start j bs) ≡ false) offset j down
            (λ m. scan_from-none rounds (offset + 1) start bs (ground arith) j m (omega arith)) l
    ]

-- From a cursor within the pool every index is at some offset below the pool's size.
pub record Reaches (n start i k : ℕ) : Type 0 where
  pub below : k < n
  pub at : (start + k) % 2 ^ 64 % n ≡ i

wrapped : (n i a : ℕ) → (a ≡ i) ⊎ (a ≡ i + n) → a < 2 ^ 64 → i < n → a % 2 ^ 64 % n ≡ i
wrapped n i a (inl e) f h = rw (mod-eq_of_lt f) (rw e (mod-eq_of_lt h))
wrapped n i a (inr e) f h = rw (mod-eq_of_lt f) (rw e (add-mod_right i n ∙ mod-eq_of_lt h))

pub reach : (n start i : ℕ) → start ≤ n → n + n < 2 ^ 64 → i < n → (k : ℕ) × Reaches n start i k
reach n start i s f h = elim (Bool-cases (ltb i start)) [
  | inl before ↦ (
    i + n - start,
    record {
      below = ground arith;
      at = wrapped n i (start + (i + n - start)) (inr (omega arith)) (omega arith) h;
    },
  )
  | inr after ↦
      let l : start ≤ i = ground arith in
      (
        i - start,
        record {
          below = omega arith;
          at = wrapped n i (start + (i - start)) (inl (omega arith)) (omega arith) h;
        },
      )
]

pub is_healthy-lt : (bs : List Backend) (i : ℕ) → is_healthy bs i ≡ true → i < length bs
unfolding is_healthy
is_healthy-lt [] i h = cc
is_healthy-lt (b ∷ bs) zero h = omega arith
is_healthy-lt (b ∷ bs) (suc i) h = omega (arith, is_healthy-lt bs i h)

-- The cursor lies within the pool, and the pool is small enough for 64 bits.
pub record IsPool (p : Pool) : Type 0 where
  pub cursor : p.next ≤ length p.backends
  pub small : length p.backends + length p.backends < 2 ^ 64
  pub known : (p.strategy ≡ round_robin) ⊎ (p.strategy ≡ least_connections)

pub scan_from-none_healthy :
    (p : Pool)
    → IsPool p
    → scan_from (length p.backends) 0 p.next p.backends ≡ none
    → (i : ℕ) → is_healthy p.backends i ≡ false
scan_from-none_healthy p v e i = elim (Bool-cases (is_healthy p.backends i)) [
  | inl up ↦
      let (k, r) = reach (length p.backends) p.next i v.cursor v.small (is_healthy-lt _ i up) in
      rw (r.at) at (
        scan_from-none (length p.backends) 0 p.next p.backends e k (omega arith)
          (omega (arith, r.below)))
  | inr down ↦ down
]
