-- ===== src/HealthChecker/Checks.antt =====
-- What one `Check` of internal/balancer/health_checker.go leaves in a pool.
use gatex.Prelude.{
  ℕ, ◌≡◌, inl, inr, refl, ap, Bool, true, false, List, [], ◌∷◌, none, some, arith, Bool-cases,
  Option-cases, get_elem?, get_elem?-set, ◌==◌, if◌then◌else◌,
}
use gatex.Balancer.{Backend, set_healthy}
use gatex.HealthChecker.{Probe, verdict, check_backend, check}

unfoldable pub contains : ℕ → List ℕ → Bool
contains i [] = false
contains i (j ∷ js) = if j == i then true else contains i js

set_healthy-at :
    (i j : ℕ) (up : Bool) (bs : List Backend)
    → get_elem? (set_healthy i up bs) j ≡ (
        if i == j
        then elim (get_elem? bs j) [ none ↦ none | some b ↦ some (record b { healthy = up }) ]
        else get_elem? bs j)
unfolding set_healthy
set_healthy-at i j up bs = elim (Option-cases (get_elem? bs i)) [
  | inl missing ↦ ground arith
  | inr (b, found) ↦ ground (arith, get_elem?-set bs i j (record b { healthy = up }))
]

-- After a check in which the probes end in any order, even more than once for a backend, each probed
-- backend has the verdict on its probe, and its URL and connections; the others are as before.
pub check-at :
    (order : List ℕ) (probes : ℕ → Probe) (bs : List Backend) (j : ℕ)
    → get_elem? (check order probes bs) j ≡ (
        if contains j order
        then elim (get_elem? bs j) [
          | none ↦ none
          | some b ↦ some (record b { healthy = verdict (probes j) })
        ]
        else get_elem? bs j)
unfolding check contains check_backend
check-at [] probes bs j = refl
check-at (i ∷ order) probes bs j =
    let now = set_healthy-at i j (verdict (probes i)) bs in
    let later = check-at order probes (check_backend i (probes i) bs) j in
    elim (Option-cases (get_elem? bs j)) [
      | inl missing ↦ ground arith
      | inr (b, found) ↦ elim (Bool-cases (i == j)) [
        | inl same ↦
            let e : i ≡ j = ground arith in
            let p : probes i ≡ probes j = ap probes e in ground arith
        | inr other ↦ ground arith
      ]
    ]
