-- ===== src/Balancer/Rotation.antt =====
-- The rotation of internal/balancer/pool.go over a pool whose backends are all healthy.
use native.Mathlib.Nat.{mod-add-mod, mod-lt, add_assoc}
use gatex.Prelude.{
  ℕ, zero, suc, ◌+◌, ◌%◌, ◌^◌, ◌<◌, ◌≡◌, ◌∙◌, ap, inl, inr, refl, true, false, List, [], ◌∷◌,
  Option, some, arith, length, get_elem?, get_elem?-set, length-set, Option-cases,
}
use gatex.Balancer.Scan.{IsPool, at_offset, is_healthy-lt, reach}
use gatex.Balancer.Selection.{
  acquire-none_iff, acquire-some, acquire-none, acquire-cursor, acquire-round_robin,
}
use gatex.Balancer.{Backend, Pool, round_robin, is_healthy, acquire_backend, acquire}

length-acquire_backend : (i : ℕ) (bs : List Backend) → length (acquire_backend i bs) ≡ length bs
unfolding acquire_backend
length-acquire_backend i bs = elim (Option-cases (get_elem? bs i)) [
  | inl missing ↦ rw (missing, acquire_backend)
  | inr (b, found) ↦ rw (found, acquire_backend) (length-set bs i _)
]

-- `Acquire` keeps the cursor in the pool.
pub acquire-IsPool : (p : Pool) → IsPool p → IsPool (acquire p).1
acquire-IsPool p v = elim (Option-cases (acquire p).0) [
  | inl missed ↦ let same = acquire-none p missed in ground arith
  | inr (i, found) ↦
      let (up, moved, strategy) = acquire-some p i found in
      let at = acquire-cursor p i found in
      ground (arith, is_healthy-lt p.backends i up, length-acquire_backend i p.backends)
]

abbrev pub AllHealthy : Pool → Type 0
AllHealthy p = (i : ℕ) → i < length p.backends → is_healthy p.backends i ≡ true

-- The indices that `n` calls of `Acquire` in a row select.
unfoldable pub served : ℕ → Pool → List (Option ℕ)
served zero p = []
served (suc n) p = (acquire p).0 ∷ served n (acquire p).1

-- What holds throughout: a valid round-robin pool of `n` backends, all healthy.
record IsRotating (n : ℕ) (p : Pool) : Type 0 where
  valid : IsPool p
  up : AllHealthy p
  strategy : p.strategy ≡ round_robin
  size : length p.backends ≡ n
  some_backend : 0 < n

at_cursor : (n : ℕ) (p : Pool) → IsRotating n p → at_offset p.next 0 p.backends ≡ p.next % n
at_cursor n p r =
    let e : (p.next + 0) % 2 ^ 64 ≡ p.next = omega (arith, r.valid.cursor, r.valid.small) in
    rw (r.size) (ap (λ x. x % n) e)

-- A healthy backend under the cursor leaves no offset before the selected one.
first_offset :
    (n k : ℕ) (p : Pool)
    → IsRotating n p
    → ((j : ℕ) → j < k → is_healthy p.backends (at_offset p.next j p.backends) ≡ false)
    → k ≡ 0
first_offset n zero p r before = refl
first_offset n (suc k) p r before =
    let inside : p.next % n < length p.backends = rw (r.size) (mod-lt p.next r.some_backend) in
    cc (before 0 (omega arith), at_cursor n p r, r.up (p.next % n) inside)

acquire_rotating :
    (n : ℕ) (p : Pool)
    → IsRotating n p
    → ((acquire p).0 ≡ some (p.next % n)) × ((acquire p).1.next ≡ p.next % n + 1)
acquire_rotating n p r = elim (Option-cases (acquire p).0) [
  | inl missed ↦
      absurd (
        cc
          ((acquire-none_iff p r.valid).0 missed 0, r.up 0 (omega (arith, r.size, r.some_backend))))
  | inr (i, found) ↦
      let ((k, h, at, up, before), moved) = acquire-round_robin p i r.strategy found in
      let at' : i ≡ p.next % n = (rw (first_offset n k p r before) at at) ∙ at_cursor n p r in
      (found ∙ ap some at', moved ∙ ap (λ x. x + 1) at')
]

is_healthy-acquire_backend :
    (i j : ℕ) (bs : List Backend) → is_healthy (acquire_backend i bs) j ≡ is_healthy bs j
unfolding is_healthy acquire_backend
is_healthy-acquire_backend i j bs = elim (Option-cases (get_elem? bs i)) [
  | inl missing ↦ ground arith
  | inr (b, found) ↦
      ground
        (arith, get_elem?-set bs i j (record b { active_connections = b.active_connections + 1 }))
]

acquire-IsRotating : (n : ℕ) (p : Pool) → IsRotating n p → IsRotating n (acquire p).1
acquire-IsRotating n p r =
    let (up, moved, strategy) = acquire-some p (p.next % n) (acquire_rotating n p r).0 in
    let size = ap length moved ∙ length-acquire_backend (p.next % n) p.backends in
    record {
      valid = acquire-IsPool p r.valid;
      up = λ i h.
          rw moved (is_healthy-acquire_backend (p.next % n) i p.backends ∙ r.up i (rw size at h));
      strategy = strategy ∙ r.strategy;
      size = size ∙ r.size;
      some_backend = r.some_backend;
    }

served_rotating :
    (n m k : ℕ) (p : Pool)
    → IsRotating n p
    → k < m
    → get_elem? (served m p) k ≡ some (some ((p.next + k) % n))
unfolding served
served_rotating n zero k p r h = absurd (omega arith)
served_rotating n (suc m) zero p r h =
    ap some ((acquire_rotating n p r).0 ∙ ap (λ x. some (x % n)) (omega arith))
served_rotating n (suc m) (suc k) p r h =
    served_rotating n m k (acquire p).1 (acquire-IsRotating n p r) (omega arith)
    ∙ ap (λ x. some (some x))
        (ap (λ x. (x + k) % n) (acquire_rotating n p r).1
          ∙ ap (λ x. x % n) (add_assoc (p.next % n) 1 k)
          ∙ mod-add-mod p.next n (1 + k)
          ∙ ap (λ x. x % n) (omega arith))

-- In a round-robin pool whose backends are all healthy, consecutive calls of `Acquire` select the
-- backends one after another from the cursor on, going round; so among as many calls as there are
-- backends, every backend is selected by some call.
pub served-round_robin :
    (m : ℕ) (p : Pool)
    → IsPool p
    → p.strategy ≡ round_robin
    → AllHealthy p
    → ((k : ℕ)
        → k < m
        → 0 < length p.backends
        → get_elem? (served m p) k ≡ some (some ((p.next + k) % length p.backends)))
      × ((i : ℕ)
          → i < length p.backends
          → (k : ℕ) × (k < length p.backends)
            × (get_elem? (served (length p.backends) p) k ≡ some (some i)))
served-round_robin m p v rr up = (
  λ k h pos. served_rotating (length p.backends) m k p (rotating pos) h,
  λ i h.
      let (k, r) = reach (length p.backends) p.next i v.cursor v.small h in
      let small : (p.next + k) % 2 ^ 64 ≡ p.next + k = omega (arith, r.below, v.cursor, v.small) in
      (
        k,
        r.below,
        served_rotating (length p.backends) (length p.backends) k p (rotating (omega arith)) r.below
            ∙ ap (λ x. some (some x)) (rw small at (r.at)),
      ),
)
  where
    rotating : 0 < length p.backends → IsRotating (length p.backends) p
    rotating pos = record { valid = v; up = up; strategy = rr; size = refl; some_backend = pos }
