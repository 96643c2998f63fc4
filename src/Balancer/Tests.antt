-- ===== src/Balancer/Tests.antt =====
-- Runs of the pool of internal/balancer/pool.go, and the theorems at concrete pools.
use gatex.Prelude.{
  ℕ, zero, suc, ◌+◌, ◌%◌, ◌≤◌, ◌<◌, ◌≡◌, ◌↔◌, inl, refl, Bool, true, false, List, [], ◌∷◌, none,
  some, err, arith, get_elem?,
}
use gatex.Prelude.Text.{bytes, trim_space, text_eq}
use gatex.Balancer.Accounting.{
  Leased, Event, on_acquire, on_release, on_health, run, count, IsCounted, run-IsCounted,
}
use gatex.Balancer.Rotation.{AllHealthy, served, served-round_robin}
use gatex.Balancer.Scan.{IsPool, at_offset}
use gatex.Balancer.Selection.{acquire-none_iff, acquire-round_robin, acquire-least_connections}
use gatex.Balancer.{
  Backend, Pool, round_robin, least_connections, err_empty_backend_url, is_healthy,
  new_pool_with_strategy, acquire, release, set_healthy, has_healthy_backend,
}

abbrev backend : Bool → ℕ → Backend
backend healthy n = record { url = bytes "http://b"; healthy = healthy; active_connections = n }

abbrev rotating : Pool
rotating = record {
  backends = backend false 0 ∷ backend true 4 ∷ backend true 1 ∷ [];
  strategy = round_robin;
  next = 2;
}

abbrev leasts : Pool
leasts = record rotating { strategy = least_connections }

abbrev all_up : Pool
all_up = record rotating { backends = backend true 0 ∷ backend true 4 ∷ backend true 1 ∷ [] }

takes_third : acquire rotating ≡ (
  some 2,
  record rotating { backends = backend false 0 ∷ backend true 4 ∷ backend true 2 ∷ []; next = 3 },
)
unfolding acquire text_eq
takes_third = refl

takes_idlest : (acquire leasts).0 ≡ some 2
unfolding acquire text_eq
takes_idlest = refl

wraps : served 4 rotating ≡ some 2 ∷ some 1 ∷ some 2 ∷ some 1 ∷ []
unfolding served acquire text_eq
wraps = refl

blank_url :
    new_pool_with_strategy (bytes "a" ∷ bytes " \t" ∷ []) round_robin ≡ err err_empty_backend_url
unfolding new_pool_with_strategy trim_space text_eq
blank_url = refl

extra_release : release 0 all_up ≡ all_up
unfolding release
extra_release = refl

one_left : has_healthy_backend (set_healthy 1 false rotating.backends) ≡ true
unfolding has_healthy_backend set_healthy
one_left = refl

rotating-IsPool : IsPool rotating
rotating-IsPool = record { cursor = omega arith; small = omega arith; known = inl refl }

all_up-IsPool : IsPool all_up
all_up-IsPool = record { cursor = omega arith; small = omega arith; known = inl refl }

all_up-AllHealthy : AllHealthy all_up
unfolding is_healthy
all_up-AllHealthy zero h = refl
all_up-AllHealthy (suc zero) h = refl
all_up-AllHealthy (suc (suc zero)) h = refl
all_up-AllHealthy (suc (suc (suc i))) h = absurd (omega arith)

acquire-none_iff_example :
    ((acquire rotating).0 ≡ none) ↔ ((i : ℕ) → is_healthy rotating.backends i ≡ false)
acquire-none_iff_example = acquire-none_iff rotating rotating-IsPool

acquire-round_robin_example :
    ((k : ℕ) × (k < 3)
      × (2 ≡ at_offset 2 k rotating.backends)
      × (is_healthy rotating.backends 2 ≡ true)
      × ((j : ℕ) → j < k → is_healthy rotating.backends (at_offset 2 j rotating.backends) ≡ false))
    × ((acquire rotating).1.next ≡ 3)
unfolding acquire text_eq
acquire-round_robin_example = acquire-round_robin rotating 2 refl refl

acquire-least_connections_example :
    ((b : Backend) × (get_elem? leasts.backends 2 ≡ some b)
      × (b.healthy ≡ true)
      × ((j : ℕ) (c : Backend)
          → get_elem? leasts.backends j ≡ some c
          → c.healthy ≡ true
          → b.active_connections ≤ c.active_connections))
    × ((acquire leasts).1.next ≡ 2)
unfolding acquire text_eq
acquire-least_connections_example = acquire-least_connections leasts 2 refl refl

served-round_robin_example :
    ((k : ℕ) → k < 5 → 0 < 3 → get_elem? (served 5 all_up) k ≡ some (some ((2 + k) % 3)))
    × ((i : ℕ) → i < 3 → (k : ℕ) × (k < 3) × (get_elem? (served 3 all_up) k ≡ some (some i)))
served-round_robin_example = served-round_robin 5 all_up all_up-IsPool refl all_up-AllHealthy

abbrev idle : Leased
idle = record {
  pool = record rotating { backends = backend true 0 ∷ backend true 0 ∷ [] };
  leases = [];
}

idle-IsCounted : IsCounted idle
unfolding count
idle-IsCounted zero b e = ground arith
idle-IsCounted (suc zero) b e = ground arith
idle-IsCounted (suc (suc i)) b e = cc

abbrev calls : List Event
calls = on_acquire ∷ on_health 0 false ∷ on_acquire ∷ on_release 1 ∷ []

run-IsCounted_example : IsCounted (run calls idle)
run-IsCounted_example = run-IsCounted calls idle idle-IsCounted
