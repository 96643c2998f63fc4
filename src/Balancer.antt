-- ===== src/Balancer.antt =====
-- internal/balancer/pool.go: a pool of backends and its two selection strategies. Go's backends are
-- shared pointers; here a backend is known by its place in the pool. `Pool.Acquire` holds the pool's
-- mutex, which does not guard the backends' atomics: here each call is one step on the pool, so that a
-- `Release` or a verdict comes before or after a whole scan. Upstreams.Requests lets them come between
-- the scan's reads.
pub mod Scan
pub mod Least
pub mod Selection
pub mod Rotation
pub mod Accounting
pub mod Construction
mod Tests
use gatex.Prelude.{
  ℕ, zero, suc, ◌+◌, ◌-◌, ◌%◌, ◌^◌, Bool, true, false, not, ◌&&◌, List, [], ◌∷◌, Option, none, some,
  Result, ok, err, ltb, ◌==◌, if◌then◌else◌, length, get_elem?, set,
}
use gatex.Prelude.Text.{Text, bytes, text_eq, trim_space}

pub data PoolError : Type 0 where
  err_no_backends err_empty_backend_url err_unsupported_strategy : PoolError

-- `Strategy` is a string type with two named values.
abbrev pub round_robin : Text
round_robin = bytes "round_robin"

abbrev pub least_connections : Text
least_connections = bytes "least_connections"

pub record Backend : Type 0 where
  pub url : Text
  pub healthy : Bool
  pub active_connections : ℕ

pub record Pool : Type 0 where
  pub backends : List Backend
  pub strategy : Text
  pub next : ℕ

-- The loop of `NewPoolWithStrategy`.
new_backends : List Text → Result PoolError (List Backend)
new_backends [] = ok []
new_backends (url ∷ urls) =
    if text_eq (trim_space url) [] then err err_empty_backend_url else elim (new_backends urls) [
      | ok backends ↦ ok (record { url = url; healthy = true; active_connections = 0 } ∷ backends)
      | err e ↦ err e
    ]

pub new_pool_with_strategy : List Text → Text → Result PoolError Pool
unfolding new_backends
new_pool_with_strategy urls strategy =
    if length urls == 0
    then err err_no_backends
    else if not (text_eq strategy round_robin) && not (text_eq strategy least_connections)
    then err err_unsupported_strategy
    else elim (new_backends urls) [
      | ok backends ↦ ok (record { backends = backends; strategy = strategy; next = 0 })
      | err e ↦ err e
    ]

-- Whether there is a backend at the index, and it is healthy.
unfoldable pub is_healthy : List Backend → ℕ → Bool
is_healthy backends i = elim (get_elem? backends i) [ none ↦ false | some b ↦ b.healthy ]

unfoldable pub set_healthy : ℕ → Bool → List Backend → List Backend
set_healthy i healthy backends = elim (get_elem? backends i) [
  | none ↦ backends
  | some b ↦ set backends i (record b { healthy = healthy })
]

-- `Backend.Acquire`.
pub acquire_backend : ℕ → List Backend → List Backend
acquire_backend i backends = elim (get_elem? backends i) [
  | none ↦ backends
  | some b ↦ set backends i (record b { active_connections = b.active_connections + 1 })
]

-- `Backend.Release`: a count of zero stays.
pub release_backend : ℕ → List Backend → List Backend
release_backend i backends = elim (get_elem? backends i) [
  | none ↦ backends
  | some b ↦
      if b.active_connections == 0
      then backends
      else set backends i (record b { active_connections = b.active_connections - 1 })
]

-- The loop of `nextRoundRobin`, with `rounds` offsets left; the sum wraps at 64 bits.
pub scan_from : ℕ → ℕ → ℕ → List Backend → Option ℕ
unfolding is_healthy
scan_from zero offset start backends = none
scan_from (suc rounds) offset start backends =
    let rest = scan_from rounds (offset + 1) start backends in
    let index = (start + offset) % 2 ^ 64 % length backends in
    if is_healthy backends index then some index else rest

pub next_round_robin : Pool → Option ℕ × Pool
unfolding scan_from
next_round_robin p = elim (scan_from (length p.backends) 0 p.next p.backends) [
  | none ↦ (none, p)
  | some index ↦ (some index, record p { next = index + 1 })
]

-- The loop of `nextLeastConnections`: `selected` holds the index and the count of the backend
-- chosen so far, and `i` is the index of the next one.
pub least_from : Option (ℕ × ℕ) → ℕ → List Backend → Option (ℕ × ℕ)
least_from selected i [] = selected
least_from none i (b ∷ bs) =
    least_from (if b.healthy then some (i, b.active_connections) else none) (i + 1) bs
least_from (some (j, n)) i (b ∷ bs) =
    least_from
      (if b.healthy && ltb b.active_connections n
        then some (i, b.active_connections)
        else some (j, n))
      (i + 1) bs

pub next_least_connections : Pool → Option ℕ
unfolding least_from
next_least_connections p = elim (least_from none 0 p.backends) [
  | none ↦ none
  | some (i, n) ↦ some i
]

-- The `switch` of `Acquire`; an unknown strategy selects nothing.
pub select : Pool → Option ℕ × Pool
unfolding next_round_robin next_least_connections
select p =
    if text_eq p.strategy round_robin
    then next_round_robin p
    else if text_eq p.strategy least_connections
    then (next_least_connections p, p)
    else (none, p)

unfoldable pub acquire : Pool → Option ℕ × Pool
unfolding select acquire_backend
acquire p = elim (select p).0 [
  | none ↦ (none, (select p).1)
  | some i ↦ (
    some i,
    record p { backends = acquire_backend i (select p).1.backends; next = (select p).1.next },
  )
]

unfoldable pub release : ℕ → Pool → Pool
unfolding release_backend
release i p = record p { backends = release_backend i p.backends }

-- `hasHealthyBackend` of internal/proxy/gateway.go.
pub has_healthy_backend : List Backend → Bool
has_healthy_backend [] = false
has_healthy_backend (b ∷ bs) = if b.healthy then true else has_healthy_backend bs
