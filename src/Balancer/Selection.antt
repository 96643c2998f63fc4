-- ===== src/Balancer/Selection.antt =====
-- Which backend `Pool.Acquire` of internal/balancer/pool.go selects, by either strategy.
use gatex.Prelude.{
  ℕ, ◌+◌, ◌≤◌, ◌<◌, ◌≡◌, ◌↔◌, inl, inr, ◌⊎◌, refl, true, false, Option, none, some, arith, length,
  get_elem?, Option-cases, Bool-cases,
}
use gatex.Prelude.Text.{text_eq, text_eq_iff}
use gatex.Balancer.Least.{least_from-le, least_from-IsFound, least_from-none}
use gatex.Balancer.Scan.{at_offset, scan_from-some, scan_from-none_healthy, IsPool}
use gatex.Balancer.{
  Backend, Pool, round_robin, least_connections, is_healthy, scan_from, next_round_robin,
  least_from, next_least_connections, select, acquire_backend, acquire,
}

-- A selected backend is healthy, and the selection changes no backend.
record IsSelected (p : Pool) (r : Option ℕ × Pool) (i : ℕ) : Type 0 where
  up : is_healthy p.backends i ≡ true
  same : r.1.backends ≡ p.backends
  strategy : r.1.strategy ≡ p.strategy
  cursor : (r.1.next ≡ p.next) ⊎ (r.1.next ≡ i + 1)

next_round_robin-IsSelected :
    (p : Pool) (i : ℕ) → (next_round_robin p).0 ≡ some i → IsSelected p (next_round_robin p) i
unfolding next_round_robin
next_round_robin-IsSelected p i e =
    elim (Option-cases (scan_from (length p.backends) 0 p.next p.backends)) [
      | inl missed ↦ absurd (ground arith)
      | inr (j, found) ↦
          let (k, l, h, at, up, before) =
            scan_from-some (length p.backends) 0 p.next p.backends found in
          ground arith
    ]

next_least_connections-up :
    (p : Pool) (i : ℕ) → next_least_connections p ≡ some i → is_healthy p.backends i ≡ true
unfolding next_least_connections is_healthy
next_least_connections-up p i e = elim (Option-cases (least_from none 0 p.backends)) [
  | inl missed ↦ absurd (ground arith)
  | inr ((j, m), found) ↦ elim (least_from-IsFound none 0 p.backends j m found) [
    | inl old ↦ absurd (cc)
    | inr (k, b, at, e', up, count) ↦ let same : i ≡ k = ground arith in ground arith
  ]
]

-- The parts of `Pool.Acquire` together.
select-IsSelected : (p : Pool) (i : ℕ) → (select p).0 ≡ some i → IsSelected p (select p) i
unfolding select
select-IsSelected p i e = elim (Bool-cases (text_eq p.strategy round_robin)) [
  | inl rr ↦ rw (rr, select) (next_round_robin-IsSelected p i (ground arith))
  | inr other ↦ elim (Bool-cases (text_eq p.strategy least_connections)) [
    | inl lc ↦
        rw (other, lc, select)
          (record {
            up = next_least_connections-up p i (ground arith);
            same = refl;
            strategy = refl;
            cursor = inl refl;
          })
    | inr unknown ↦ absurd (ground arith)
  ]
]

-- When `Acquire` selects a backend, that backend is healthy, the pool's backends are those before
-- with one active connection more on the selected one, and the strategy stays.
pub acquire-some :
    (p : Pool) (i : ℕ)
    → (acquire p).0 ≡ some i
    → (is_healthy p.backends i ≡ true)
      × ((acquire p).1.backends ≡ acquire_backend i p.backends)
      × ((acquire p).1.strategy ≡ p.strategy)
unfolding acquire
acquire-some p i e = elim (Option-cases (select p).0) [
  | inl missed ↦ absurd (ground arith)
  | inr (j, found) ↦ let s = select-IsSelected p j found in ground arith
]

select-round_robin : (p : Pool) → p.strategy ≡ round_robin → select p ≡ next_round_robin p
unfolding select
select-round_robin p e = ground (arith, text_eq_iff p.strategy round_robin)

select-least_connections :
    (p : Pool) → p.strategy ≡ least_connections → select p ≡ (next_least_connections p, p)
unfolding select text_eq
select-least_connections p e =
    let other : text_eq p.strategy round_robin ≡ false = rw e refl in
    let same : text_eq p.strategy least_connections ≡ true = rw e refl in ground arith

select-none :
    (p : Pool) → IsPool p → (select p).0 ≡ none → (i : ℕ) → is_healthy p.backends i ≡ false
unfolding next_round_robin next_least_connections
select-none p v e = elim v.known [
  | inl rr ↦ scan_from-none_healthy p v (ground (arith, select-round_robin p rr))
  | inr lc ↦ least_from-none 0 p.backends (ground (arith, select-least_connections p lc))
]

-- With the cursor in a pool of a known strategy that is not of an astronomic size, `Acquire` fails
-- exactly when every backend is unhealthy.
pub acquire-none_iff :
    (p : Pool) → IsPool p → ((acquire p).0 ≡ none) ↔ ((i : ℕ) → is_healthy p.backends i ≡ false)
unfolding acquire
acquire-none_iff p v = (λ e. select-none p v (ground arith), λ down. none_of_down down)
  where
    none_of_down : ((i : ℕ) → is_healthy p.backends i ≡ false) → (acquire p).0 ≡ none
    none_of_down down = elim (Option-cases (acquire p).0) [
      | inl missed ↦ missed
      | inr (i, found) ↦ absurd (ground (arith, (acquire-some p i found).0, down i))
    ]

-- By round robin, `Acquire` selects the first healthy backend at or after the cursor, going round
-- from the end of the pool to its start, and moves the cursor behind it.
pub acquire-round_robin :
    (p : Pool) (i : ℕ)
    → p.strategy ≡ round_robin
    → (acquire p).0 ≡ some i
    → ((k : ℕ) × (k < length p.backends)
        × (i ≡ at_offset p.next k p.backends)
        × (is_healthy p.backends i ≡ true)
        × ((j : ℕ) → j < k → is_healthy p.backends (at_offset p.next j p.backends) ≡ false))
      × ((acquire p).1.next ≡ i + 1)
unfolding acquire next_round_robin
acquire-round_robin p i rr e =
    elim (Option-cases (scan_from (length p.backends) 0 p.next p.backends)) [
      | inl missed ↦ absurd (ground (arith, select-round_robin p rr))
      | inr (j, found) ↦
          let same : j ≡ i = ground (arith, select-round_robin p rr) in
          let (k, l, h, at, up, before) =
            scan_from-some (length p.backends) 0 p.next p.backends found in
          (
            (k, omega arith, rw (← same) at, rw (← same) up, λ j' h'. before j' (omega arith) h'),
            ground (arith, select-round_robin p rr),
          )
    ]

-- By least connections, `Acquire` selects a healthy backend that has no more active connections
-- than any healthy backend of the pool, and leaves the cursor.
pub acquire-least_connections :
    (p : Pool) (i : ℕ)
    → p.strategy ≡ least_connections
    → (acquire p).0 ≡ some i
    → ((b : Backend) × (get_elem? p.backends i ≡ some b)
        × (b.healthy ≡ true)
        × ((j : ℕ) (c : Backend)
            → get_elem? p.backends j ≡ some c
            → c.healthy ≡ true
            → b.active_connections ≤ c.active_connections))
      × ((acquire p).1.next ≡ p.next)
unfolding acquire next_least_connections
acquire-least_connections p i lc e = elim (Option-cases (least_from none 0 p.backends)) [
  | inl missed ↦ absurd (ground (arith, select-least_connections p lc))
  | inr ((j, m), found) ↦ elim (least_from-IsFound none 0 p.backends j m found) [
    | inl old ↦ absurd (cc)
    | inr (k, b, at, e', up, count) ↦
        let same : k ≡ i = ground (arith, select-least_connections p lc) in
        let (_, least) = least_from-le none 0 p.backends j m found in
        (
          (b, rw (← same) e', up, λ j' c e'' up'. rw count (least j' c e'' up')),
          ground (arith, select-least_connections p lc),
        )
  ]
]

-- A failed `Acquire` leaves the backends and the strategy.
pub acquire-none :
    (p : Pool)
    → (acquire p).0 ≡ none
    → ((acquire p).1.backends ≡ p.backends)
      × ((acquire p).1.strategy ≡ p.strategy)
      × ((acquire p).1.next ≡ p.next)
unfolding acquire select next_round_robin
acquire-none p e = ground arith

pub acquire-cursor :
    (p : Pool) (i : ℕ)
    → (acquire p).0 ≡ some i
    → ((acquire p).1.next ≡ p.next) ⊎ ((acquire p).1.next ≡ i + 1)
unfolding acquire
acquire-cursor p i e = elim (Option-cases (select p).0) [
  | inl missed ↦ absurd (ground arith)
  | inr (j, found) ↦ let s = select-IsSelected p j found in ground arith
]
