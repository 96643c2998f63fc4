-- ===== src/Readiness/Pools.antt =====
-- Which pools internal/proxy/gateway.go reports as unavailable.
use gatex.Prelude.{
  ◌≡◌, ◌≢◌, ◌↔◌, inl, inr, refl, ◌∙◌, ℕ, zero, suc, true, false, not, ◌||◌, List, [], ◌∷◌, none,
  some, if◌then◌else◌, All, get_elem?, arith, Bool-cases,
}
use gatex.Prelude.Text.{Text, text_eq, text_eq_iff}
use gatex.Prelude.Dict.{mem, lookup, keys, Distinct, mem-keys}
use mathlib.Core.Option.{some-injective}
use gatex.Balancer
use gatex.Breaker.{State, state_closed, state_open, state_half_open, state_other, state_eq}
use gatex.Upstreams.{BackendPool}
use gatex.Readiness.{
  has_healthy_backend, is_unavailable, text_leb, insert, sort, unavailable_names, unavailable_pools,
}

-- A pool whose breaker is closed, with a backend that is healthy.
abbrev pub IsAvailable : BackendPool → Type 0
IsAvailable p =
    (p.circuit_breaker.state ≡ state_closed)
    × (i : ℕ) × (b : Balancer.Backend) × (get_elem? p.balancer.backends i ≡ some b)
    × (b.healthy ≡ true)

-- The text is at most the first of the list.
abbrev pub StartsAbove : Text → List Text → Type 0
StartsAbove s [] = Unit
StartsAbove s (t ∷ ts) = text_leb s t ≡ true

abbrev pub IsSorted : List Text → Type 0
IsSorted [] = Unit
IsSorted (s ∷ ts) = StartsAbove s ts × IsSorted ts

closed_of : (s : State) → state_eq s state_closed ≡ true → s ≡ state_closed
closed_of state_closed e = refl
closed_of state_open e = absurd (cc)
closed_of state_half_open e = absurd (cc)
closed_of (state_other n) e = absurd (cc)

closed_eq : (s : State) → s ≡ state_closed → state_eq s state_closed ≡ true
closed_eq s e = rw e refl

text_leb_total : (s t : Text) → text_leb s t ≡ false → text_leb t s ≡ true
unfolding text_leb
text_leb_total [] t e = absurd (cc)
text_leb_total (a ∷ s) [] e = refl
text_leb_total (a ∷ s) (b ∷ t) e = ground (arith, text_leb_total s t)

insert-StartsAbove :
    (t s : Text) (ts : List Text)
    → text_leb t s ≡ true
    → StartsAbove t ts
    → StartsAbove t (insert s ts)
unfolding insert
insert-StartsAbove t s [] e h = e
insert-StartsAbove t s (u ∷ ts) e h = elim (Bool-cases (text_leb s u)) [
  | inl f ↦ rw f e
  | inr f ↦ rw f h
]

insert-IsSorted : (s : Text) (ts : List Text) → IsSorted ts → IsSorted (insert s ts)
unfolding insert
insert-IsSorted s [] h = (tt, tt)
insert-IsSorted s (t ∷ ts) h = elim (Bool-cases (text_leb s t)) [
  | inl e ↦ rw e (e, h)
  | inr e ↦
      let least = insert-StartsAbove t s ts (text_leb_total s t e) h.0 in
      rw e (least, insert-IsSorted s ts h.1)
]

pub sort-IsSorted : (ss : List Text) → IsSorted (sort ss)
unfolding sort
sort-IsSorted [] = tt
sort-IsSorted (s ∷ ss) = insert-IsSorted s (sort ss) (sort-IsSorted ss)

mem-insert :
    (q s : Text) (ts : List Text) → mem q (insert s ts) ≡ (if text_eq s q then true else mem q ts)
unfolding insert mem
mem-insert q s [] = refl
mem-insert q s (t ∷ ts) = ground (arith, mem-insert q s ts)

pub mem-sort : (q : Text) (ss : List Text) → mem q (sort ss) ≡ mem q ss
unfolding sort mem
mem-sort q [] = refl
mem-sort q (s ∷ ss) = ground (arith, mem-insert q s (sort ss), mem-sort q ss)

healthy_found :
    (bs : List Balancer.Backend)
    → has_healthy_backend bs ≡ true
    → (i : ℕ) × (b : Balancer.Backend) × (get_elem? bs i ≡ some b) × (b.healthy ≡ true)
unfolding has_healthy_backend
healthy_found [] e = absurd (cc)
healthy_found (b ∷ bs) e = elim (Bool-cases b.healthy) [
  | inl well ↦ (0, b, refl, well)
  | inr ill ↦
      let (i, d, at, well) = healthy_found bs (ground (arith, e, ill)) in (suc i, d, at, well)
]

healthy_seen :
    (bs : List Balancer.Backend) (i : ℕ) (b : Balancer.Backend)
    → get_elem? bs i ≡ some b
    → b.healthy ≡ true
    → has_healthy_backend bs ≡ true
unfolding has_healthy_backend
healthy_seen [] i b at well = absurd (cc)
healthy_seen (d ∷ bs) zero b at well = ground (arith, some-injective d b at)
healthy_seen (d ∷ bs) (suc i) b at well = ground (arith, healthy_seen bs i b at well)

pub is_unavailable-IsAvailable : (p : BackendPool) → (is_unavailable p ≡ false) ↔ IsAvailable p
unfolding is_unavailable
is_unavailable-IsAvailable p = (available, seen)
  where
    available :
        (not (state_eq p.circuit_breaker.state state_closed)
            || not (has_healthy_backend p.balancer.backends))
          ≡ false
        → IsAvailable p
    available e =
        let (i, b, at, well) = healthy_found p.balancer.backends (ground arith) in
        (closed_of p.circuit_breaker.state (ground arith), i, b, at, well)

    seen :
        IsAvailable p
        → (not (state_eq p.circuit_breaker.state state_closed)
            || not (has_healthy_backend p.balancer.backends))
          ≡ false
    seen (e, i, b, at, well) =
        let f = healthy_seen p.balancer.backends i b at well in
        let g = closed_eq p.circuit_breaker.state e in ground arith

names_none :
    (pools : List (Text × BackendPool))
    → (unavailable_names pools ≡ []) ↔ All (λ e. IsAvailable e.1) pools
unfolding unavailable_names
names_none [] = ((λ e. tt), λ h. refl)
names_none ((n, p) ∷ pools) = elim (Bool-cases (is_unavailable p)) [
  | inl e ↦ (
    (λ f. absurd (ground arith)),
    λ h. absurd (ground (arith, (is_unavailable-IsAvailable p).1 h.0)),
  )
  | inr e ↦ rw e (
    (λ f. ((is_unavailable-IsAvailable p).0 e, (names_none pools).0 f)),
    λ h. (names_none pools).1 h.1,
  )
]

mem-unavailable_names :
    (name : Text) (pools : List (Text × BackendPool))
    → Distinct (keys pools)
    → mem name (unavailable_names pools)
      ≡ (elim (lookup name pools) [ none ↦ false | some p ↦ is_unavailable p ])
unfolding mem unavailable_names lookup
mem-unavailable_names name [] d = refl
mem-unavailable_names name ((n, p) ∷ pools) (fresh, d) =
    let absent = mem-keys name pools in
    ground (arith, text_eq_iff n name, mem-unavailable_names name pools d)

insert_some : (s : Text) (ts : List Text) → insert s ts ≢ []
unfolding insert
insert_some s [] e = cc
insert_some s (t ∷ ts) e = ground arith

pub sort_none : (ss : List Text) → (sort ss ≡ []) ↔ (ss ≡ [])
unfolding sort
sort_none [] = ((λ e. refl), λ e. refl)
sort_none (s ∷ ss) = ((λ e. absurd (insert_some s (sort ss) e)), λ e. absurd (cc))

-- Every pool is available exactly if none is reported. The report is sorted, and names a pool exactly
-- if the pool of that name is not available.
pub unavailable_pools_lem :
    (pools : List (Text × BackendPool))
    → Distinct (keys pools)
    → ((unavailable_pools pools ≡ []) ↔ All (λ e. IsAvailable e.1) pools)
      × IsSorted (unavailable_pools pools)
      × ((name : Text)
          → mem name (unavailable_pools pools)
            ≡ (elim (lookup name pools) [ none ↦ false | some p ↦ is_unavailable p ]))
unfolding unavailable_pools
unavailable_pools_lem pools d =
    let names = unavailable_names pools in
    (
      (
        λ e. (names_none pools).0 ((sort_none names).0 e),
        λ h. (sort_none names).1 ((names_none pools).1 h),
      ),
      sort-IsSorted names,
      λ name. mem-sort name names ∙ mem-unavailable_names name pools d,
    )
