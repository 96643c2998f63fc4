-- ===== src/Balancer/Construction.antt =====
-- `NewPoolWithStrategy` of internal/balancer/pool.go: when a pool is made, and which.
use gatex.Prelude.{
  ◌≡◌, ◌≢◌, ◌↔◌, ◌⊎◌, inl, inr, refl, ap, true, false, List, [], ◌∷◌, map, Result-cases, not, ◌&&◌,
  ok, arith, All, Bool-cases,
}
use gatex.Prelude.Text.{Text, text_eq, text_eq_iff, trim_space}
use gatex.Balancer.{
  Backend, Pool, round_robin, least_connections, new_backends, new_pool_with_strategy,
}

-- A backend that has served no request and takes traffic.
pub record IsFresh (b : Backend) : Type 0 where
  pub up : b.healthy ≡ true
  pub idle : b.active_connections ≡ 0

abbrev pub IsBlank : Text → Type 0
IsBlank url = trim_space url ≡ []

abbrev pub IsKnown : Text → Type 0
IsKnown strategy = (strategy ≡ round_robin) ⊎ (strategy ≡ least_connections)

pub record IsNewPool (urls : List Text) (strategy : Text) (p : Pool) : Type 0 where
  pub members : map (λ b. b.url) p.backends ≡ urls
  pub fresh : All IsFresh p.backends
  pub first : p.next ≡ 0
  pub chosen : p.strategy ≡ strategy

new_backends-ok :
    (urls : List Text)
    → All (λ url. ¬ IsBlank url) urls
    → (bs : List Backend) × (new_backends urls ≡ ok bs)
      × (map (λ b. b.url) bs ≡ urls)
      × All IsFresh bs
unfolding new_backends
new_backends-ok [] _ = ([], refl, refl, tt)
new_backends-ok (url ∷ urls) (h, hs) =
    let (bs, made, members, fresh) = new_backends-ok urls hs in
    (
      record { url = url; healthy = true; active_connections = 0 } ∷ bs,
      ground (arith, text_eq_iff (trim_space url) []),
      ap (◌∷◌ url) members,
      (record { up = refl; idle = refl }, fresh),
    )

new_backends-All :
    (urls : List Text) (bs : List Backend)
    → new_backends urls ≡ ok bs
    → All (λ url. ¬ IsBlank url) urls
unfolding new_backends
new_backends-All [] bs e = tt
new_backends-All (url ∷ urls) bs e = elim (Bool-cases (text_eq (trim_space url) [])) [
  | inl blank ↦ absurd (ground arith)
  | inr solid ↦ elim (Result-cases (new_backends urls)) [
    | inl (bs', made) ↦
        ((λ b. ground (arith, text_eq_iff (trim_space url) [])), new_backends-All urls bs' made)
    | inr (e', failed) ↦ absurd (ground arith)
  ]
]

IsKnown-of_tests :
    (strategy : Text)
    → (text_eq strategy round_robin ≡ true) ⊎ (text_eq strategy least_connections ≡ true)
    → IsKnown strategy
IsKnown-of_tests strategy (inl e) = inl ((text_eq_iff _ _).0 e)
IsKnown-of_tests strategy (inr e) = inr ((text_eq_iff _ _).0 e)

tests_of_known :
    (strategy : Text)
    → IsKnown strategy
    → (not (text_eq strategy round_robin) && not (text_eq strategy least_connections)) ≡ false
tests_of_known strategy (inl e) = rw ((text_eq_iff strategy round_robin).1 e)
tests_of_known strategy (inr e) = ground (arith, (text_eq_iff strategy least_connections).1 e)

new_pool-checks :
    (url : Text) (urls : List Text) (strategy : Text) (p : Pool)
    → new_pool_with_strategy (url ∷ urls) strategy ≡ ok p
    → ((text_eq strategy round_robin ≡ true) ⊎ (text_eq strategy least_connections ≡ true))
      × ((bs : List Backend) × (new_backends (url ∷ urls) ≡ ok bs))
unfolding new_pool_with_strategy
new_pool-checks url urls strategy p e = elim (Result-cases (new_backends (url ∷ urls))) [
  | inl (bs, made) ↦ (ground arith, (bs, made))
  | inr (e', failed) ↦ absurd (ground arith)
]

-- A pool is made exactly when there is a URL, the strategy is one of the two, and no URL is blank.
-- It then has the URLs' backends in order, all healthy and idle, the given strategy, and the cursor
-- at the first backend.
pub new_pool_with_strategy_iff :
    (urls : List Text) (strategy : Text)
    → ((p : Pool) × (new_pool_with_strategy urls strategy ≡ ok p) × IsNewPool urls strategy p)
      ↔ ((urls ≢ []) × IsKnown strategy × All (λ url. ¬ IsBlank url) urls)
unfolding new_pool_with_strategy
new_pool_with_strategy_iff [] strategy =
    ((λ made. absurd (ground arith)), λ conditions. absurd (conditions.0 refl))
new_pool_with_strategy_iff (url ∷ urls) strategy = (
  (λ made.
      let (known, (bs, backends)) = new_pool-checks url urls strategy made.0 made.1 in
      ((λ e. cc), IsKnown-of_tests strategy known, new_backends-All (url ∷ urls) bs backends)),
  λ conditions.
      let (bs, made, members, fresh) = new_backends-ok (url ∷ urls) conditions.2 in
      (
        record { backends = bs; strategy = strategy; next = 0 },
        ground (arith, tests_of_known strategy conditions.1),
        record { members = members; fresh = fresh; first = refl; chosen = refl },
      ),
)
