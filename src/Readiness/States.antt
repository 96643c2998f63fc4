-- ===== src/Readiness/States.antt =====
-- The gauges of internal/metrics/circuit_breaker.go.
use gatex.Prelude.{
  ◌≡◌, refl, ◌∙◌, ℕ, ◌+◌, Bool, true, List, [], ◌∷◌, ◌++◌, if◌then◌else◌, length, All, arith,
}
use gatex.Prelude.Text.{Text, text_eq}
use gatex.Breaker.{State, state_closed, state_open, state_half_open, state_other, state_eq}
use gatex.Readiness.{Gauge, breaker_states, state_string, gauges_of, collect}

-- A breaker's state is one of the three that have a name.
abbrev pub IsNamed : State → Type 0
IsNamed (state_other n) = ⊥
IsNamed s = Unit

-- The sum of the gauges of a pool with this label.
pub total : (Text → Bool) → List Gauge → ℕ
total test [] = 0
total test ((pool, state, value) ∷ gs) = if test state then value + total test gs else total test gs

abbrev all_states : Text → Bool
all_states s = true

-- Of the three gauges of a pool, the one of its state is 1 and the other two are 0; so are all three
-- for a state without a name.
gauges_of_lem :
    (pool : Text) (current s : State)
    → IsNamed current
    → IsNamed s
    → (total all_states (gauges_of pool current breaker_states) ≡ 1)
      × (total (text_eq (state_string s)) (gauges_of pool current breaker_states)
          ≡ (if state_eq current s then 1 else 0))
unfolding total gauges_of text_eq state_string
gauges_of_lem pool state_closed state_closed h k = (refl, refl)
gauges_of_lem pool state_closed state_open h k = (refl, refl)
gauges_of_lem pool state_closed state_half_open h k = (refl, refl)
gauges_of_lem pool state_open state_closed h k = (refl, refl)
gauges_of_lem pool state_open state_open h k = (refl, refl)
gauges_of_lem pool state_open state_half_open h k = (refl, refl)
gauges_of_lem pool state_half_open state_closed h k = (refl, refl)
gauges_of_lem pool state_half_open state_open h k = (refl, refl)
gauges_of_lem pool state_half_open state_half_open h k = (refl, refl)
gauges_of_lem pool (state_other n) s h k = absurd h
gauges_of_lem pool state_closed (state_other n) h k = absurd k
gauges_of_lem pool state_open (state_other n) h k = absurd k
gauges_of_lem pool state_half_open (state_other n) h k = absurd k

total-append :
    (test : Text → Bool) (xs ys : List Gauge)
    → total test (xs ++ ys) ≡ total test xs + total test ys
unfolding total
total-append test [] ys = omega arith
total-append test ((p, s, x) ∷ xs) ys = ground (arith, total-append test xs ys)

-- How many pools are in a state.
pub in_state : State → List (Text × State) → ℕ
in_state s [] = 0
in_state s ((pool, current) ∷ states) = (if state_eq current s then 1 else 0) + in_state s states

-- What is collected: where all breakers are in one of the three named states, the gauges add up to the
-- number of pools, and those of one state to the number of pools whose breaker is in it.
pub collect_lem :
    (states : List (Text × State)) (s : State)
    → All (λ e. IsNamed e.1) states
    → IsNamed s
    → (total (λ t. true) (collect states) ≡ length states)
      × (total (text_eq (state_string s)) (collect states) ≡ in_state s states)
unfolding collect in_state total
collect_lem [] s h k = (refl, refl)
collect_lem ((pool, current) ∷ states) s h k =
    let (a, b) = gauges_of_lem pool current s h.0 k in
    let (e, f) = collect_lem states s h.1 k in
    let g = gauges_of pool current breaker_states in
    (
      total-append (λ t. true) g (collect states) ∙ ground (arith, a, e),
      total-append (text_eq (state_string s)) g (collect states) ∙ ground (arith, b, f),
    )
