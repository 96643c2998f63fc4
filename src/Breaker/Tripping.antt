-- ===== src/Breaker/Tripping.antt =====
-- Sequential traffic through a closed breaker of internal/breaker/breaker.go: when it opens.
use gatex.Prelude.{
  ℕ, ◌+◌, ◌<◌, ◌≡◌, refl, Bool, true, false, List, [], ◌∷◌, some, ok, err, arith, ltb, ◌&&◌, ◌||◌,
  length, if◌then◌else◌, Bool-cases, inl, inr,
}
use gatex.Breaker.Validity.{IsValid}
use gatex.Breaker.{
  State, state_closed, state_open, state_eq, Breaker, err_open, acquire, record_permit,
}

-- One request: a permit, if the breaker admits it, and then the permit's outcome.
unfoldable pub request : ℕ × Bool → Breaker → Breaker
request (now, success) b = elim (acquire now b).1 [
  | ok p ↦ (record_permit now success (some p) (acquire now b).0).0
  | err e ↦ (acquire now b).0
]

-- The breaker is closed after every one of the requests.
pub stays_closed : List (ℕ × Bool) → Breaker → Bool
stays_closed [] b = true
stays_closed (r ∷ rs) b = state_eq (request r b).state state_closed && stays_closed rs (request r b)

-- No run of failures reaches the threshold; `streak` failures in a row came before.
pub no_full_streak : ℕ → ℕ → List (ℕ × Bool) → Bool
no_full_streak threshold streak [] = true
no_full_streak threshold streak ((_, success) ∷ rs) =
    (success || ltb (streak + 1) threshold)
    && no_full_streak threshold (if success then 0 else streak + 1) rs

-- What one request does to a closed breaker.
request_closed :
    (now : ℕ) (success : Bool) (b : Breaker)
    → IsValid b
    → b.state ≡ state_closed
    → IsValid (request (now, success) b)
      × ((request (now, success) b).failure_threshold ≡ b.failure_threshold)
      × (state_eq (request (now, success) b).state state_closed
          ≡ (success || ltb (b.consecutive_failures + 1) b.failure_threshold))
      × ((request (now, success) b).state ≡ state_closed
          → (request (now, success) b).consecutive_failures
            ≡ (if success then 0 else b.consecutive_failures + 1))
unfolding request acquire record_permit
request_closed now success b v c = ground arith

state_closed_of_eq : (s : State) → state_eq s state_closed ≡ true → s ≡ state_closed
state_closed_of_eq s h = ground arith

-- From a valid closed breaker, the requests of a sequence leave it closed one after another exactly
-- when no run of consecutive failures reaches its threshold, the failures counted before included.
pub stays_closed-no_full_streak :
    (rs : List (ℕ × Bool)) (b : Breaker)
    → IsValid b
    → b.state ≡ state_closed
    → stays_closed rs b ≡ no_full_streak b.failure_threshold b.consecutive_failures rs
unfolding stays_closed no_full_streak
stays_closed-no_full_streak [] b v c = refl
stays_closed-no_full_streak ((now, success) ∷ rs) b v c =
    let (v', same, test, streak) = request_closed now success b v c in
    elim (Bool-cases (state_eq (request (now, success) b).state state_closed)) [
      | inl closed ↦
          let c' : (request (now, success) b).state ≡ state_closed = state_closed_of_eq _ closed in
          ground (arith, stays_closed-no_full_streak rs (request (now, success) b) v' c', streak c')
      | inr other ↦ ground arith
    ]

-- The breaker after failing requests at the given times.
pub fail_at : List ℕ → Breaker → Breaker
fail_at [] b = b
fail_at (t ∷ ts) b = fail_at ts (request (t, false) b)

-- From a valid closed breaker, failing requests that bring the count up to the threshold, the last
-- of them at time `t`, leave it open since `t`, and each call of `Acquire` before the timeout then
-- fails with `ErrOpen` and changes nothing.
pub fail_at-opens :
    (ts : List ℕ) (t now : ℕ) (b : Breaker)
    → IsValid b
    → b.state ≡ state_closed
    → b.consecutive_failures + length ts + 1 ≡ b.failure_threshold
    → now < t + b.open_timeout
    → ((request (t, false) (fail_at ts b)).state ≡ state_open)
      × ((request (t, false) (fail_at ts b)).opened_at ≡ t)
      × (acquire now (request (t, false) (fail_at ts b))
          ≡ (request (t, false) (fail_at ts b), err err_open))
unfolding fail_at request acquire record_permit
fail_at-opens [] t now b v c e h = ground arith
fail_at-opens (s ∷ ts) t now b v c e h =
    fail_at-opens ts t now (request (s, false) b) (request_closed s false b v c).0 (ground arith)
      (ground arith) (ground arith)
