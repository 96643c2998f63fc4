-- ===== src/Breaker/Validity.antt =====
-- The invariant of a breaker, and that the methods of internal/breaker/breaker.go keep it.
use gatex.Prelude.{ℕ, ◌≤◌, ◌<◌, ◌≡◌, Bool, true, false, Option, ok, arith}
use gatex.Breaker.Moves.{Call, call_acquire, call_record, call_cancel, call_transition, perform}
use gatex.Breaker.{
  State, state_closed, state_half_open, state_eq, Breaker, Permit, Config, acquire, record_permit,
  cancel, transition_to, new_with_config,
}

pub record IsValid (b : Breaker) : Type 0 where
  pub threshold : 0 < b.failure_threshold
  pub probes : 0 < b.half_open_max_requests
  pub streak : state_eq b.state state_closed ≡ true → b.consecutive_failures < b.failure_threshold
  pub admitted : b.half_open_admitted ≤ b.half_open_max_requests
  pub successes :
      state_eq b.state state_half_open ≡ true → b.half_open_successes < b.half_open_max_requests
  pub idle :
      state_eq b.state state_half_open ≡ false
      → (b.half_open_admitted ≡ 0) × (b.half_open_successes ≡ 0)

pub acquire-IsValid : (now : ℕ) (b : Breaker) → IsValid b → IsValid (acquire now b).0
unfolding acquire
acquire-IsValid now b v = ground arith

pub record_permit-IsValid :
    (now : ℕ) (success : Bool) (p : Option Permit) (b : Breaker)
    → IsValid b
    → IsValid (record_permit now success p b).0
unfolding record_permit
record_permit-IsValid now success p b v = ground arith

pub cancel-IsValid : (p : Option Permit) (b : Breaker) → IsValid b → IsValid (cancel p b).0
unfolding cancel
cancel-IsValid p b v = ground arith

pub transition_to-IsValid :
    (now : ℕ) (next : State) (b : Breaker) → IsValid b → IsValid (transition_to now next b).0
unfolding transition_to
transition_to-IsValid now next b v = ground arith

-- Every method, whatever it is called with, keeps a breaker valid: the threshold and the number of
-- probes are positive; a closed breaker has counted fewer failures than the threshold; the slots
-- taken stay within the number of probes; a half-open breaker has fewer successes than that; and in
-- the other states both half-open counters are zero.
pub perform-IsValid : (c : Call) (b : Breaker) → IsValid b → IsValid (perform c b)
unfolding perform
perform-IsValid (call_acquire now) b v = acquire-IsValid now b v
perform-IsValid (call_record now success p) b v = record_permit-IsValid now success p b v
perform-IsValid (call_cancel p) b v = cancel-IsValid p b v
perform-IsValid (call_transition now next) b v = transition_to-IsValid now next b v

pub new_with_config-IsValid :
    (config : Config) (has_clock : Bool) {b : Breaker}
    → new_with_config config has_clock ≡ ok b
    → IsValid b
unfolding new_with_config
new_with_config-IsValid config has_clock e = ground arith
