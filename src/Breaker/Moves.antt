-- ===== src/Breaker/Moves.antt =====
-- The edges of the state machine that the methods of internal/breaker/breaker.go take.
use gatex.Prelude.{ℕ, ◌+◌, ◌%◌, ◌^◌, ◌≡◌, ◌⊎◌, Bool, true, Option, arith}
use gatex.Breaker.{
  State, Breaker, Permit, acquire, record_permit, cancel, transition_to, valid_transition,
}

-- A call of one of the breaker's and the permit's methods.
pub data Call : Type 0 where
  call_acquire : ℕ → Call
  call_record : ℕ → Bool → Option Permit → Call
  call_cancel : Option Permit → Call
  call_transition : ℕ → State → Call

unfoldable pub perform : Call → Breaker → Breaker
perform (call_acquire now) b = (acquire now b).0
perform (call_record now success p) b = (record_permit now success p b).0
perform (call_cancel p) b = (cancel p b).0
perform (call_transition now next) b = (transition_to now next b).0

-- The same state and generation, or an edge of the recovery cycle and the next generation.
abbrev pub Moves : Breaker → Breaker → Type 0
Moves b b' =
    ((b'.state ≡ b.state) × (b'.generation ≡ b.generation))
    ⊎ ((valid_transition b.state b'.state ≡ true) × (b'.generation ≡ (b.generation + 1) % 2 ^ 64))

acquire-Moves : (now : ℕ) (b : Breaker) → Moves b (acquire now b).0
unfolding acquire valid_transition
acquire-Moves now b = ground arith

record_permit-Moves :
    (now : ℕ) (success : Bool) (p : Option Permit) (b : Breaker)
    → Moves b (record_permit now success p b).0
unfolding record_permit valid_transition
record_permit-Moves now success p b = ground arith

cancel-Moves : (p : Option Permit) (b : Breaker) → Moves b (cancel p b).0
unfolding cancel
cancel-Moves p b = ground arith

transition_to-Moves : (now : ℕ) (next : State) (b : Breaker) → Moves b (transition_to now next b).0
unfolding transition_to
transition_to-Moves now next b = ground arith

-- Whatever a method is called with, it leaves the breaker in its state and generation, or takes it
-- along a valid edge of the recovery cycle to the next generation, a 64-bit number.
pub perform-Moves : (c : Call) (b : Breaker) → Moves b (perform c b)
unfolding perform
perform-Moves (call_acquire now) b = acquire-Moves now b
perform-Moves (call_record now success p) b = record_permit-Moves now success p b
perform-Moves (call_cancel p) b = cancel-Moves p b
perform-Moves (call_transition now next) b = transition_to-Moves now next b
