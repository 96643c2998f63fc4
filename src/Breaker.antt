-- ===== src/Breaker.antt =====
-- internal/breaker/breaker.go: the circuit breaker of one backend pool. A method takes the
-- breaker and returns the new one; the clock's reading is an argument, in nanoseconds. Every
-- method holds the breaker's mutex from its first read to its last write, so it is one step.
pub mod Permits
pub mod Moves
pub mod Validity
pub mod Tripping
pub mod Probes
pub mod Recovery
mod Tests
use gatex.Prelude.{
  ℕ, ◌+◌, ◌-◌, ◌*◌, ◌%◌, ◌^◌, Bool, true, false, not, ◌&&◌, ◌||◌, Option, none, some, Result, ok,
  err, ltb, leb, ◌==◌, if◌then◌else◌,
}
use gatex.Prelude.Int.{ℤ, is_neg, is_zero, nonneg}
use gatex.Prelude.Text.{Text, bytes}

-- `State` is a `uint8` with three named values; any other value is `state_other`.
pub data State : Type 0 where
  state_closed state_open state_half_open : State
  state_other : ℕ → State

abbrev pub state_eq : State → State → Bool
state_eq state_closed state_closed = true
state_eq state_open state_open = true
state_eq state_half_open state_half_open = true
state_eq (state_other a) (state_other b) = a == b
state_eq _ _ = false

pub data AcquireError : Type 0 where
  err_open err_half_open_probe_limit : AcquireError

pub data ConfigError : Type 0 where
  err_invalid_failure_threshold err_invalid_open_timeout : ConfigError
  err_invalid_half_open_max_requests nil_clock : ConfigError

pub data TransitionError : Type 0 where
  err_invalid_state : State → TransitionError
  err_invalid_transition : State → State → TransitionError

abbrev pub default_failure_threshold : ℕ
default_failure_threshold = 5

abbrev pub default_open_timeout : ℕ
default_open_timeout = 30 * 10 ^ 9

abbrev pub default_half_open_max_requests : ℕ
default_half_open_max_requests = 1

pub record Config : Type 0 where
  pub failure_threshold : ℤ
  pub open_timeout : ℤ
  pub half_open_max_requests : ℤ

pub record Breaker : Type 0 where
  pub state : State
  pub failure_threshold : ℕ
  pub consecutive_failures : ℕ
  pub open_timeout : ℕ
  pub half_open_max_requests : ℕ
  pub opened_at : ℕ
  pub generation : ℕ
  pub half_open_admitted : ℕ
  pub half_open_successes : ℕ

-- `used` says that the permit's `sync.Once` has run.
pub record Permit : Type 0 where
  pub generation : ℕ
  pub probe : Bool
  pub used : Bool

abbrev closed_breaker : ℕ → ℕ → ℕ → Breaker
closed_breaker threshold timeout probes = record {
  state = state_closed;
  failure_threshold = threshold;
  consecutive_failures = 0;
  open_timeout = timeout;
  half_open_max_requests = probes;
  opened_at = 0;
  generation = 0;
  half_open_admitted = 0;
  half_open_successes = 0;
}

new : Breaker
new = closed_breaker default_failure_threshold default_open_timeout default_half_open_max_requests

-- `value`, or the default where it is zero; the value is not negative.
abbrev or_default : ℤ → ℕ → ℕ
or_default value default = if is_zero value then default else nonneg value

-- `has_clock` says that the clock is not nil.
unfoldable pub new_with_config : Config → Bool → Result ConfigError Breaker
new_with_config config has_clock =
    if is_neg config.failure_threshold
    then err err_invalid_failure_threshold
    else if is_neg config.open_timeout
    then err err_invalid_open_timeout
    else if is_neg config.half_open_max_requests
    then err err_invalid_half_open_max_requests
    else if not has_clock
    then err nil_clock
    else ok (
        closed_breaker (or_default config.failure_threshold default_failure_threshold)
          (or_default config.open_timeout default_open_timeout)
          (or_default config.half_open_max_requests default_half_open_max_requests))

pub new_with_failure_threshold : ℤ → Result ConfigError Breaker
unfolding new_with_config
new_with_failure_threshold threshold =
    if is_neg threshold || is_zero threshold
    then err err_invalid_failure_threshold
    else new_with_config
        (record {
          failure_threshold = threshold;
          open_timeout = ℤ.pos 0;
          half_open_max_requests = ℤ.pos 0;
        })
        true

valid : State → Bool
valid s = state_eq s state_closed || state_eq s state_open || state_eq s state_half_open

pub valid_transition : State → State → Bool
valid_transition state_closed next = state_eq next state_open
valid_transition state_open next = state_eq next state_half_open
valid_transition state_half_open next = state_eq next state_closed || state_eq next state_open
valid_transition (state_other code) next = false

transition_locked : ℕ → State → Breaker → Breaker
transition_locked now next b = record b {
  state = next;
  generation = (b.generation + 1) % 2 ^ 64;
  half_open_admitted = 0;
  half_open_successes = 0;
  opened_at = if state_eq next state_open then now else b.opened_at;
  consecutive_failures = if state_eq next state_closed then 0 else b.consecutive_failures;
}

-- The second half of `Acquire`: the probe slot, if the breaker is half-open, and the permit.
admit : Breaker → Breaker × Result AcquireError Permit
admit b =
    if state_eq b.state state_half_open
    then if leb b.half_open_max_requests b.half_open_admitted
      then (b, err err_half_open_probe_limit)
      else (
        record b { half_open_admitted = b.half_open_admitted + 1 },
        ok (record { generation = b.generation; probe = true; used = false }),
      )
    else (b, ok (record { generation = b.generation; probe = false; used = false }))

unfoldable pub acquire : ℕ → Breaker → Breaker × Result AcquireError Permit
unfolding admit transition_locked
acquire now b =
    if state_eq b.state state_open
    then if ltb now (b.opened_at + b.open_timeout)
      then (b, err err_open)
      else admit (transition_locked now state_half_open b)
    else admit b

record_probe : ℕ → Bool → Breaker → Breaker
record_probe now success b =
    if not (state_eq b.state state_half_open)
    then b
    else if not success
    then transition_locked now state_open b
    else let b' = record b { half_open_successes = b.half_open_successes + 1 } in
      if b'.half_open_successes == b'.half_open_max_requests
      then transition_locked now state_closed b'
      else b'

record_normal : ℕ → Bool → Breaker → Breaker
record_normal now success b =
    if not (state_eq b.state state_closed)
    then b
    else if success
    then record b { consecutive_failures = 0 }
    else let b' = record b { consecutive_failures = b.consecutive_failures + 1 } in
      if b'.consecutive_failures == b'.failure_threshold
      then transition_locked now state_open b'
      else b'

-- `Breaker.record`.
record_outcome : ℕ → ℕ → Bool → Bool → Breaker → Breaker
unfolding record_probe record_normal transition_locked
record_outcome now generation probe success b =
    if not (b.generation == generation)
    then b
    else if probe
    then record_probe now success b
    else record_normal now success b

-- `Breaker.cancel`; `-` stops at 0, as the code's test does.
cancel_permit : ℕ → Bool → Breaker → Breaker
cancel_permit generation probe b =
    if not (b.generation == generation) || not probe || not (state_eq b.state state_half_open)
    then b
    else if ltb 0 b.half_open_admitted
    then record b { half_open_admitted = b.half_open_admitted - 1 }
    else b

-- `RecordSuccess` and `RecordFailure`, on a permit pointer; `none` is a nil permit.
unfoldable pub record_permit : ℕ → Bool → Option Permit → Breaker → Breaker × Option Permit
unfolding record_outcome
record_permit now success none b = (b, none)
record_permit now success (some p) b =
    if p.used
    then (b, some p)
    else (record_outcome now p.generation p.probe success b, some (record p { used = true }))

-- `Permit.Cancel`.
unfoldable pub cancel : Option Permit → Breaker → Breaker × Option Permit
unfolding cancel_permit
cancel none b = (b, none)
cancel (some p) b =
    if p.used
    then (b, some p)
    else (cancel_permit p.generation p.probe b, some (record p { used = true }))

pub transition_to : ℕ → State → Breaker → Breaker × Option TransitionError
unfolding valid valid_transition transition_locked
transition_to now next b =
    if not (valid next)
    then (b, some (err_invalid_state next))
    else if state_eq b.state next
    then (b, none)
    else if not (valid_transition b.state next)
    then (b, some (err_invalid_transition b.state next))
    else (transition_locked now next b, none)
