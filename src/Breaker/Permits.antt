-- ===== src/Breaker/Permits.antt =====
-- The permits of internal/breaker/breaker.go: one result each, and only in their own generation.
use gatex.Prelude.{
  ◌+◌, ◌≤◌, ◌<◌, ◌⊎◌, true, false, ok, err, ℕ, ◌≡◌, ◌≢◌, refl, Bool, Option, none, some, arith,
}
use gatex.Breaker.{
  state_closed, AcquireError, state_open, state_half_open, acquire, Breaker, Permit, record_permit,
  cancel,
}

-- What the holder of a permit can do with it.
pub data Verdict : Type 0 where
  recorded : ℕ → Bool → Verdict
  cancelled : Verdict

pub settle : Verdict → Option Permit → Breaker → Breaker × Option Permit
settle (recorded now success) p b = record_permit now success p b
settle cancelled p b = cancel p b

-- Once a permit has been settled, settling it again, in whatever way and whatever the breaker has
-- become, changes neither the breaker nor the permit.
pub settle_once :
    (u v : Verdict) (p : Option Permit) (b c : Breaker)
    → settle v (settle u p b).1 c ≡ (c, (settle u p b).1)
unfolding settle record_permit cancel
settle_once (recorded t s) (recorded now success) none b c = refl
settle_once (recorded t s) cancelled none b c = refl
settle_once cancelled (recorded now success) none b c = refl
settle_once cancelled cancelled none b c = refl
settle_once (recorded t s) (recorded now success) (some p) b c = ground arith
settle_once (recorded t s) cancelled (some p) b c = ground arith
settle_once cancelled (recorded now success) (some p) b c = ground arith
settle_once cancelled cancelled (some p) b c = ground arith

-- A permit of another generation than the breaker's leaves the breaker as it is.
pub settle_obsolete :
    (u : Verdict) (p : Permit) (b : Breaker)
    → p.generation ≢ b.generation
    → (settle u (some p) b).0 ≡ b
unfolding settle record_permit cancel
settle_obsolete (recorded now success) p b h = ground arith
settle_obsolete cancelled p b h = ground arith

-- A permit just given, cancelled: the slot is free again.
pub cancel-acquire :
    (now : ℕ) (b : Breaker) (permit : Permit)
    → (acquire now b).1 ≡ ok permit
    → ((cancel (some permit) (acquire now b).0).0 ≡ b)
      ⊎ ((b.state ≡ state_open)
          × (b.opened_at + b.open_timeout ≤ now)
          × ((cancel (some permit) (acquire now b).0).0.state ≡ state_half_open)
          × ((cancel (some permit) (acquire now b).0).0.half_open_admitted ≡ 0)
          × ((cancel (some permit) (acquire now b).0).0.half_open_successes ≡ 0))
unfolding acquire cancel
cancel-acquire now b permit e = ground arith

-- A refused call changes nothing.
pub acquire-refused :
    (now : ℕ) (b : Breaker) (e : AcquireError)
    → 0 < b.half_open_max_requests
    → (acquire now b).1 ≡ err e
    → (acquire now b).0 ≡ b
unfolding acquire
acquire-refused now b e probes h = ground arith

pub acquire-closed :
    (now : ℕ) (b : Breaker) → b.state ≡ state_closed → (p : Permit) × ((acquire now b).1 ≡ ok p)
unfolding acquire
acquire-closed now b e =
    (record { generation = b.generation; probe = false; used = false }, ground arith)

-- The streak of a closed breaker after a request that nothing interleaves with.
pub record_permit-closed :
    (start finish : ℕ) (success : Bool) (b : Breaker) (p : Permit)
    → b.state ≡ state_closed
    → (acquire start b).1 ≡ ok p
    → (success ≡ true
        → ((record_permit finish success (some p) (acquire start b).0).0.state ≡ state_closed)
          × ((record_permit finish success (some p) (acquire start b).0).0.consecutive_failures
              ≡ 0))
      × (success ≡ false
          → ((record_permit finish success (some p) (acquire start b).0).0.consecutive_failures
              ≡ b.consecutive_failures + 1)
            × (b.consecutive_failures + 1 ≡ b.failure_threshold
                → ((record_permit finish success (some p) (acquire start b).0).0.state ≡ state_open)
                  × ((record_permit finish success (some p) (acquire start b).0).0.opened_at
                      ≡ finish))
            × (b.consecutive_failures + 1 ≢ b.failure_threshold
                → (record_permit finish success (some p) (acquire start b).0).0.state
                  ≡ state_closed))
unfolding acquire record_permit
record_permit-closed start finish success b p e h = ground arith

-- No call changes the number of probes.
pub acquire-half_open_max_requests :
    (now : ℕ) (b : Breaker) → (acquire now b).0.half_open_max_requests ≡ b.half_open_max_requests
unfolding acquire
acquire-half_open_max_requests now b = ground arith

pub record-half_open_max_requests :
    (now : ℕ) (success : Bool) (p : Option Permit) (b : Breaker)
    → (record_permit now success p b).0.half_open_max_requests ≡ b.half_open_max_requests
unfolding record_permit
record-half_open_max_requests now success p b = ground arith

pub cancel-half_open_max_requests :
    (p : Option Permit) (b : Breaker)
    → (cancel p b).0.half_open_max_requests ≡ b.half_open_max_requests
unfolding cancel
cancel-half_open_max_requests p b = ground arith
