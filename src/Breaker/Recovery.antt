-- ===== src/Breaker/Recovery.antt =====
-- A batch of recovery probes of internal/breaker/breaker.go, from the open state to its verdict.
use gatex.Prelude.{
  ℕ, zero, suc, ◌+◌, ◌%◌, ◌^◌, ◌<◌, ◌≤◌, ◌≡◌, ◌≢◌, refl, Bool, true, false, List, [], ◌∷◌, some, ok,
  err, All, arith, ◌&&◌, if◌then◌else◌, length,
}
use gatex.Breaker.Validity.{IsValid}
use gatex.Breaker.{
  state_closed, state_open, state_half_open, Breaker, Permit, err_half_open_probe_limit, acquire,
  record_permit,
}

-- `n` calls of `Acquire`, with the permits that they give.
pub acquire_times : ℕ → ℕ → Breaker → Breaker × List Permit
acquire_times now zero b = (b, [])
acquire_times now (suc n) b =
    let rest = acquire_times now n (acquire now b).0 in
    elim (acquire now b).1 [ ok permit ↦ (rest.0, permit ∷ rest.1) | err e ↦ rest ]

-- The outcomes of the permits are recorded, one after another.
pub report : ℕ → List Permit → List Bool → Breaker → Breaker
report now (p ∷ ps) (success ∷ rest) b = report now ps rest (record_permit now success (some p) b).0
report now [] os b = b
report now (p ∷ ps) [] b = b

pub all_true : List Bool → Bool
all_true [] = true
all_true (b ∷ bs) = b && all_true bs

-- A half-open breaker with `n` slots taken has room for the others.
record HasProbes (n g : ℕ) (b c : Breaker) : Type 0 where
  half_open : c.state ≡ state_half_open
  current : c.generation ≡ g
  slots : c.half_open_admitted ≡ n
  no_success : c.half_open_successes ≡ 0
  size : c.half_open_max_requests ≡ b.half_open_max_requests

-- A permit of a probe in a generation.
abbrev probe_of : ℕ → Permit
probe_of generation = record { generation = generation; probe = true; used = false }

abbrev AreProbes : ℕ → List Permit → Type 0
AreProbes g = All (λ p. p ≡ probe_of g)

acquire-given :
    (now k g : ℕ) (b c : Breaker)
    → HasProbes k g b c
    → k < b.half_open_max_requests
    → ((acquire now c).1 ≡ ok (probe_of g)) × HasProbes (suc k) g b (acquire now c).0
unfolding acquire
acquire-given now k g b c p h = ground arith

acquire_times-given :
    (now n : ℕ) (b : Breaker) (p : Permit)
    → (acquire now b).1 ≡ ok p
    → let rest = acquire_times now n (acquire now b).0 in
      acquire_times now (suc n) b ≡ (rest.0, p ∷ rest.1)
unfolding acquire_times
acquire_times-given now n b p e = rw (e, acquire_times) refl

acquire_times-HasProbes :
    (now n k g : ℕ) (b c : Breaker)
    → HasProbes k g b c
    → k + n ≤ b.half_open_max_requests
    → let r = acquire_times now n c in
      HasProbes (k + n) g b r.0 × AreProbes g r.1 × (length r.1 ≡ n)
unfolding acquire_times
acquire_times-HasProbes now zero k g b c p h = (ground arith, tt, refl)
acquire_times-HasProbes now (suc n) k g b c p h =
    let (given, after) = acquire-given now k g b c p (omega arith) in
    let (last, all, many) =
      acquire_times-HasProbes now n (suc k) g b (acquire now c).0 after (omega arith) in
    rw (acquire_times-given now n c (probe_of g) given)
      (ground (arith, last), (refl, all), omega arith)

-- The first call after the timeout starts the batch.
acquire-HasProbes :
    (now : ℕ) (b : Breaker)
    → IsValid b
    → b.state ≡ state_open
    → b.opened_at + b.open_timeout ≤ now
    → let g = (b.generation + 1) % 2 ^ 64 in
      ((acquire now b).1 ≡ ok (probe_of g)) × HasProbes 1 g b (acquire now b).0
unfolding acquire
acquire-HasProbes now b v s h = ground arith

-- A whole batch.
batch-HasProbes :
    (now n : ℕ) (b : Breaker)
    → IsValid b
    → b.state ≡ state_open
    → b.opened_at + b.open_timeout ≤ now
    → suc n ≤ b.half_open_max_requests
    → let g = (b.generation + 1) % 2 ^ 64 in
      let r = acquire_times now (suc n) b in
      HasProbes (suc n) g b r.0 × AreProbes g r.1 × (length r.1 ≡ suc n)
batch-HasProbes now n b v s h room =
    let g = (b.generation + 1) % 2 ^ 64 in
    let (given, first) = acquire-HasProbes now b v s h in
    let (last, all, many) =
      acquire_times-HasProbes now n 1 g b (acquire now b).0 first (omega arith) in
    rw (acquire_times-given now n b (probe_of g) given)
      (ground (arith, last), (refl, all), omega arith)

-- Outcomes of another generation change nothing.
report_stale :
    (now g : ℕ) (ps : List Permit) (os : List Bool) (b : Breaker)
    → AreProbes g ps
    → b.generation ≢ g
    → report now ps os b ≡ b
unfolding report record_permit
report_stale now g [] os b a h = refl
report_stale now g (p ∷ ps) [] b a h = refl
report_stale now g (p ∷ ps) (o ∷ os) b a h = ground (arith, report_stale now g ps os b a.1 h)

report_verdict :
    (now g : ℕ) (p : Permit) (ps : List Permit) (o : Bool) (os : List Bool) (c : Breaker)
    → AreProbes g (p ∷ ps)
    → length ps ≡ length os
    → c.state ≡ state_half_open
    → c.generation ≡ g
    → c.half_open_successes + length (o ∷ os) ≡ c.half_open_max_requests
    → (report now (p ∷ ps) (o ∷ os) c).state
      ≡ (if all_true (o ∷ os) then state_closed else state_open)
unfolding report record_permit all_true
report_verdict now g p ps false os c a m s e h =
    ground (arith, report_stale now g ps os (record_permit now false (some p) c).0 a.1)
report_verdict now g p [] true [] c a m s e h = ground arith
report_verdict now g p (q ∷ ps) true [] c a m s e h = absurd (omega arith)
report_verdict now g p [] true (o ∷ os) c a m s e h = absurd (omega arith)
report_verdict now g p (q ∷ ps) true (o ∷ os) c a m s e h =
    report_verdict now g q ps o os (record_permit now true (some p) c).0 a.1 (omega arith)
      (ground arith) (ground arith) (ground arith)

-- A batch of at least one.
report_batch :
    (now g : ℕ) (ps : List Permit) (o : Bool) (os : List Bool) (c : Breaker)
    → AreProbes g ps
    → length ps ≡ length (o ∷ os)
    → c.state ≡ state_half_open
    → c.generation ≡ g
    → c.half_open_successes + length (o ∷ os) ≡ c.half_open_max_requests
    → (report now ps (o ∷ os) c).state ≡ (if all_true (o ∷ os) then state_closed else state_open)
report_batch now g [] o os c a m s e h = absurd (omega arith)
report_batch now g (p ∷ ps) o os c a m s e h =
    report_verdict now g p ps o os c a (omega arith) s e h

-- On a valid open breaker whose timeout has passed, as many calls of `Acquire` as there are probe
-- slots all give a permit, and the next call fails with `ErrHalfOpenProbeLimit` and changes nothing.
-- When the outcomes of these permits are recorded, the breaker is closed if they are all successes,
-- and open if not.
pub recovery_cycle :
    (now later : ℕ) (os : List Bool) (b : Breaker)
    → IsValid b
    → b.state ≡ state_open
    → b.opened_at + b.open_timeout ≤ now
    → length os ≡ b.half_open_max_requests
    → let (probing, permits) = acquire_times now (length os) b in
      (length permits ≡ length os)
      × (acquire now probing ≡ (probing, err err_half_open_probe_limit))
      × ((report later permits os probing).state
          ≡ (if all_true os then state_closed else state_open))
recovery_cycle now later [] b v s h e = absurd (omega (arith, v.probes))
recovery_cycle now later (o ∷ os) b v s h e =
    let (p, all, many) = batch-HasProbes now (length os) b v s h (omega arith) in
    (
      many,
      unfold acquire in ground arith,
      report_batch later _ (acquire_times now (length (o ∷ os)) b).1 o os _ all many p.half_open
          p.current (omega (arith, p.no_success, p.size)),
    )
