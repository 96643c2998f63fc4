-- ===== src/Breaker/Tests.antt =====
-- Runs of the breaker of internal/breaker/breaker.go, and the theorems at concrete breakers.
use gatex.Prelude.{
  length, ◌+◌, ◌≤◌, ◌≡◌, ◌≢◌, refl, true, false, List, [], ◌∷◌, ok, err, arith, if◌then◌else◌,
}
use gatex.Prelude.Int.{pos, negsuc}
use gatex.Breaker.Probes.{
  Event, on_acquire, on_record, on_cancel, on_transition, unshared, run, live, run-live,
}
use gatex.Breaker.Recovery.{acquire_times, report, all_true, recovery_cycle}
use gatex.Breaker.Tripping.{request, stays_closed, no_full_streak, stays_closed-no_full_streak}
use gatex.Breaker.Validity.{IsValid}
use gatex.Breaker.{
  state_closed, state_open, state_half_open, Breaker, Config, Permit, err_open,
  err_half_open_probe_limit, err_invalid_failure_threshold, new, new_with_config,
  new_with_failure_threshold, acquire, record_permit,
}

abbrev two_failures : Config
two_failures = record {
  failure_threshold = pos 2;
  open_timeout = pos 10;
  half_open_max_requests = pos 2;
}

abbrev fresh : Breaker
fresh = record {
  state = state_closed;
  failure_threshold = 2;
  consecutive_failures = 0;
  open_timeout = 10;
  half_open_max_requests = 2;
  opened_at = 0;
  generation = 0;
  half_open_admitted = 0;
  half_open_successes = 0;
}

abbrev failed : Breaker
failed = record fresh {
  state = state_open;
  consecutive_failures = 2;
  opened_at = 7;
  generation = 1;
}

built : new_with_config two_failures true ≡ ok fresh
unfolding new_with_config
built = refl

negative : new_with_failure_threshold (negsuc 0) ≡ err err_invalid_failure_threshold
unfolding new_with_failure_threshold
negative = refl

default_threshold : new.failure_threshold ≡ 5
unfolding new
default_threshold = refl

two_failures_open : request (7, false) (request (5, false) fresh) ≡ failed
unfolding request acquire record_permit
two_failures_open = refl

rejected : acquire 16 failed ≡ (failed, err err_open)
unfolding acquire
rejected = refl

fresh-IsValid : IsValid fresh
fresh-IsValid = ground arith

failed-IsValid : IsValid failed
failed-IsValid = ground arith

abbrev stale_permit : Permit
stale_permit = record { generation = 0; probe = false; used = false }

stays_closed-no_full_streak_example :
    stays_closed ((1, false) ∷ (2, true) ∷ (3, false) ∷ []) fresh
    ≡ no_full_streak 2 0 ((1, false) ∷ (2, true) ∷ (3, false) ∷ [])
stays_closed-no_full_streak_example =
    stays_closed-no_full_streak ((1, false) ∷ (2, true) ∷ (3, false) ∷ []) fresh fresh-IsValid refl

recovery_cycle_example :
    let (probing, permits) = acquire_times 17 2 failed in
    (length permits ≡ 2)
    × (acquire 17 probing ≡ (probing, err err_half_open_probe_limit))
    × ((report 20 permits (true ∷ true ∷ []) probing).state
        ≡ (if all_true (true ∷ true ∷ []) then state_closed else state_open))
recovery_cycle_example =
    recovery_cycle 17 20 (true ∷ true ∷ []) failed failed-IsValid refl (omega arith) refl

abbrev events : List Event
events =
    on_transition 3 state_open
    ∷ on_acquire 13
    ∷ on_acquire 14
    ∷ on_record 1 15 true
    ∷ on_cancel 0
    ∷ []

run-live_example :
    (live (run events (unshared fresh)).breaker.generation (run events (unshared fresh)).permits
      ≤ 2)
    × ((run events (unshared fresh)).breaker.state ≡ state_half_open
        → ((run events (unshared fresh)).breaker.half_open_admitted
            ≡ (run events (unshared fresh)).breaker.half_open_successes
              + live
                  (run events (unshared fresh)).breaker.generation
                  (run events (unshared fresh)).permits)
          × ((run events (unshared fresh)).breaker.half_open_admitted ≤ 2))
    × ((run events (unshared fresh)).breaker.state ≢ state_half_open
        → live
            (run events (unshared fresh)).breaker.generation
            (run events (unshared fresh)).permits
          ≡ 0)
run-live_example = run-live two_failures true events built (omega arith)
