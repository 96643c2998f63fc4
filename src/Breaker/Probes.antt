-- ===== src/Breaker/Probes.antt =====
-- A breaker of internal/breaker/breaker.go together with the permits that it has handed out, under
-- any interleaving of the calls of its users.
pub mod Flight
use gatex.Prelude.{
  ℕ, zero, suc, ◌+◌, ◌^◌, ◌<◌, ◌≤◌, ◌≡◌, ◌≢◌, refl, ap, ◌∙◌, Bool, true, false, not, List, [], ◌∷◌,
  Option, none, some, ok, err, arith, ◌&&◌, ◌==◌, if◌then◌else◌, Option-cases, inl, inr, length,
  get_elem?, set, set_same, All,
}
use gatex.Breaker.Validity.{
  IsValid, new_with_config-IsValid, acquire-IsValid, record_permit-IsValid, cancel-IsValid,
  transition_to-IsValid,
}
use gatex.Breaker.{
  State, state_half_open, state_eq, Breaker, Config, Permit, new_with_config, acquire,
  record_permit, cancel, transition_to,
}

pub record System : Type 0 where
  pub breaker : Breaker
  pub permits : List Permit

-- A call by some goroutine; a permit is named by its place in the list.
pub data Event : Type 0 where
  on_acquire : ℕ → Event
  on_record : ℕ → ℕ → Bool → Event
  on_cancel : ℕ → Event
  on_transition : ℕ → State → Event

-- The permit's `sync.Once` is written back.
write_back : ℕ → Option Permit → List Permit → List Permit
write_back i none ps = ps
write_back i (some p) ps = set ps i p

pub step : Event → System → System
unfolding write_back
step (on_acquire now) s = elim (acquire now s.breaker).1 [
  | ok p ↦ record { breaker = (acquire now s.breaker).0; permits = p ∷ s.permits }
  | err e ↦ record s { breaker = (acquire now s.breaker).0 }
]
step (on_record i now success) s =
    let r = record_permit now success (get_elem? s.permits i) s.breaker in
    record { breaker = r.0; permits = write_back i r.1 s.permits }
step (on_cancel i) s =
    let r = cancel (get_elem? s.permits i) s.breaker in
    record { breaker = r.0; permits = write_back i r.1 s.permits }
step (on_transition now next) s = record s { breaker = (transition_to now next s.breaker).0 }

pub run : List Event → System → System
run [] s = s
run (e ∷ es) s = run es (step e s)

-- A probe of the given generation whose outcome has not been recorded.
abbrev pub is_live : ℕ → Permit → Bool
is_live g p = not p.used && p.probe && (p.generation == g)

pub live : ℕ → List Permit → ℕ
live g [] = 0
live g (p ∷ ps) = (if is_live g p then 1 else 0) + live g ps

abbrev IsOld : ℕ → Permit → Type 0
IsOld g p = p.generation ≤ g

live_old : (g h : ℕ) (ps : List Permit) → All (IsOld g) ps → g < h → live h ps ≡ 0
unfolding live
live_old g h [] a l = refl
live_old g h (p ∷ ps) (o, a) l = ground (arith, live_old g h ps a l)

All-IsOld : (g h : ℕ) (ps : List Permit) → All (IsOld g) ps → g ≤ h → All (IsOld h) ps
All-IsOld g h [] a l = tt
All-IsOld g h (p ∷ ps) (o, a) l = (omega arith, All-IsOld g h ps a l)

-- Using a permit up removes it from the count if it was live.
live-set :
    (g i : ℕ) (ps : List Permit) (p : Permit)
    → get_elem? ps i ≡ some p
    → live g (set ps i (record p { used = true })) + (if is_live g p then 1 else 0) ≡ live g ps
unfolding live
live-set g i [] p e = cc
live-set g zero (q ∷ ps) p e = ground arith
live-set g (suc i) (q ∷ ps) p e = ground (arith, live-set g i ps p e)

set-IsOld :
    (g i : ℕ) (ps : List Permit) (p : Permit)
    → get_elem? ps i ≡ some p
    → All (IsOld g) ps
    → All (IsOld g) (set ps i (record p { used = true })) × IsOld g p
set-IsOld g i [] p e a = cc
set-IsOld g zero (q ∷ ps) p e (o, a) = ground arith
set-IsOld g (suc i) (q ∷ ps) p e (o, a) = let r = set-IsOld g i ps p e a in ((o, r.0), r.1)

-- The count of admitted probes is that of the recorded successes and the live probes, and no permit
-- is of a later generation. `n` bounds the generations so far.
pub record IsAccounted (n : ℕ) (s : System) : Type 0 where
  pub valid : IsValid s.breaker
  pub early : s.breaker.generation ≤ n
  pub old : All (IsOld s.breaker.generation) s.permits
  pub slots :
      state_eq s.breaker.state state_half_open ≡ true
      → s.breaker.half_open_admitted
        ≡ s.breaker.half_open_successes + live s.breaker.generation s.permits
  pub none_live :
      state_eq s.breaker.state state_half_open ≡ false → live s.breaker.generation s.permits ≡ 0

module _ (n : ℕ) (fits : n + 1 < 2 ^ 64) (s : System) (a : IsAccounted n s) where
  g : ℕ
  g = s.breaker.generation

  acquire-IsAccounted : (now : ℕ) → IsAccounted (n + 1) (step (on_acquire now) s)
  unfolding step acquire live g
  acquire-IsAccounted now =
      let v = acquire-IsValid now s.breaker a.valid in
      ground (arith, live_old g (suc g) s.permits a.old, All-IsOld g (suc g) s.permits a.old)

  record-IsAccounted :
      (i now : ℕ) (success : Bool) → IsAccounted (n + 1) (step (on_record i now success) s)
  unfolding step write_back record_permit g
  record-IsAccounted i now success = elim (Option-cases (get_elem? s.permits i)) [
    | inl missing ↦ rw (missing, step) (ground (arith, All-IsOld g (suc g) s.permits a.old))
    | inr (p, found) ↦
        let v = record_permit-IsValid now success (some p) s.breaker a.valid in
        let used = set-IsOld g i s.permits p found a.old in
        ground (
          arith,
          found,
          set_same i s.permits p found,
          live-set g i s.permits p found,
          live_old g (suc g) (set s.permits i (record p { used = true })) used.0,
          All-IsOld g (suc g) (set s.permits i (record p { used = true })) used.0,
        )
  ]

  cancel-IsAccounted : (i : ℕ) → IsAccounted (n + 1) (step (on_cancel i) s)
  unfolding step write_back cancel g
  cancel-IsAccounted i = elim (Option-cases (get_elem? s.permits i)) [
    | inl missing ↦ ground arith
    | inr (p, found) ↦
        let v = cancel-IsValid (some p) s.breaker a.valid in
        let used = set-IsOld g i s.permits p found a.old in
        ground (arith, found, set_same i s.permits p found, live-set g i s.permits p found)
  ]

  transition-IsAccounted :
      (now : ℕ) (next : State) → IsAccounted (n + 1) (step (on_transition now next) s)
  unfolding step transition_to g
  transition-IsAccounted now next =
      let v = transition_to-IsValid now next s.breaker a.valid in
      ground (arith, live_old g (suc g) s.permits a.old, All-IsOld g (suc g) s.permits a.old)

  step-IsAccounted : (e : Event) → IsAccounted (n + 1) (step e s)
  step-IsAccounted (on_acquire now) = acquire-IsAccounted now
  step-IsAccounted (on_record i now success) = record-IsAccounted i now success
  step-IsAccounted (on_cancel i) = cancel-IsAccounted i
  step-IsAccounted (on_transition now next) = transition-IsAccounted now next

run-IsAccounted :
    (es : List Event) (n m : ℕ) (s : System)
    → n + length es ≡ m
    → m < 2 ^ 64
    → IsAccounted n s
    → IsAccounted m (run es s)
unfolding run
run-IsAccounted [] n m s e h a = let e' : n ≡ m = omega arith in rw (← e') a
run-IsAccounted (x ∷ es) n m s e h a =
    run-IsAccounted es (n + 1) m (step x s) (omega arith) h (step-IsAccounted n (omega arith) s a x)

step-half_open_max_requests :
    (e : Event) (s : System)
    → (step e s).breaker.half_open_max_requests ≡ s.breaker.half_open_max_requests
unfolding step acquire record_permit cancel transition_to
step-half_open_max_requests (on_acquire now) s = ground arith
step-half_open_max_requests (on_record i now success) s = ground arith
step-half_open_max_requests (on_cancel i) s = ground arith
step-half_open_max_requests (on_transition now next) s = ground arith

run-half_open_max_requests :
    (es : List Event) (s : System)
    → (run es s).breaker.half_open_max_requests ≡ s.breaker.half_open_max_requests
unfolding run
run-half_open_max_requests [] s = refl
run-half_open_max_requests (e ∷ es) s =
    run-half_open_max_requests es (step e s) ∙ step-half_open_max_requests e s

-- A breaker with no permit handed out.
abbrev pub unshared : Breaker → System
unshared b = record { breaker = b; permits = [] }

pub unshared-IsAccounted :
    (config : Config) (has_clock : Bool) {b : Breaker}
    → new_with_config config has_clock ≡ ok b
    → IsAccounted 0 (unshared b)
unfolding new_with_config live
unshared-IsAccounted config has_clock e =
    let v = new_with_config-IsValid config has_clock e in ground arith

-- Start with a breaker that the constructor returned and let its users make fewer than 2 ^ 64 calls,
-- in any order and with any permits. Then the probes of the current half-open cycle whose outcome is
-- still open never outnumber the configured limit; while the breaker is half-open, the slots taken
-- are exactly the successes recorded and those probes, and no more than the limit; and in every
-- other state no probe of the current generation is open.
pub run-live :
    (config : Config) (has_clock : Bool) (es : List Event) {b : Breaker}
    → new_with_config config has_clock ≡ ok b
    → length es < 2 ^ 64
    → (live (run es (unshared b)).breaker.generation (run es (unshared b)).permits
        ≤ b.half_open_max_requests)
      × ((run es (unshared b)).breaker.state ≡ state_half_open
          → ((run es (unshared b)).breaker.half_open_admitted
              ≡ (run es (unshared b)).breaker.half_open_successes
                + live (run es (unshared b)).breaker.generation (run es (unshared b)).permits)
            × ((run es (unshared b)).breaker.half_open_admitted ≤ b.half_open_max_requests))
      × ((run es (unshared b)).breaker.state ≢ state_half_open
          → live (run es (unshared b)).breaker.generation (run es (unshared b)).permits ≡ 0)
run-live config has_clock es {b} e h =
    let a =
      run-IsAccounted es 0 (length es) (unshared b) (omega arith) h
        (unshared-IsAccounted config has_clock e) in
    accounted (run es (unshared b)) (run-half_open_max_requests es (unshared b)) a
  where
    accounted :
        (s : System)
        → s.breaker.half_open_max_requests ≡ b.half_open_max_requests
        → IsAccounted (length es) s
        → (live s.breaker.generation s.permits ≤ b.half_open_max_requests)
          × (s.breaker.state ≡ state_half_open
              → (s.breaker.half_open_admitted
                  ≡ s.breaker.half_open_successes + live s.breaker.generation s.permits)
                × (s.breaker.half_open_admitted ≤ b.half_open_max_requests))
          × (s.breaker.state ≢ state_half_open → live s.breaker.generation s.permits ≡ 0)
    accounted s size a = ground (arith, a.slots, a.none_live, a.valid.admitted)
