-- ===== src/Breaker/Probes/Flight.antt =====
-- The calls that the holders of the permits of internal/breaker/breaker.go make, one by one: a
-- permit that is used up may be dropped from the list.
use gatex.Prelude.{
  ℕ, zero, suc, ◌+◌, ◌^◌, ◌<◌, ◌≤◌, ◌≡◌, subst, refl, Bool, true, List, [], ◌∷◌, some, Option, ok,
  err, arith, get_elem?, get_elem?-set_self, lt_of_get_elem?, set, remove_at, remove_at-set,
  All-remove_at,
}
use gatex.Breaker.{Breaker, Permit, AcquireError, acquire, record_permit, cancel, state_half_open}
use gatex.Breaker.Probes.{
  System, step, write_back, live, IsOld, IsAccounted, acquire-IsAccounted, record-IsAccounted,
  cancel-IsAccounted,
}

live-remove_at :
    (g i : ℕ) (ps : List Permit) (p : Permit)
    → get_elem? ps i ≡ some p
    → p.used ≡ true
    → live g (remove_at i ps) ≡ live g ps
unfolding live
live-remove_at g i [] p e used = cc
live-remove_at g zero (q ∷ ps) p e used = ground arith
live-remove_at g (suc i) (q ∷ ps) p e used = ground (arith, live-remove_at g i ps p e used)

pub drop-IsAccounted :
    (n i : ℕ) (b : Breaker) (ps : List Permit) (p : Permit)
    → get_elem? ps i ≡ some p
    → p.used ≡ true
    → IsAccounted n (record { breaker = b; permits = ps })
    → IsAccounted n (record { breaker = b; permits = remove_at i ps })
drop-IsAccounted n i b ps p e used a =
    let same = live-remove_at b.generation i ps p e used in
    ground (arith, All-remove_at (IsOld b.generation) i ps a.old, a.slots, a.none_live)

settled-IsAccounted :
    (n i : ℕ) (b : Breaker) (ps : List Permit) (p q : Permit)
    → get_elem? ps i ≡ some p
    → q.used ≡ true
    → IsAccounted n (record { breaker = b; permits = set ps i q })
    → IsAccounted n (record { breaker = b; permits = remove_at i ps })
settled-IsAccounted n i b ps p q e used a = rw (← remove_at-set i ps q) (
    drop-IsAccounted n i b (set ps i q) q (get_elem?-set_self ps i q (lt_of_get_elem? ps i p e))
      used a)

pub record_permit-used :
    (now : ℕ) (success : Bool) (p : Permit) (b : Breaker)
    → (record_permit now success (some p) b).1 ≡ some (record p { used = true })
unfolding record_permit
record_permit-used now success p b = ground arith

cancel-used : (p : Permit) (b : Breaker) → (cancel (some p) b).1 ≡ some (record p { used = true })
unfolding cancel
cancel-used p b = ground arith

-- The permit that a call leaves is written back.
written-IsAccounted :
    (n i : ℕ) (b : Breaker) (ps : List Permit) (p : Permit) (o : Option Permit)
    → get_elem? ps i ≡ some p
    → o ≡ some (record p { used = true })
    → IsAccounted n (record { breaker = b; permits = write_back i o ps })
    → IsAccounted n (record { breaker = b; permits = remove_at i ps })
unfolding write_back
written-IsAccounted n i b ps p o e used a =
    settled-IsAccounted n i b ps p (record p { used = true }) e refl
      (subst (λ o. IsAccounted n (record { breaker = b; permits = write_back i o ps })) used a)

module _ (n : ℕ) (fits : n + 1 < 2 ^ 64) (b : Breaker) (ps : List Permit)
    (a : IsAccounted n (record { breaker = b; permits = ps })) where
  pub acquired-IsAccounted :
      (now : ℕ) (p : Permit)
      → (acquire now b).1 ≡ ok p
      → IsAccounted (n + 1) (record { breaker = (acquire now b).0; permits = p ∷ ps })
  unfolding step
  acquired-IsAccounted now p e =
      let r = acquire-IsAccounted n fits (record { breaker = b; permits = ps }) a now in
      ground (arith, r)

  pub refused-IsAccounted :
      (now : ℕ) (e : AcquireError)
      → (acquire now b).1 ≡ err e
      → IsAccounted (n + 1) (record { breaker = (acquire now b).0; permits = ps })
  unfolding step
  refused-IsAccounted now x e =
      let r = acquire-IsAccounted n fits (record { breaker = b; permits = ps }) a now in
      ground (arith, r)

  pub recorded-IsAccounted :
      (now i : ℕ) (success : Bool) (p : Permit)
      → get_elem? ps i ≡ some p
      → IsAccounted (n + 1) (record {
        breaker = (record_permit now success (some p) b).0;
        permits = set ps i (record p { used = true });
      })
  unfolding step write_back
  recorded-IsAccounted now i success p e =
      let s : System = record { breaker = b; permits = ps } in
      let r = record-IsAccounted n fits s a i now success in
      subst
        (λ o. IsAccounted (n + 1) (record {
          breaker = (record_permit now success (some p) b).0;
          permits = write_back i o ps;
        }))
        (record_permit-used now success p b)
        (subst
          (λ o. IsAccounted (n + 1) (record {
            breaker = (record_permit now success o b).0;
            permits = write_back i (record_permit now success o b).1 ps;
          }))
          e r)

  pub cancelled-IsAccounted :
      (i : ℕ) (p : Permit)
      → get_elem? ps i ≡ some p
      → IsAccounted (n + 1) (record { breaker = (cancel (some p) b).0; permits = remove_at i ps })
  unfolding step
  cancelled-IsAccounted i p e =
      let s : System = record { breaker = b; permits = ps } in
      let r = cancel-IsAccounted n fits s a i in
      written-IsAccounted (n + 1) i (cancel (some p) b).0 ps p (cancel (some p) b).1 e
        (cancel-used p b)
        (subst
          (λ o.
            IsAccounted (n + 1)
              (record { breaker = (cancel o b).0; permits = write_back i (cancel o b).1 ps }))
          e r)

-- The bound on the open probes.
pub accounted-live :
    (n : ℕ) (s : System)
    → IsAccounted n s
    → (live s.breaker.generation s.permits ≤ s.breaker.half_open_max_requests)
      × (s.breaker.state ≡ state_half_open
          → s.breaker.half_open_admitted
            ≡ s.breaker.half_open_successes + live s.breaker.generation s.permits)
accounted-live n s a = ground (arith, a.slots, a.none_live, a.valid.admitted)
