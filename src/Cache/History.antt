-- ===== src/Cache/History.antt =====
-- Every sequence of calls of the cache of internal/cache/cache.go serves what was stored last.
use gatex.Prelude.{
  ℕ, ◌+◌, ◌<◌, ◌≡◌, ◌∙◌, refl, inl, inr, List, [], ◌∷◌, reverse, Option, none, some, arith,
  if◌then◌else◌, Bool-cases, Option-cases,
}
use gatex.Prelude.Dict.{lookup}
use gatex.Prelude.Text.{Text, text_eq, text_eq_iff}
use gatex.Cache.Eviction.{evict-settings}
use gatex.Cache.Expiry.{remove_expired_from-settings}
use gatex.Cache.Lookups.{get-Keeps, set-lookup}
use gatex.Cache.{Entry, Response, Cache, remove, get, set, insert, evict, make_room, remove_expired}

-- The calls of a cache's users, each with the clock's reading, and what they leave.
pub data Call : Type 0 where
  on_get : ℕ → Text → Call
  on_set : ℕ → Text → Response → Call

unfoldable pub after : Call → Cache → Cache
after (on_get now key) c = (get now key c).0
after (on_set now key response) c = set now key response c

unfoldable pub run : List Call → Cache → Cache
run [] c = c
run (x ∷ xs) c = run xs (after x c)

-- The time and the response of the last `Set` under a key.
pub last_set : Text → List Call → Option (ℕ × Response) → Option (ℕ × Response)
last_set key [] last = last
last_set key (on_get now k ∷ xs) last = last_set key xs last
last_set key (on_set now k response ∷ xs) last =
    last_set key xs (if text_eq k key then some (now, response) else last)

-- Whatever is stored under a key is of the last `Set`.
abbrev Recalls : ℕ → Text → Cache → Option (ℕ × Response) → Type 0
Recalls ttl key c last =
    (e : Entry)
    → lookup key c.entries ≡ some e
    → (now : ℕ) × (last ≡ some (now, e.response)) × (e.expires_at ≡ now + ttl)

remove-ttl : (k : Text) (c : Cache) → (remove k c).ttl ≡ c.ttl
unfolding remove
remove-ttl k c = refl

insert-ttl : (k : Text) (e : Entry) (c : Cache) → (insert k e c).ttl ≡ c.ttl
unfolding insert
insert-ttl k e c = refl

evict-ttl : (c : Cache) → (evict c).ttl ≡ c.ttl
evict-ttl c = (evict-settings c).1

make_room-ttl : (now : ℕ) (c : Cache) → (make_room now c).ttl ≡ c.ttl
unfolding make_room remove_expired
make_room-ttl now c = ground (arith, remove_expired_from-settings now (reverse c.recency) c)

after-ttl : (x : Call) (c : Cache) → (after x c).ttl ≡ c.ttl
unfolding after get set
after-ttl (on_get now key) c = ground (arith, remove-ttl key c)
after-ttl (on_set now key response) c = ground (
  arith,
  evict-ttl
      (insert key (record { response = response; expires_at = now + c.ttl }) (make_room now c)),
  insert-ttl key (record { response = response; expires_at = now + c.ttl }) (make_room now c),
  make_room-ttl now c,
)

after-Recalls :
    (ttl : ℕ) (key : Text) (x : Call) (c : Cache) (last : Option (ℕ × Response))
    → c.ttl ≡ ttl
    → Recalls ttl key c last
    → Recalls ttl key (after x c) (last_set key (x ∷ []) last)
unfolding after last_set
after-Recalls ttl key (on_get now k) c last t h e found = h e (get-Keeps now k c key e found)
after-Recalls ttl key (on_set now k response) c last t h e found =
    elim (Bool-cases (text_eq k key)) [
      | inl same ↦ rw same (elim (set-lookup now k key response c e found) [
        | inl (_, new) ↦ (now, ground arith, ground arith)
        | inr (other, old) ↦ absurd (ground arith)
      ])
      | inr other ↦ rw other (elim (set-lookup now k key response c e found) [
        | inl (e', _) ↦ absurd (ground (arith, text_eq_iff k key))
        | inr (_, old) ↦ h e old
      ])
    ]

run-Recalls :
    (ttl : ℕ) (key : Text) (xs : List Call) (c : Cache) (last : Option (ℕ × Response))
    → c.ttl ≡ ttl
    → Recalls ttl key c last
    → Recalls ttl key (run xs c) (last_set key xs last)
unfolding run last_set
run-Recalls ttl key [] c last t h = h
run-Recalls ttl key (on_get now k ∷ xs) c last t h =
    run-Recalls ttl key xs (after (on_get now k) c) last (after-ttl (on_get now k) c ∙ t)
      (after-Recalls ttl key (on_get now k) c last t h)
run-Recalls ttl key (on_set now k response ∷ xs) c last t h =
    run-Recalls ttl key xs (after (on_set now k response) c)
      (if text_eq k key then some (now, response) else last)
      (after-ttl (on_set now k response) c ∙ t)
      (after-Recalls ttl key (on_set now k response) c last t h)

-- Start with an empty cache and call `Get` and `Set` in any order, at any times. If `Get` then
-- answers a response, it is the one that the last `Set` under the key stored, and its lifetime,
-- counted from that `Set`, has not ended.
pub run_sound :
    (xs : List Call) (now : ℕ) (key : Text) (c : Cache) (response : Response)
    → c.entries ≡ []
    → (get now key (run xs c)).1 ≡ some response
    → (at : ℕ) × (last_set key xs none ≡ some (at, response)) × (now < at + c.ttl)
unfolding get lookup
run_sound xs now key c response empty e = elim (Option-cases (lookup key (run xs c).entries)) [
  | inl missing ↦ absurd (ground arith)
  | inr (d, found) ↦
      let (at, last, end) =
        run-Recalls c.ttl key xs c none refl (λ d' h. absurd (ground arith)) d found in
      (at, ground arith, ground arith)
]
