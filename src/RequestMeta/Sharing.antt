-- ===== src/RequestMeta/Sharing.antt =====
-- The metadata of internal/requestmeta/metadata.go, shared by a request and its clones.
use gatex.Prelude.{
  ℕ, ◌≡◌, refl, List, [], ◌∷◌, ◌++◌, Option, none, some, length, get_elem?, get_elem?-set_self,
  lt_of_get_elem?, arith, Option-cases, inl, inr, sym, ◌∙◌,
}
use gatex.Prelude.Text.{Text}
use gatex.Http.{Request, get, values}
use gatex.Http.Headers.{get-set}
use gatex.Http
use gatex.RequestMeta.{
  Metadata, Store, id_header, current, incoming_or_new_id, ensure, request_id, backend, route,
  update, set_backend, set_route,
}

pub get_elem?-last {ℓ} :
    {A : Type ℓ} (xs : List A) (x : A) → get_elem? (xs ++ (x ∷ [])) (length xs) ≡ some x
get_elem?-last [] x = refl
get_elem?-last (y ∷ xs) x = get_elem?-last xs x

-- What is read of the metadata once it is known.
read_current :
    (r : Request) (store : Store) (m : Metadata)
    → current r store ≡ some m
    → (request_id r store ≡ m.request_id)
      × (backend r store ≡ m.backend)
      × (route r store ≡ m.route)
unfolding request_id backend route
read_current r store m e = rw (e, request_id, backend, route) (refl, refl, refl)

ensure-none :
    (random : Option (List ℕ)) (now : ℕ) (r : Request) (store : Store)
    → current r store ≡ none
    → let id = incoming_or_new_id random now (get id_header r.header) in
      ensure random now r store ≡ (
        record r { metadata = some (length store); header = Http.set id_header id r.header },
        store ++ (record { request_id = id; backend = []; route = [] } ∷ []),
      )
unfolding ensure
ensure-none random now r store e = rw e refl

ensure-some :
    (random : Option (List ℕ)) (now : ℕ) (r : Request) (store : Store) (m : Metadata)
    → current r store ≡ some m
    → ensure random now r store ≡ (r, store)
unfolding ensure
ensure-some random now r store m e = rw e refl

-- A request without metadata gets new metadata; its identifier stands in the header too, and asking
-- again changes neither the request nor the store.
pub ensure_lem :
    (random : Option (List ℕ)) (now : ℕ) (r : Request) (store : Store)
    → current r store ≡ none
    → let (q, after) = ensure random now r store in
      (request_id q after ≡ incoming_or_new_id random now (get id_header r.header))
      × (get id_header q.header ≡ request_id q after)
      × (backend q after ≡ [])
      × (route q after ≡ [])
      × ((more : Option (List ℕ)) (later : ℕ) → ensure more later q after ≡ (q, after))
unfolding current
ensure_lem random now r store none_yet =
    let id = incoming_or_new_id random now (get id_header r.header) in
    let fresh : Metadata = record { request_id = id; backend = []; route = [] } in
    let q : Request = record r {
      metadata = some (length store);
      header = Http.set id_header id r.header;
    } in
    let after = store ++ (fresh ∷ []) in
    let (e, f, g) = read_current q after fresh (get_elem?-last store fresh) in
    rw (ensure-none random now r store none_yet) (
      e,
      get-set id_header id r.header ∙ sym e,
      f,
      g,
      λ more later. ensure-some more later q after fresh (get_elem?-last store fresh),
    )

get_elem?-update :
    (f : Metadata → Metadata) (i : ℕ) (m : Metadata) (store : Store)
    → get_elem? store i ≡ some m
    → get_elem? (update f i store) i ≡ some (f m)
get_elem?-update f i m store e =
    ground (arith, get_elem?-set_self store i (f m), lt_of_get_elem? store i m e)

current_at :
    (r : Request) (i : ℕ) (store : Store)
    → r.metadata ≡ some i
    → current r store ≡ get_elem? store i
unfolding current
current_at r i store e = ground arith

set_route_at :
    (r : Request) (i : ℕ) (prefix : Text) (store : Store)
    → r.metadata ≡ some i
    → set_route r prefix store ≡ update (λ n. record n { route = prefix }) i store
unfolding set_route
set_route_at r i prefix store e = ground arith

set_backend_at :
    (r : Request) (i : ℕ) (name : Text) (store : Store)
    → r.metadata ≡ some i
    → set_backend r name store ≡ update (λ n. record n { backend = name }) i store
unfolding set_backend
set_backend_at r i name store e = ground arith

-- A route set through one request is read through every request that has the same metadata, its
-- clones for one; the backend and the identifier stay.
pub set_route_lem :
    (q r : Request) (i : ℕ) (prefix : Text) (store : Store) (m : Metadata)
    → q.metadata ≡ some i
    → r.metadata ≡ some i
    → get_elem? store i ≡ some m
    → let after = set_route q prefix store in
      (route r after ≡ prefix) × (backend r after ≡ m.backend) × (request_id r after ≡ m.request_id)
unfolding set_route current
set_route_lem q r i prefix store m eq er present =
    let written = get_elem?-update (λ n. record n { route = prefix }) i m store present in
    let (a, b, c) =
      read_current r (set_route q prefix store) (record m { route = prefix })
        (current_at r i (set_route q prefix store) er
          ∙ rw (set_route_at q i prefix store eq) written) in
    (c, b, a)

-- And so is a backend.
pub set_backend_lem :
    (q r : Request) (i : ℕ) (name : Text) (store : Store) (m : Metadata)
    → q.metadata ≡ some i
    → r.metadata ≡ some i
    → get_elem? store i ≡ some m
    → let after = set_backend q name store in
      (backend r after ≡ name) × (route r after ≡ m.route) × (request_id r after ≡ m.request_id)
unfolding set_backend current
set_backend_lem q r i name store m eq er present =
    let written = get_elem?-update (λ n. record n { backend = name }) i m store present in
    let (a, b, c) =
      read_current r (set_backend q name store) (record m { backend = name })
        (current_at r i (set_backend q name store) er
          ∙ rw (set_backend_at q i name store eq) written) in
    (b, c, a)

present :
    (r : Request) (store : Store) (m : Metadata)
    → current r store ≡ some m
    → (i : ℕ) × (n : Metadata) × (r.metadata ≡ some i) × (get_elem? store i ≡ some n)
unfolding current
present r store m = at r.metadata
  where
    at :
        (a : Option ℕ)
        → (elim a [ none ↦ none | some i ↦ get_elem? store i ]) ≡ some m
        → (i : ℕ) × (n : Metadata) × (a ≡ some i) × (get_elem? store i ≡ some n)
    at none e = absurd (cc)
    at (some i) e = (i, m, refl, e)

-- After `Ensure` a request has metadata.
pub ensure-current :
    (random : Option (List ℕ)) (now : ℕ) (r : Request) (store : Store)
    → let (q, after) = ensure random now r store in
      (i : ℕ) × (m : Metadata) × (q.metadata ≡ some i) × (get_elem? after i ≡ some m)
ensure-current random now r store = elim (Option-cases (current r store)) [
  | inl e ↦
      let id = incoming_or_new_id random now (get id_header r.header) in
      let fresh : Metadata = record { request_id = id; backend = []; route = [] } in
      rw (ensure-none random now r store e) (length store, fresh, refl, get_elem?-last store fresh)
  | inr (m, e) ↦ rw (ensure-some random now r store m e) (present r store m e)
]
