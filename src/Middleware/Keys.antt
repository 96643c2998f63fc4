-- ===== src/Middleware/Keys.antt =====
-- Who passes internal/middleware/api_key.go.
use gatex.Prelude.{
  ◌≡◌, refl, ◌∙◌, ap, ℕ, Bool, true, false, not, ◌&&◌, ◌||◌, List, [], ◌∷◌, none, some,
  if◌then◌else◌, map, arith, Bool-cases, inl, inr,
}
use gatex.Prelude.Text.{Text, bytes, text_eq, text_eq_iff}
use gatex.Prelude.Dict.{mem}
use gatex.Http
use gatex.Http.Serve.{run-http_error}
use gatex.Http.{
  Request, Program, on_header, http_error, error_header, Handler, Conn, Outcome, run, get, del,
  values, conn_write_header, conn_append, set,
}
use gatex.Http.Headers.{values-del, values-error_header, get-set, get-values}
use gatex.Middleware.{
  api_key_header, challenge_header, match_digests, matches_api_key, api_key_auth,
}

-- The loop's result is 1 once a digest has matched.
match_digests-one : (provided : Text) (ds : List Text) → match_digests provided ds 1 ≡ 1
unfolding match_digests
match_digests-one provided [] = refl
match_digests-one provided (d ∷ ds) = elim (Bool-cases (text_eq provided d)) [
  | inl e ↦ rw e (match_digests-one provided ds)
  | inr e ↦ rw e (match_digests-one provided ds)
]

text_eq_comm : (s t : Text) → text_eq s t ≡ text_eq t s
text_eq_comm s t = ground (arith, text_eq_iff s t, text_eq_iff t s)

match_digests-mem :
    (provided : Text) (ds : List Text)
    → match_digests provided ds 0 ≡ (if mem provided ds then 1 else 0)
unfolding match_digests mem
match_digests-mem provided [] = refl
match_digests-mem provided (d ∷ ds) = elim (Bool-cases (text_eq provided d)) [
  | inl e ↦ rw (e, text_eq_comm d provided) (rw e (match_digests-one provided ds))
  | inr e ↦ rw (e, text_eq_comm d provided) (rw e (match_digests-mem provided ds))
]

values-deleted : (name : Text) (h : Http.Header) → values name (del name h) ≡ []
values-deleted name h = ground (arith, values-del name name h, (text_eq_iff name name).1 refl)

get-challenge :
    (h : Http.Header)
    → get challenge_header (error_header (Http.set challenge_header (bytes "ApiKey") h))
      ≡ bytes "ApiKey"
unfolding text_eq
get-challenge h =
    let g = Http.set challenge_header (bytes "ApiKey") h in
    get-values challenge_header (error_header g) g
      (values-error_header challenge_header g (refl, refl, refl))
    ∙ get-set challenge_header (bytes "ApiKey") h

module _ (sum256 : Text → Text) where
  -- No valid key other than this text has its digest.
  abbrev pub HasNoCollision : Text → List Text → Type 0
  HasNoCollision key keys = (k : Text) → mem k keys ≡ true → sum256 k ≡ sum256 key → k ≡ key

  mem-digests :
      (key : Text) (keys : List Text)
      → HasNoCollision key keys
      → mem (sum256 key) (map sum256 keys) ≡ mem key keys
  unfolding mem
  mem-digests key [] h = refl
  mem-digests key (k ∷ keys) h =
      let rest = mem-digests key keys (λ j inside e. h j (ground arith) e) in
      ground (arith, text_eq_iff k key, text_eq_iff (sum256 k) (sum256 key), text_eq_iff k k, h k)

  matches_api_key-mem :
      (key : Text) (keys : List Text)
      → HasNoCollision key keys
      → matches_api_key sum256 key (map sum256 keys) ≡ mem key keys
  unfolding matches_api_key
  matches_api_key-mem key keys h =
      let e = match_digests-mem (sum256 key) (map sum256 keys) in
      let f = mem-digests key keys h in ground arith

  -- A request's key is one of these.
  pub is_authentic : List Text → Request → Bool
  is_authentic keys r =
      not (text_eq (get api_key_header r.header) []) && mem (get api_key_header r.header) keys

  -- What a request without a valid key gets.
  abbrev refused : {W : Type 0} → Program W
  refused =
      on_header (Http.set challenge_header (bytes "ApiKey")) (http_error (bytes "unauthorized") 401)

  api_key_auth-is_authentic :
      {W : Type 0} (keys : List Text) (next : Handler W) (r : Request)
      → HasNoCollision (get api_key_header r.header) keys
      → api_key_auth sum256 keys next r ≡ (
          if is_authentic keys r
          then next (record r { header = del api_key_header r.header })
          else refused)
  unfolding api_key_auth is_authentic
  api_key_auth-is_authentic keys next r h =
      rw (matches_api_key-mem (get api_key_header r.header) keys h)
        (at (text_eq (get api_key_header r.header) []) (mem (get api_key_header r.header) keys))
    where
      at :
          (a b : Bool)
          → (if a || not b
              then refused
              else next (record r { header = del api_key_header r.header }))
            ≡ (if not a && b
                then next (record r { header = del api_key_header r.header })
                else refused)
      at true b = refl
      at false true = refl
      at false false = refl

  module _ (limit : Conn → ℕ) {W : Type 0} where
    run-refused :
        (c : Conn) (v : W)
        → c.status ≡ none
        → let o = run limit refused c v in
          (o.conn.status ≡ some 401)
          × (get challenge_header o.conn.sent_header ≡ bytes "ApiKey")
          × (o.world ≡ v)
          × (o.panic ≡ none)
    unfolding run
    run-refused c v idle =
        let challenged = Http.set challenge_header (bytes "ApiKey") c.header in
        let (a, b, e, f) =
          run-http_error limit (bytes "unauthorized") 401 (record c { header = challenged }) v idle
            refl in
        (a, ap (get challenge_header) b ∙ get-challenge c.header, e, f)

    -- A request passes exactly if its key is not empty and is one of the valid keys, provided that no
    -- other valid key has its digest: the handler below then runs on the request without the key, and
    -- else it does not run, and the client gets the status 401 with the challenge.
    pub api_key_auth_lem :
        (keys : List Text) (next : Handler W) (r : Request) (c : Conn) (v : W)
        → HasNoCollision (get api_key_header r.header) keys
        → c.status ≡ none
        → let passed = record r { header = del api_key_header r.header } in
          let o = run limit (api_key_auth sum256 keys next r) c v in
          (is_authentic keys r ≡ true → o ≡ run limit (next passed) c v)
          × (values api_key_header passed.header ≡ [])
          × (is_authentic keys r ≡ false
              → (o.conn.status ≡ some 401)
                × (get challenge_header o.conn.sent_header ≡ bytes "ApiKey")
                × (o.world ≡ v)
                × (o.panic ≡ none))
    api_key_auth_lem keys next r c v h idle =
        rw (api_key_auth-is_authentic keys next r h)
          (λ e. rw e refl, values-deleted api_key_header r.header, λ e. rw e (run-refused c v idle))
