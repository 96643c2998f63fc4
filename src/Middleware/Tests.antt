-- ===== src/Middleware/Tests.antt =====
-- Chains, keys and panics on small handlers. The digest of a text is the text itself.
use gatex.Prelude.{◌≡◌, refl, ℕ, true, false, List, [], ◌∷◌, ◌++◌, none, some}
use gatex.Prelude.Text.{Text, bytes, text_eq}
use gatex.Prelude.Dict.{mem}
use gatex.Http.{
  Request, Handler, Middleware, run, conn_write_header, conn_append, taken, take_bytes, on_exit,
  on_header, get, values, set, put_values, del, add, http_error, error_header,
}
use gatex.Process.{World}
use gatex.Process.Samples.{fresh, roomy, plain, quiet, missing, failing}
use gatex.Middleware.{
  chain, chain_from, api_key_header, challenge_header, api_key_auth, matches_api_key, match_digests,
  recovery, recover_exit,
}
use gatex.Middleware.Order.{chain_lem}
use gatex.Middleware.Keys.{is_authentic, api_key_auth_lem}
use gatex.Middleware.Panics.{IsRecovered, recovery_lem}

program : Unit {0}
unfolding text_eq mem run conn_write_header conn_append taken take_bytes on_exit get values set
    put_values del add http_error error_header chain chain_from api_key_auth matches_api_key
    match_digests recovery recover_exit
program = tt

abbrev start : ℕ
start = 0

-- It adds its name to a response header.
abbrev marked : Text → Middleware ℕ
marked name next r = on_header (add (bytes "Trace") name) (next r)

in_order :
    values
      (bytes "Trace")
      (run roomy
        (chain (marked (bytes "a") ∷ marked (bytes "b") ∷ []) missing plain)
        fresh
        start).conn.sent_header
    ≡ bytes "a" ∷ bytes "b" ∷ []
unfolding program
in_order = refl

chain_lem_example :
    let ms = marked (bytes "a") ∷ [] in
    let ns = marked (bytes "b") ∷ [] in
    let next : Handler ℕ = missing in
    (chain [] next ≡ next)
    × (chain (marked (bytes "c") ∷ ms) next ≡ marked (bytes "c") (chain ms next))
    × (chain (ms ++ ns) next ≡ chain ms (chain ns next))
chain_lem_example =
    chain_lem (marked (bytes "a") ∷ []) (marked (bytes "b") ∷ []) (marked (bytes "c")) missing

abbrev keys : List Text
keys = bytes "k1" ∷ bytes "k2" ∷ []

abbrev with_key : Request
with_key = record plain { header = (api_key_header, bytes "k2" ∷ []) ∷ [] }

accepted :
    (run roomy (api_key_auth (λ k. k) keys missing with_key) fresh start).conn.status ≡ some 404
unfolding program
accepted = refl

denied : (run roomy (api_key_auth (λ k. k) keys missing plain) fresh start).conn.status ≡ some 401
unfolding program
denied = refl

api_key_auth_lem_example :
    let passed = record with_key { header = del api_key_header with_key.header } in
    let o = run roomy (api_key_auth (λ k. k) keys missing with_key) fresh start in
    (is_authentic (λ k. k) keys with_key ≡ true → o ≡ run roomy (missing passed) fresh start)
    × (values api_key_header passed.header ≡ [])
    × (is_authentic (λ k. k) keys with_key ≡ false
        → (o.conn.status ≡ some 401)
          × (get challenge_header o.conn.sent_header ≡ bytes "ApiKey")
          × (o.world ≡ start)
          × (o.panic ≡ none))
api_key_auth_lem_example =
    api_key_auth_lem (λ k. k) roomy keys missing with_key fresh start (λ k inside same. same) refl

recovered_status : (run roomy (recovery failing plain) fresh quiet).conn.status ≡ some 500
unfolding program
recovered_status = refl

recovery_lem_example :
    IsRecovered
      (run roomy (failing plain) fresh quiet)
      (run roomy (recovery failing plain) fresh quiet)
      (run roomy (failing {W = World} plain) fresh quiet).panic
recovery_lem_example = recovery_lem roomy failing plain fresh quiet
