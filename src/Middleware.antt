-- ===== src/Middleware.antt =====
-- internal/middleware: chain.go, api_key.go and recovery.go. SHA-256 is an argument.
pub mod Order
pub mod Keys
pub mod Panics
mod Tests
use Prim.Native.Nat.{bit_or}
use gatex.Prelude.{
  ℕ, zero, suc, Bool, true, false, not, ◌||◌, List, [], ◌∷◌, Option, none, some, ◌==◌,
  if◌then◌else◌, length, get_elem?, map,
}
use gatex.Prelude.Text.{Text, bytes, text_eq}
use gatex.Http.{
  Request, Panic, abort_handler, other_panic, Program, returns, panics, on_header, on_world,
  http_error, on_exit, Handler, Middleware, get, del,
}
use gatex.Http
use gatex.Process.{World}

module _ {W : Type 0} where
  -- The loop of `Chain`, which has come down to `index`.
  unfoldable pub chain_from : List (Middleware W) → ℕ → Handler W → Handler W
  chain_from middlewares zero next = next
  chain_from middlewares (suc index) next =
      chain_from middlewares index
        (elim (get_elem? middlewares index) [ none ↦ next | some m ↦ m next ])

  unfoldable pub chain : List (Middleware W) → Middleware W
  unfolding chain_from
  chain middlewares next = chain_from middlewares (length middlewares) next

-- The canonical spelling of `APIKeyHeader`.
abbrev pub api_key_header : Text
api_key_header = bytes "X-Api-Key"

abbrev pub challenge_header : Text
challenge_header = bytes "Www-Authenticate"

-- `subtle.ConstantTimeCompare`.
abbrev pub constant_time_compare : Text → Text → ℕ
constant_time_compare x y = if text_eq x y then 1 else 0

-- The loop of `matchesAPIKey`.
unfoldable pub match_digests : Text → List Text → ℕ → ℕ
match_digests provided [] matched = matched
match_digests provided (valid ∷ digests) matched =
    match_digests provided digests (bit_or matched (constant_time_compare provided valid))

module _ (sum256 : Text → Text) where
  unfoldable pub matches_api_key : Text → List Text → Bool
  unfolding match_digests
  matches_api_key key digests = match_digests (sum256 key) digests 0 == 1

  unfoldable pub api_key_auth : {W : Type 0} → List Text → Middleware W
  unfolding matches_api_key
  api_key_auth keys next r =
      let digests = map sum256 keys in
      let provided = get api_key_header r.header in
      if text_eq provided [] || not (matches_api_key provided digests)
      then on_header (Http.set challenge_header (bytes "ApiKey"))
          (http_error (bytes "unauthorized") 401)
      else next (record r { header = del api_key_header r.header })

-- The deferred function of `Recovery`.
unfoldable pub recover_exit : Option Panic → Program World
recover_exit none = returns
recover_exit (some abort_handler) = panics abort_handler
recover_exit (some (other_panic n)) =
    on_world (λ world. record world { recovered = other_panic n ∷ world.recovered })
      (http_error (bytes "internal server error") 500)

unfoldable pub recovery : Middleware World
unfolding recover_exit
recovery next r = on_exit recover_exit (next r)
