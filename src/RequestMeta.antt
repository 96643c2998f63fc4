-- ===== src/RequestMeta.antt =====
-- internal/requestmeta/metadata.go: the identifier of a request, and the backend and route chosen for
-- it. The metadata is a shared object: a request's context holds its address in a store, and a clone
-- of the request has the same address. The random bytes and the clock's reading are arguments.
pub mod Ids
pub mod Sharing
mod Tests
use gatex.Prelude.{
  ℕ, zero, suc, ◌+◌, ◌/◌, ◌%◌, Bool, true, false, ◌||◌, List, [], ◌∷◌, ◌++◌, Option, none, some,
  ltb, if◌then◌else◌, length, get_elem?, set,
}
use gatex.Prelude.Text.{Text, bytes, text_eq}
use gatex.Http.{Request, get, is_some}
use gatex.Http

-- The canonical spelling of `IDHeader`.
abbrev pub id_header : Text
id_header = bytes "X-Request-Id"

pub record Metadata : Type 0 where
  pub request_id : Text
  pub backend : Text
  pub route : Text

abbrev pub Store : Type 0
Store = List Metadata

unfoldable pub current : Request → Store → Option Metadata
current r store = elim r.metadata [ none ↦ none | some i ↦ get_elem? store i ]

unfoldable pub visible_bytes : Text → Bool
visible_bytes [] = true
visible_bytes (b ∷ s) = if ltb b 0x21 || ltb 0x7e b then false else visible_bytes s

unfoldable pub is_safe_id : Text → Bool
unfolding visible_bytes
is_safe_id value = if text_eq value [] || ltb 128 (length value) then false else visible_bytes value

abbrev pub hex_digit : ℕ → ℕ
hex_digit n = if ltb n 10 then 48 + n else 87 + n

-- `hex.EncodeToString`.
unfoldable pub encode_hex : List ℕ → Text
encode_hex [] = []
encode_hex (b ∷ bs) = hex_digit (b / 16) ∷ hex_digit (b % 16) ∷ encode_hex bs

-- The digits of a number before those in `out`; each round of the fuel writes one.
unfoldable pub hex_digits : ℕ → ℕ → Text → Text
hex_digits zero n out = out
hex_digits (suc fuel) n out =
    let more = hex_digits fuel (n / 16) (hex_digit (n % 16) ∷ out) in
    if ltb n 16 then hex_digit n ∷ out else more

-- `fmt.Sprintf("%x", …)` of a time, which is no more than 64 bits.
unfoldable pub format_hex : ℕ → Text
unfolding hex_digits
format_hex n = hex_digits 16 n []

-- `random` is what `rand.Read` filled in, if it succeeded.
unfoldable pub incoming_or_new_id : Option (List ℕ) → ℕ → Text → Text
unfolding is_safe_id encode_hex format_hex
incoming_or_new_id random now incoming =
    if is_safe_id incoming
    then incoming
    else elim random [ none ↦ format_hex now | some filled ↦ encode_hex filled ]

unfoldable pub ensure : Option (List ℕ) → ℕ → Request → Store → Request × Store
unfolding current incoming_or_new_id
ensure random now r store =
    if is_some (current r store)
    then (r, store)
    else let id = incoming_or_new_id random now (get id_header r.header) in
      (
        record r { metadata = some (length store); header = Http.set id_header id r.header },
        store ++ (record { request_id = id; backend = []; route = [] } ∷ []),
      )

unfoldable pub request_id : Request → Store → Text
unfolding current
request_id r store = elim (current r store) [ none ↦ [] | some m ↦ m.request_id ]

unfoldable pub backend : Request → Store → Text
unfolding current
backend r store = elim (current r store) [ none ↦ [] | some m ↦ m.backend ]

unfoldable pub route : Request → Store → Text
unfolding current
route r store = elim (current r store) [ none ↦ [] | some m ↦ m.route ]

-- A write to the metadata at an address.
abbrev pub update : (Metadata → Metadata) → ℕ → Store → Store
update f i store = elim (get_elem? store i) [ none ↦ store | some m ↦ set store i (f m) ]

unfoldable pub set_backend : Request → Text → Store → Store
set_backend r name store = elim r.metadata [
  | none ↦ store
  | some i ↦ update (λ m. record m { backend = name }) i store
]

unfoldable pub set_route : Request → Text → Store → Store
set_route r prefix store = elim r.metadata [
  | none ↦ store
  | some i ↦ update (λ m. record m { route = prefix }) i store
]
