-- ===== src/RequestMeta/Tests.antt =====
-- Identifiers, and the metadata of a request and of its clone.
use gatex.Prelude.{◌≡◌, refl, ℕ, false, List, [], ◌∷◌, none, some, arith}
use gatex.Prelude.Text.{bytes, text_eq}
use gatex.Http.{Request, get, values, put_values, set}
use gatex.RequestMeta.{
  id_header, ensure, current, incoming_or_new_id, is_safe_id, visible_bytes, encode_hex, format_hex,
  hex_digits, request_id, backend, route, set_route,
}
use gatex.RequestMeta.Ids.{IsSafe, decode_hex, read_hex, incoming_or_new_id_lem}

program : Unit {0}
unfolding text_eq get values put_values set ensure current incoming_or_new_id is_safe_id
    visible_bytes encode_hex format_hex hex_digits request_id backend route set_route
program = tt

abbrev sixteen : List ℕ
sixteen = 0 ∷ 1 ∷ 2 ∷ 3 ∷ 4 ∷ 5 ∷ 6 ∷ 7 ∷ 8 ∷ 9 ∷ 10 ∷ 11 ∷ 12 ∷ 13 ∷ 254 ∷ 255 ∷ []

abbrev request : Request
request = record {
  method = bytes "GET";
  host = bytes "a.example";
  path = bytes "/x";
  remote_addr = bytes "192.0.2.1:9";
  request_uri = bytes "/x";
  tls = false;
  has_body = false;
  header = (id_header, bytes "two words" ∷ []) ∷ [];
  metadata = none;
}

generated :
    incoming_or_new_id (some sixteen) 0 (bytes "two words")
    ≡ bytes "000102030405060708090a0b0c0dfeff"
unfolding program
generated = refl

from_time : incoming_or_new_id none 0x18f3 [] ≡ bytes "18f3"
unfolding program
from_time = refl

kept : incoming_or_new_id none 1 (bytes "abc-1") ≡ bytes "abc-1"
unfolding program
kept = refl

incoming_or_new_id_lem_example :
    let id = incoming_or_new_id (some sixteen) 5 (bytes "two words") in
    IsSafe id
    × (IsSafe (bytes "two words") → id ≡ bytes "two words")
    × (¬ IsSafe (bytes "two words")
        → (bs : List ℕ) → some sixteen ≡ some bs
        → decode_hex id ≡ some bs)
    × (¬ IsSafe (bytes "two words") → some sixteen ≡ none → read_hex id 0 ≡ 5)
incoming_or_new_id_lem_example =
    incoming_or_new_id_lem (some sixteen) 5 (bytes "two words") (refl, omega arith) (omega arith)

no_metadata : current request [] ≡ none
unfolding current
no_metadata = refl
