-- ===== src/HttpCache/Tests.antt =====
-- Requests and captured responses.
use gatex.Prelude.{◌≡◌, refl, true, false, List, [], ◌∷◌, none, some, arith}
use gatex.Prelude.Text.{bytes, text_eq, trim_space, trim_left, trim_right, split, cut, to_lower}
use gatex.Cache.{Response}
use gatex.HttpCache.Policy.{response_cache_key-injective}
use gatex.HttpCache.Replay.{Call, call_header, call_write, run, step}
use gatex.Http.{Request, get, values, take_bytes}
use gatex.HttpCache.{write, is_cacheable_request, response_cache_key, empty_capture, response}

abbrev plain : Request
plain = record {
  method = bytes "GET";
  has_body = false;
  header = (bytes "Accept", bytes "*/*" ∷ []) ∷ [];
  tls = false;
  host = bytes "A.example";
  request_uri = bytes "/x?y=1";
  path = bytes "/x";
  remote_addr = bytes "192.0.2.1:9";
  metadata = none;
}

abbrev refused : Request
refused = record plain { header = (bytes "Cache-Control", bytes "max-age=5, No-Store" ∷ []) ∷ [] }

program : Unit {0}
unfolding text_eq trim_space trim_left trim_right get values split cut to_lower is_cacheable_request
    response take_bytes run step response_cache_key write
program = tt

plain_cached : is_cacheable_request plain ≡ true
unfolding program
plain_cached = refl

no_store_refused : is_cacheable_request refused ≡ false
unfolding program
no_store_refused = refl

abbrev calls : List Call
calls =
    call_header [] 103 ∷ call_write [] (bytes "ab") 2 false ∷ call_write [] (bytes "c") 1 false ∷ []

abbrev stored : Response
stored = record { status_code = 200; header = []; body = bytes "abc" }

captured : response [] (run calls empty_capture) ≡ some stored
unfolding program
captured = refl

short_write : response [] (run (call_write [] (bytes "ab") 1 false ∷ []) empty_capture) ≡ none
unfolding program
short_write = refl

abbrev shouted : Request
shouted = record plain { host = bytes "a.EXAMPLE" }

same_key : response_cache_key plain ≡ response_cache_key shouted
unfolding program
same_key = refl

abbrev secure : Request
secure = record shouted { tls = true }

secure_twice : response_cache_key secure ≡ response_cache_key (record plain { tls = true })
unfolding program
secure_twice = refl

response_cache_key-injective_example :
    (true ≡ true) × (to_lower secure.host ≡ to_lower plain.host) × (bytes "/x?y=1" ≡ bytes "/x?y=1")
response_cache_key-injective_example =
    response_cache_key-injective secure (record plain { tls = true }) (ground arith) (ground arith)
      secure_twice
