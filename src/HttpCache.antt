-- ===== src/HttpCache.antt =====
-- internal/proxy/cache.go: which requests and responses of a route are cached, and the writer that
-- captures a response on its way to the client. The arguments of `write` stand for what the
-- underlying writer takes of a body and whether it reports an error.
pub mod Policy
pub mod Replay
mod Tests
use gatex.Prelude.{
  ℕ, zero, suc, ◌+◌, ◌^◌, Bool, true, false, not, ◌&&◌, ◌||◌, List, [], ◌∷◌, ◌++◌, Option, none,
  some, ltb, leb, ◌==◌, if◌then◌else◌, length,
}
use gatex.Prelude.Text.{
  Text, bytes, text_eq, trim_space, trim_left, trim_right, split, cut, to_lower, comma, any,
}
use gatex.Http.{Header, Request, values, get, take_bytes}
use gatex.Cache.{Response}

-- The `switch` on one directive of `Cache-Control`.
pub directive_prevents : Text → Bool
directive_prevents directive =
    let (name, argument) = cut 61 (trim_space directive) in
    let n = to_lower name in
    if text_eq n (bytes "no-cache") || text_eq n (bytes "no-store") || text_eq n (bytes "private")
    then true
    else if text_eq n (bytes "max-age") || text_eq n (bytes "s-maxage")
    then elim argument [
      | none ↦ false
      | some a ↦ text_eq (trim_right 34 (trim_left 34 (trim_space a))) (bytes "0")
    ]
    else false

unfoldable pub cache_control_prevents_caching : Header → Bool
unfolding directive_prevents
cache_control_prevents_caching header =
    any (λ value. any directive_prevents (split comma value))
      (values (bytes "Cache-Control") header)

-- `strings.EqualFold` of ASCII texts.
unfoldable pub header_has_directive : List Text → Text → Bool
header_has_directive vs wanted =
    any
      (λ value.
        any (λ directive. text_eq (to_lower (trim_space directive)) (to_lower wanted))
          (split comma value))
      vs

pub response_headers_prevent_caching : Header → Bool
unfolding cache_control_prevents_caching
response_headers_prevent_caching header =
    cache_control_prevents_caching header
    || not (text_eq (get (bytes "Set-Cookie") header) [])
    || not (text_eq (get (bytes "Vary") header) [])
    || not (text_eq (get (bytes "Content-Range") header) [])
    || not (text_eq (get (bytes "Content-Encoding") header) [])
    || not (text_eq (get (bytes "Trailer") header) [])

-- Header fields that make a response depend on more than the URL.
abbrev pub personal : List Text
personal =
    bytes "Authorization"
    ∷ bytes "Cookie"
    ∷ bytes "If-Match"
    ∷ bytes "If-Modified-Since"
    ∷ bytes "If-None-Match"
    ∷ bytes "If-Range"
    ∷ bytes "If-Unmodified-Since"
    ∷ bytes "Range"
    ∷ bytes "Upgrade"
    ∷ []

unfoldable pub is_cacheable_request : Request → Bool
unfolding cache_control_prevents_caching header_has_directive
is_cacheable_request r =
    if not (text_eq r.method (bytes "GET")) || r.has_body
    then false
    else if any (λ name. not (text_eq (get name r.header) [])) personal
    then false
    else not (cache_control_prevents_caching r.header)
      && not (header_has_directive (values (bytes "Pragma") r.header) (bytes "no-cache"))

pub response_cache_key : Request → Text
response_cache_key r =
    (if r.tls then bytes "https" else bytes "http")
    ++ (0 ∷ (to_lower r.host ++ (0 ∷ r.request_uri)))

abbrev pub max_cacheable_response_bytes : ℕ
max_cacheable_response_bytes = 2 ^ 20

-- `cacheResponseWriter`; `header` is the copy that `WriteHeader` takes.
pub record Capture : Type 0 where
  pub status_code : ℕ
  pub header : Header
  pub body : Text
  pub wrote_header : Bool
  pub recording : Bool
  pub write_failed : Bool

abbrev pub empty_capture : Capture
empty_capture = record {
  status_code = 0;
  header = [];
  body = [];
  wrote_header = false;
  recording = false;
  write_failed = false;
}

-- `WriteHeader`, with the underlying writer's header; an informational status only passes through.
unfoldable pub write_header : Header → ℕ → Capture → Capture
unfolding response_headers_prevent_caching
write_header current status w =
    if leb 100 status && ltb status 200 && not (status == 101)
    then w
    else if w.wrote_header
    then w
    else record w {
      status_code = status;
      header = current;
      wrote_header = true;
      recording = (status == 200) && not (response_headers_prevent_caching current);
    }

-- `Write` once the header is written: the underlying writer takes `written` bytes and may report an
-- error.
unfoldable pub append_body : Text → ℕ → Bool → Capture → Capture
append_body body written failed w =
    let checked : Capture = record w {
      write_failed = if failed || not (written == length body) then true else w.write_failed;
    } in
    if checked.recording
    then if ltb max_cacheable_response_bytes (length checked.body + written)
      then record checked { recording = false; body = [] }
      else record checked { body = checked.body ++ take_bytes written body }
    else checked

-- `Write`; a first write writes the header first.
unfoldable pub write : Header → Text → ℕ → Bool → Capture → Capture
unfolding write_header append_body
write current body written failed w =
    append_body body written failed (if not w.wrote_header then write_header current 200 w else w)

-- `response`: what is to be cached, if anything.
unfoldable pub response : Header → Capture → Option Response
unfolding response_headers_prevent_caching
response current w =
    let ended : Capture = if w.wrote_header then w else record w {
      status_code = 200;
      header = current;
      recording = not (response_headers_prevent_caching current);
    } in
    if not ended.recording || ended.write_failed
    then none
    else some (record { status_code = ended.status_code; header = ended.header; body = ended.body })
