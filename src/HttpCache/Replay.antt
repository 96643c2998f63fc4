-- ===== src/HttpCache/Replay.antt =====
-- The response that the writer of internal/proxy/cache.go captures is the one that the client got.
use gatex.Prelude.{ℕ, ◌≤◌, ◌≡◌, Bool, true, false, not, ◌&&◌, List, [], ◌∷◌, ◌++◌, length, ◌==◌}
use gatex.Prelude.Text.{Text, bytes}
use gatex.Http.{Header, take_bytes}
use gatex.HttpCache.{
  Capture, write_header, write, response_headers_prevent_caching, max_cacheable_response_bytes,
}

-- What a handler does with its writer; the header is the underlying writer's at the time.
pub data Call : Type 0 where
  call_header : Header → ℕ → Call
  call_write : Header → Text → ℕ → Bool → Call

unfoldable pub step : Call → Capture → Capture
step (call_header current status) w = write_header current status w
step (call_write current body written failed) w = write current body written failed w

unfoldable pub run : List Call → Capture → Capture
run [] w = w
run (c ∷ cs) w = run cs (step c w)

-- The bytes of the body that the client got.
pub sent : List Call → Text
sent [] = []
sent (call_header current status ∷ cs) = sent cs
sent (call_write current body written failed ∷ cs) = take_bytes written body ++ sent cs

pub all_succeed : List Call → Bool
all_succeed [] = true
all_succeed (call_header current status ∷ cs) = all_succeed cs
all_succeed (call_write current body written failed ∷ cs) =
    (not failed && (written == length body)) && all_succeed cs

-- With the bytes sent so far.
record IsCapturing (so_far : Text) (ok_so_far : Bool) (w : Capture) : Type 0 where
  body : w.recording ≡ true → w.body ≡ so_far
  small : w.recording ≡ true → length w.body ≤ max_cacheable_response_bytes
  status : w.recording ≡ true → (w.status_code ≡ 200) × (w.wrote_header ≡ true)
  header : w.recording ≡ true → response_headers_prevent_caching w.header ≡ false
  idle : w.wrote_header ≡ false → (so_far ≡ []) × (w.body ≡ []) × (w.recording ≡ false)
  failures : w.write_failed ≡ not ok_so_far

-- The header fields of a response that depends on more than the URL, or that is not whole.
abbrev pub confining : List Text
confining =
    bytes "Set-Cookie"
    ∷ bytes "Vary"
    ∷ bytes "Content-Range"
    ∷ bytes "Content-Encoding"
    ∷ bytes "Trailer"
    ∷ []
