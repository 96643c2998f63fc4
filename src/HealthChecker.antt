-- ===== src/HealthChecker.antt =====
-- internal/balancer/health_checker.go: the settings of a health checker, and its verdicts on the
-- backends of a pool. The HTTP exchange of one probe is an input; the probes of one `Check` run
-- concurrently, and end in any order.
pub mod Checks
mod Tests
use gatex.Prelude.{
  ℕ, ◌*◌, ◌^◌, Bool, true, false, not, ◌&&◌, List, [], ◌∷◌, Result, ok, err, leb, ltb,
  if◌then◌else◌,
}
use gatex.Prelude.Int.{ℤ, is_neg, is_zero, nonneg}
use gatex.Prelude.Text.{Text, bytes, text_eq, has_prefix}
use gatex.Balancer.{Backend, set_healthy}

pub data CheckerError : Type 0 where
  err_negative_health_check_interval err_negative_health_check_timeout : CheckerError
  err_invalid_health_check_path : CheckerError

abbrev pub default_health_check_path : Text
default_health_check_path = bytes "/healthz"

abbrev pub default_health_check_interval : ℕ
default_health_check_interval = 10 * 10 ^ 9

abbrev pub default_health_check_timeout : ℕ
default_health_check_timeout = 2 * 10 ^ 9

pub record HealthChecker : Type 0 where
  pub interval : ℕ
  pub timeout : ℕ
  pub path : Text

unfoldable pub new_health_checker : ℤ → ℤ → Text → Result CheckerError HealthChecker
new_health_checker interval timeout path =
    if is_neg interval
    then err err_negative_health_check_interval
    else if is_neg timeout
    then err err_negative_health_check_timeout
    else if not (text_eq path []) && not (has_prefix path (bytes "/"))
    then err err_invalid_health_check_path
    else ok (record {
      interval = if is_zero interval then default_health_check_interval else nonneg interval;
      timeout = if is_zero timeout then default_health_check_timeout else nonneg timeout;
      path = if text_eq path [] then default_health_check_path else path;
    })

-- How a probe ends: an error before a response came, or the response's status and whether closing
-- its body succeeded.
pub data Probe : Type 0 where
  failed : Probe
  answered : ℕ → Bool → Probe

-- The value that `checkBackend` stores.
pub verdict : Probe → Bool
verdict failed = false
verdict (answered status closed) = closed && leb 200 status && ltb status 400

pub check_backend : ℕ → Probe → List Backend → List Backend
unfolding verdict
check_backend i probe backends = set_healthy i (verdict probe) backends

-- `Check`, with the order in which the probes end; `probes` gives the probe of each backend.
pub check : List ℕ → (ℕ → Probe) → List Backend → List Backend
unfolding check_backend
check [] probes backends = backends
check (i ∷ order) probes backends = check order probes (check_backend i (probes i) backends)
