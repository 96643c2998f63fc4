-- ===== src/HealthChecker/Tests.antt =====
-- One check of two backends.
use gatex.Prelude.{ℕ, zero, suc, ◌≡◌, refl, true, false, List, [], ◌∷◌}
use gatex.Prelude.Text.{bytes}
use gatex.Balancer.{Backend, set_healthy}
use gatex.HealthChecker.{Probe, failed, answered, check}

abbrev backends : List Backend
backends =
    record { url = bytes "http://a"; healthy = true; active_connections = 3 }
    ∷ record { url = bytes "http://b"; healthy = false; active_connections = 0 }
    ∷ []

abbrev probes : ℕ → Probe
probes zero = failed
probes (suc i) = answered 204 true

swapped :
    check (1 ∷ 0 ∷ []) probes backends
    ≡ record { url = bytes "http://a"; healthy = false; active_connections = 3 }
      ∷ record { url = bytes "http://b"; healthy = true; active_connections = 0 }
      ∷ []
unfolding check set_healthy
swapped = refl
