-- ===== src/Fm/Health.antt =====
-- src/FM/pkg/observability/health.go: which services are ready, and the answer of /readyz. The
-- times in an answer are left out.
use dash_fabric.Base.{ℕ, Bool, true, false, List, [], ◌∷◌, Bytes, bytes, bytes_eq, if◌then◌else◌}
use dash_fabric.Base.Map.{Map, insert}
mod Laws

pub record HealthChecker : Type 0 where
  pub services : Map Bytes Bool

unfoldable pub new_health_checker : HealthChecker
new_health_checker = record {
  services =
      (bytes "cm", false) ∷ (bytes "dm", false) ∷ (bytes "gm", false) ∷ (bytes "dal", false) ∷ [];
}

unfoldable pub set_service_status : HealthChecker → Bytes → Bool → HealthChecker
set_service_status hc service ready = record { services = insert service ready hc.services }

abbrev pub all_ready : Map Bytes Bool → Bool
all_ready [] = true
all_ready ((service, ready) ∷ rest) = if ready then all_ready rest else false

unfoldable pub is_ready : HealthChecker → Bool
is_ready hc = all_ready hc.services

-- The loop of ReadyzHandler: the text for each service, and whether all are ready.
abbrev pub readyz_loop : Map Bytes Bool → Map Bytes Bytes × Bool
readyz_loop [] = ([], true)
readyz_loop ((service, ready) ∷ rest) =
    let (services, all) = readyz_loop rest in
    if ready
    then ((service, bytes "ready") ∷ services, all)
    else ((service, bytes "not_ready") ∷ services, false)

-- The status code and the services in the body.
unfoldable pub readyz : HealthChecker → ℕ × Map Bytes Bytes
readyz hc = let (services, all) = readyz_loop hc.services in (if all then 200 else 503, services)
