-- ===== src/Weaver/Checkers/Laws.antt =====
-- What a checker of gRPC asks of a replica.
use dash_fabric.Base.{ℕ, ◌≡◌, refl, Option, none, some, Bytes, bytes, if◌then◌else◌}
use dash_fabric.Base.Int.{ℤ}
use dash_fabric.Weaver.Checkers.{
  HealthCheckResult, Network, timeout_or_default, outcome, check, connect_check,
  new_tcp_health_checker, new_grpc_health_checker,
}

-- The results agree but for the text of the error.
abbrev pub Agrees : {W : Type 0} → W × HealthCheckResult → W × HealthCheckResult → Type 0
Agrees (v, r) (w, s) =
    (v ≡ w)
    × (r.healthy ≡ s.healthy)
    × (r.response_time_ms ≡ s.response_time_ms)
    × (r.checked_at ≡ s.checked_at)

module _ {W C : Type 0} where
  outcome-Agrees :
      (net : Network W C) (p q : Bytes) (start : ℕ) (o : W × Option Bytes)
      → Agrees (outcome net p start o) (outcome net q start o)
  outcome-Agrees net p q start (w, none) = (refl, refl, refl, refl)
  outcome-Agrees net p q start (w, some t) = (refl, refl, refl, refl)

  -- A checker of gRPC, for any service, asks what one of TCP with the same timeout asks: it leaves the
  -- same world, and has the same answer but for the text of an error.
  grpc-Agrees :
      (net : Network W C) (service : Bytes) (timeout : ℤ) (ctx : C) (address : Bytes) (w : W)
      → Agrees
          (check net (new_grpc_health_checker service timeout) ctx address w)
          (check net (new_tcp_health_checker timeout) ctx address w)
  unfolding check connect_check new_grpc_health_checker new_tcp_health_checker
  grpc-Agrees net service timeout ctx address w =
      let limit = timeout_or_default timeout in
      let check_ctx = if net.has_deadline ctx then ctx else net.with_timeout ctx limit in
      outcome-Agrees net (bytes "grpc health check failed: ") (bytes "tcp health check failed: ")
        (net.now w).1 (net.dial check_ctx limit address (net.now w).0)
