-- ===== src/Weaver/Checkers.antt =====
-- src/Weaver/pkg/health/checkers.go: the checkers of health and their factory. Dialling, the clock and
-- contexts are arguments; a connection is closed at once. Times are in nanoseconds.
use dash_fabric.Base.{
  ℕ, zero, suc, ◌+◌, ◌/◌, Bool, true, false, Option, none, some, Bytes, bytes, bytes_eq, ◌==◌, ◌++◌,
  [], if◌then◌else◌,
}
use dash_fabric.Base.Map.{Map, lookup}
use dash_fabric.Base.Int.{ℤ, pos, negsuc, since, beq_ℤ}
pub mod Laws
mod Tests

pub record HealthCheckResult : Type 0 where
  pub healthy : Bool
  pub response_time_ms : ℤ
  pub failure : Bytes
  pub checked_at : ℕ

-- What a check asks of the world: the clock, whether a context has a deadline, a context with a
-- timeout, and a dial over TCP within a timeout, which tells the text of its error.
pub record Network (W C : Type 0) : Type 0 where
  pub now : W → W × ℕ
  pub has_deadline : C → Bool
  pub with_timeout : C → ℤ → C
  pub dial : C → ℤ → Bytes → W → W × Option Bytes

abbrev pub Check : Type 0 → Type 0 → Type 0
Check W C = C → Bytes → W → W × HealthCheckResult

-- The function of a custom checker may be nil.
pub data HealthChecker (W C : Type 0) : Type 0 where
  tcp : ℤ → HealthChecker W C
  grpc : Bytes → ℤ → HealthChecker W C
  custom : Option (Check W C) → HealthChecker W C

abbrev pub timeout_or_default : ℤ → ℤ
timeout_or_default timeout = if beq_ℤ timeout (pos 0) then pos 5000000000 else timeout

abbrev pub default_service : Bytes
default_service = bytes "weaver.gateway.Health"

-- time.Duration.Milliseconds
abbrev milliseconds : ℤ → ℤ
milliseconds (pos n) = pos (n / 1000000)
milliseconds (negsuc n) = elim ((n + 1) / 1000000) [ zero ↦ pos 0 | suc m ↦ negsuc m ]

module _ {W C : Type 0} where
  unfoldable pub new_tcp_health_checker : ℤ → HealthChecker W C
  new_tcp_health_checker timeout = tcp (timeout_or_default timeout)

  unfoldable pub new_grpc_health_checker : Bytes → ℤ → HealthChecker W C
  new_grpc_health_checker service timeout =
      grpc (if service == [] then default_service else service) (timeout_or_default timeout)

  unfoldable pub new_custom_health_checker : Option (Check W C) → HealthChecker W C
  new_custom_health_checker check_fn = custom check_fn

  module _ (net : Network W C) where
    abbrev pub outcome : Bytes → ℕ → W × Option Bytes → W × HealthCheckResult
    outcome prefix start (w, some text) = (
      w,
      record {
        healthy = false;
        response_time_ms = pos 0;
        failure = prefix ++ text;
        checked_at = start;
      },
    )
    outcome prefix start (w, none) =
        let (w', end) = net.now w in
        (
          w',
          record {
            healthy = true;
            response_time_ms = milliseconds (since end start);
            failure = [];
            checked_at = start;
          },
        )

    -- The check by a connection, of TCP and of gRPC alike
    unfoldable pub connect_check : Bytes → ℤ → Check W C
    connect_check prefix timeout ctx address w =
        let (w', start) = net.now w in
        let check_ctx = if net.has_deadline ctx then ctx else net.with_timeout ctx timeout in
        outcome prefix start (net.dial check_ctx timeout address w')

    abbrev undefined : W × ℕ → W × HealthCheckResult
    undefined (w, t) = (
      w,
      record {
        healthy = false;
        response_time_ms = pos 0;
        failure = bytes "custom health check function not defined";
        checked_at = t;
      },
    )

    unfoldable pub custom_check : Option (Check W C) → Check W C
    custom_check none ctx address w = undefined (net.now w)
    custom_check (some check_fn) ctx address w = check_fn ctx address w

    unfoldable pub check : HealthChecker W C → Check W C
    check (tcp timeout) = connect_check (bytes "tcp health check failed: ") timeout
    check (grpc service timeout) = connect_check (bytes "grpc health check failed: ") timeout
    check (custom check_fn) = custom_check check_fn

-- A value of the configuration, as far as the factory reads it.
pub data Value (W C : Type 0) : Type 0 where
  duration : ℤ → Value W C
  text : Bytes → Value W C
  function : Option (Check W C) → Value W C
  other : Value W C

pub data FactoryError : Type 0 where
  check_fn_required : FactoryError
  unknown_type : Bytes → FactoryError

pub data Created (W C : Type 0) : Type 0 where
  created : HealthChecker W C → Created W C
  not_created : FactoryError → Created W C

module _ {W C : Type 0} where
  abbrev timeout_in : Option (Value W C) → ℤ
  timeout_in (some (duration d)) = d
  timeout_in _ = pos 5000000000

  abbrev service_in : Option (Value W C) → Bytes
  service_in (some (text s)) = s
  service_in _ = default_service

  abbrev custom_in : Option (Value W C) → Created W C
  custom_in (some (function check_fn)) = created (new_custom_health_checker check_fn)
  custom_in _ = not_created check_fn_required

  unfoldable pub new_health_checker : Bytes → Map Bytes (Value W C) → Created W C
  new_health_checker check_type config =
      let timeout = timeout_in (lookup (bytes "timeout") config) in
      if check_type == bytes "tcp"
      then created (new_tcp_health_checker timeout)
      else if check_type == bytes "grpc"
      then created (new_grpc_health_checker (service_in (lookup (bytes "service") config)) timeout)
      else if check_type == bytes "custom"
      then custom_in (lookup (bytes "check_fn") config)
      else not_created (unknown_type check_type)
