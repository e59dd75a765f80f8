-- ===== src/Weaver/Health/Tests.antt =====
-- Runs of the health monitor.
use dash_fabric.Base.{◌≡◌, refl, Bool, true, false, [], ◌∷◌, some, Bytes, bytes, bytes_eq}
use dash_fabric.Base.Map.{Map, lookup, insert}
use dash_fabric.Base.Int.{pos}
use dash_fabric.Weaver.Health.{
  healthy, HealthConfig, ReplicaState, HealthCheckResult, Monitor, new_monitor, get_state, to_int32,
}
use dash_fabric.Weaver.Health.Laws.{Inv}
use dash_fabric.Weaver.Health.Panic.{monitor_run, always_healthy}

abbrev config : HealthConfig
config = record {
  check_interval = pos 0;
  check_timeout = pos 0;
  failure_threshold = pos 2;
  success_threshold = pos 2;
  panic_timeout = pos 0;
}

abbrev failing : HealthCheckResult
failing = record { is_healthy = false; response_time_ms = 3; checked_at = 9 }

abbrev shaky : ReplicaState
shaky = record {
  state = healthy;
  consecutive_failures = pos 1;
  consecutive_success = pos 0;
  last_failure_time = 5;
  last_check_time = 5;
}

shaky-Inv : Inv config shaky
unfolding to_int32
shaky-Inv = record { no_panic = refl; failures_below = refl; successes_none = λ h. refl }

abbrev watched : Monitor
watched = record {
  config = config;
  flags = (bytes "a", true) ∷ [];
  states = (bytes "a", shaky) ∷ [];
  global_panic_mode = false;
  global_panic_time = 0;
  state_changes = [];
}

abbrev replicas : Map Bytes Bool
replicas = (bytes "a", true) ∷ (bytes "b", false) ∷ []

always_healthy_example :
    (m' : Monitor) × (monitor_run
        (new_monitor replicas config)
        ((bytes "b", 5) ∷ (bytes "a", 6) ∷ [])
      ≡ some m')
    × ((name : Bytes) → get_state m' name ≡ healthy)
unfolding lookup insert new_monitor
always_healthy_example =
    always_healthy replicas config ((bytes "b", 5) ∷ (bytes "a", 6) ∷ []) (refl, (refl, tt))
