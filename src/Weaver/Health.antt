-- ===== src/Weaver/Health.antt =====
-- src/Weaver/pkg/health/monitor.go: the states of the replicas and the panic mode. One processed
-- check is one step. `none` is a nil dereference. The counters are of type int32.
use dash_fabric.Base.{
  ℕ, zero, suc, ◌-◌, ◌%◌, Bool, true, false, not, ◌&&◌, List, [], ◌∷◌, ◌++◌, Option, none, some,
  Bytes, bytes_eq, bytes_beq, if◌then◌else◌, ltb, leb, nat_beq, length,
}
use dash_fabric.Base.Map.{Map, lookup, insert}
use dash_fabric.Base.Int.{ℤ, pos, negsuc, leb_ℤ, to_word}
pub mod Laws
pub mod Panic
mod Tests

pub data ReplicaHealthState : Type 0 where
  healthy unhealthy panic : ReplicaHealthState

pub record HealthConfig : Type 0 where
  pub check_interval : ℤ
  pub check_timeout : ℤ
  pub failure_threshold : ℤ
  pub success_threshold : ℤ
  pub panic_timeout : ℤ

pub record ReplicaState : Type 0 where
  pub state : ReplicaHealthState
  pub consecutive_failures : ℤ
  pub consecutive_success : ℤ
  pub last_failure_time : ℕ
  pub last_check_time : ℕ

pub record StateChange : Type 0 where
  pub replica_name : Bytes
  pub old_state : ReplicaHealthState
  pub new_state : ReplicaHealthState
  pub timestamp : ℕ

pub record Monitor : Type 0 where
  pub config : HealthConfig
  -- the flag Healthy of each replica, by its name
  pub flags : Map Bytes Bool
  pub states : Map Bytes ReplicaState
  pub global_panic_mode : Bool
  pub global_panic_time : ℕ
  -- what waits in the channel, which has room for 10
  pub state_changes : List StateChange

pub record HealthCheckResult : Type 0 where
  pub is_healthy : Bool
  pub response_time_ms : ℕ
  pub checked_at : ℕ

abbrev pub inc32 : ℤ → ℤ
inc32 (pos n) = if ltb n 2147483647 then pos (suc n) else negsuc 2147483647
inc32 (negsuc zero) = pos 0
inc32 (negsuc (suc n)) = negsuc n

-- The conversion int32(n).
unfoldable pub to_int32 : ℤ → ℤ
to_int32 n =
    let w = to_word n % 4294967296 in if leb w 2147483647 then pos w else negsuc (4294967295 - w)

abbrev pub beq_state : ReplicaHealthState → ReplicaHealthState → Bool
beq_state healthy healthy = true
beq_state unhealthy unhealthy = true
beq_state panic panic = true
beq_state _ _ = false

abbrev positive_or : ℤ → ℕ → ℤ
positive_or n d = if leb_ℤ n (pos 0) then pos d else n

abbrev pub defaults : HealthConfig → HealthConfig
defaults c = record {
  failure_threshold = positive_or c.failure_threshold 3;
  success_threshold = positive_or c.success_threshold 2;
  check_interval = positive_or c.check_interval 5000000000;
  check_timeout = positive_or c.check_timeout 2000000000;
  panic_timeout = positive_or c.panic_timeout 30000000000;
}

abbrev pub new_state : ReplicaState
new_state = record {
  state = healthy;
  consecutive_failures = pos 0;
  consecutive_success = pos 0;
  last_failure_time = 0;
  last_check_time = 0;
}

abbrev pub new_states : Map Bytes Bool → Map Bytes ReplicaState → Map Bytes ReplicaState
new_states [] states = states
new_states ((name, flag) ∷ rs) states = new_states rs (insert name new_state states)

unfoldable pub new_monitor : Map Bytes Bool → HealthConfig → Monitor
new_monitor replicas config = record {
  config = defaults config;
  flags = replicas;
  states = new_states replicas [];
  global_panic_mode = false;
  global_panic_time = 0;
  state_changes = [];
}

-- What processCheckResult makes of the state of one replica, at the time `now`.
unfoldable pub update_state : HealthConfig → ReplicaState → HealthCheckResult → ℕ → ReplicaState
update_state config s result now =
    if result.is_healthy
    then (let successes = inc32 s.consecutive_success in
        let s' : ReplicaState = record s {
          last_check_time = result.checked_at;
          consecutive_failures = pos 0;
          consecutive_success = successes;
        } in
        if beq_state s.state unhealthy && leb_ℤ (to_int32 config.success_threshold) successes
        then record s' { state = healthy; consecutive_success = pos 0 }
        else (if beq_state s.state healthy then record s' { consecutive_success = pos 0 } else s'))
    else (let failures = inc32 s.consecutive_failures in
        let s' : ReplicaState = record s {
          last_check_time = result.checked_at;
          consecutive_success = pos 0;
          consecutive_failures = failures;
          last_failure_time = now;
        } in
        if leb_ℤ (to_int32 config.failure_threshold) failures
        then record s' { state = unhealthy; consecutive_failures = pos 0 }
        else s')

abbrev pub count_healthy : Map Bytes ReplicaState → ℕ
count_healthy [] = 0
count_healthy ((name, s) ∷ m) =
    if beq_state s.state healthy then suc (count_healthy m) else count_healthy m

unfoldable pub update_panic_mode : Monitor → ℕ → Monitor
update_panic_mode m now =
    let was_panic = m.global_panic_mode in
    let is_panic = nat_beq (count_healthy m.states) 0 && ltb 0 (length m.states) in
    record m {
      global_panic_mode = is_panic;
      global_panic_time =
          if is_panic && not was_panic
          then now
          else (if not is_panic && was_panic then 0 else m.global_panic_time);
    }

abbrev pub notify :
    List StateChange → Bytes → ReplicaHealthState → ReplicaHealthState → ℕ → List StateChange
notify l name old new now =
    if not (beq_state old new) && ltb (length l) 10
    then l ++ record { replica_name = name; old_state = old; new_state = new; timestamp = now } ∷ []
    else l

-- The monitor with the new state `s'` of a replica that had the state `s`.
abbrev pub processed : Monitor → Bytes → ReplicaState → ReplicaState → ℕ → Monitor
processed m name s s' now = record m {
  states = insert name s' m.states;
  flags = insert name (beq_state s'.state healthy) m.flags;
  state_changes = notify m.state_changes name s.state s'.state now;
}

unfoldable pub process_check_result : Monitor → Bytes → HealthCheckResult → ℕ → Option Monitor
process_check_result m name result now = elim (lookup name m.states) [
  | none ↦ none
  | some s ↦
      let s' = update_state m.config s result now in
      some (update_panic_mode (processed m name s s' now) now)
]

-- performCheck does not ask the replica.
unfoldable pub perform_check : Bytes → ℕ → HealthCheckResult
perform_check name now = record { is_healthy = true; response_time_ms = 1; checked_at = now }

unfoldable pub get_state : Monitor → Bytes → ReplicaHealthState
get_state m name = elim (lookup name m.states) [ none ↦ healthy | some s ↦ s.state ]
