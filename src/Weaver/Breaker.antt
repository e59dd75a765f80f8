-- ===== src/Weaver/Breaker.antt =====
-- src/Weaver/pkg/reliability/circuit_breaker.go. Each call holds the mutex and is one step; its
-- argument `now` is what the clock shows. The thresholds are of type int, the totals of type int64.
use dash_fabric.Base.{
  ℕ, suc, ◌+◌, ◌≤◌, ◌<◌, ◌≡◌, refl, Bool, true, false, List, [], ◌∷◌, ◌⊎◌, inl, inr, arith,
  if◌then◌else◌, nat_beq, Bool-cases,
}
use dash_fabric.Base.Int.{ℤ, pos, inc64, leb_ℤ, ltb_ℤ, beq_ℤ, since, max64}
pub mod Cycle
pub mod Laws
mod Tests

pub data CircuitBreakerState : Type 0 where
  closed open' half_open : CircuitBreakerState

pub record CircuitBreaker : Type 0 where
  pub failure_threshold : ℤ
  pub success_threshold : ℤ
  pub timeout : ℤ
  pub state : CircuitBreakerState
  pub last_failure_time : ℕ
  pub consecutive_failures : ℤ
  pub consecutive_successes : ℤ
  pub total_failures : ℤ
  pub total_successes : ℤ
  pub state_changes : ℤ

abbrev or_default : ℤ → ℕ → ℤ
or_default n d = if beq_ℤ n (pos 0) then pos d else n

unfoldable pub new_circuit_breaker : ℤ → ℤ → ℤ → ℕ → CircuitBreaker
new_circuit_breaker failures successes duration now = record {
  failure_threshold = or_default failures 5;
  success_threshold = or_default successes 2;
  timeout = or_default duration 30000000000;
  state = closed;
  last_failure_time = now;
  consecutive_failures = pos 0;
  consecutive_successes = pos 0;
  total_failures = pos 0;
  total_successes = pos 0;
  state_changes = pos 0;
}

unfoldable pub allow : CircuitBreaker → ℕ → CircuitBreaker × Bool
allow cb now = elim cb.state [
  | closed ↦ (cb, true)
  | open' ↦
      if leb_ℤ cb.timeout (since now cb.last_failure_time)
      then (
        record cb {
          state = half_open;
          consecutive_successes = pos 0;
          consecutive_failures = pos 0;
          state_changes = inc64 cb.state_changes;
        },
        true,
      )
      else (cb, false)
  | half_open ↦ (cb, true)
]

unfoldable pub record_success : CircuitBreaker → CircuitBreaker
record_success cb =
    let cb' : CircuitBreaker = record cb {
      total_successes = inc64 cb.total_successes;
      consecutive_failures = pos 0;
    } in
    let successes = inc64 cb.consecutive_successes in
    elim cb.state [
      | closed ↦ cb'
      | open' ↦ cb'
      | half_open ↦
          if leb_ℤ cb.success_threshold successes
          then record cb' {
            state = closed;
            consecutive_successes = pos 0;
            state_changes = inc64 cb.state_changes;
          }
          else record cb' { consecutive_successes = successes }
    ]

unfoldable pub record_failure : CircuitBreaker → ℕ → CircuitBreaker
record_failure cb now =
    let cb' : CircuitBreaker = record cb {
      total_failures = inc64 cb.total_failures;
      last_failure_time = now;
      consecutive_successes = pos 0;
    } in
    let failures = inc64 cb.consecutive_failures in
    let opened : CircuitBreaker = record cb' {
      state = open';
      consecutive_failures = pos 0;
      state_changes = inc64 cb.state_changes;
    } in
    elim cb.state [
      | closed ↦
          if leb_ℤ cb.failure_threshold failures
          then opened
          else record cb' { consecutive_failures = failures }
      | open' ↦ cb'
      | half_open ↦ opened
    ]

unfoldable pub reset : CircuitBreaker → ℕ → CircuitBreaker
reset cb now = record cb {
  state = closed;
  consecutive_failures = pos 0;
  consecutive_successes = pos 0;
  total_failures = pos 0;
  total_successes = pos 0;
  state_changes = pos 0;
  last_failure_time = now;
}
