-- ===== src/Fm/Resilience/Tests.antt =====
-- Runs of the breaker and of the retry loop. A world is its clock.
use dash_fabric.Base.{ℕ, ◌+◌, ◌≡◌, refl, Option, some, arith, bytes, Bytes, ltb}
use dash_fabric.Base.Int.{pos}
use dash_fabric.Fm.Resilience.Breaker.{
  CircuitBreaker, state_closed, state_open, new_circuit_breaker,
}
use dash_fabric.Fm.Resilience.Breaker.Threshold.{calls, opens_at_threshold}
use dash_fabric.Fm.Resilience.Retry.{Context, Run, attempt, attempt-Run}
use dash_fabric.Fm.Resilience.Classify.{classify_error, permanent}

abbrev clock : ℕ → ℕ
clock w = w

abbrev refused : ℕ → ℕ × Option Bytes
refused w = (w + 1, some (bytes "connection refused"))

abbrev two_failures : CircuitBreaker
two_failures = new_circuit_breaker (pos 2) (pos 1) (pos 10)

abbrev closed : CircuitBreaker
closed = record {
  state = state_closed;
  failure_count = pos 0;
  failure_threshold = pos 2;
  success_count = pos 0;
  success_threshold = pos 1;
  last_failure_time = 0;
  timeout = pos 10;
}

opens_at_threshold_example : (calls clock 2 closed refused 5).0.state ≡ state_open
opens_at_threshold_example =
    opens_at_threshold clock refused (λ w. (bytes "connection refused", refl)) 2 2 closed 5 refl
      refl refl (omega arith) (omega arith) (omega arith)

-- A wait takes ten, and the context is done from 25 on.
abbrev until_25 : Context ℕ
until_25 = record { done = λ w. ltb 24 w; wait = λ a w. (w + 10, ltb 24 (w + 10)) }

attempt-Run_example : Run until_25 (pos 3) refused 4 0 0 (attempt until_25 (pos 3) refused 0)
attempt-Run_example = attempt-Run until_25 (pos 3) refused 3 refl 0

reset_by_peer : classify_error (some (bytes "connection reset by peer")) ≡ permanent
unfolding classify_error
reset_by_peer = refl
