-- ===== src/Weaver/Breaker/Tests.antt =====
-- Runs of Weaver's circuit breaker.
use dash_fabric.Base.{◌≡◌, refl, [], ◌∷◌, arith}
use dash_fabric.Base.Int.{pos, since}
use dash_fabric.Weaver.Breaker.{
  CircuitBreaker, closed, open', half_open, record_failure, allow, record_success,
}
use dash_fabric.Weaver.Breaker.Laws.{allows, successes, step, Inv}
use dash_fabric.Weaver.Breaker.Cycle.{failed_at, succeeded, cycle}

abbrev opened : CircuitBreaker
opened = record {
  failure_threshold = pos 2;
  success_threshold = pos 1;
  timeout = pos 10;
  state = open';
  last_failure_time = 7;
  consecutive_failures = pos 0;
  consecutive_successes = pos 0;
  total_failures = pos 2;
  total_successes = pos 0;
  state_changes = pos 1;
}

opened-Inv : Inv opened
opened-Inv = record {
  failures_positive = refl;
  successes_positive = refl;
  closed_below = λ h. cc;
  half_open_below = λ h. cc;
}

probed : (step (step opened (allows 17)) successes).state ≡ closed
unfolding step allow record_success since
probed = refl

abbrev fresh : CircuitBreaker
fresh = record opened { state = closed; total_failures = pos 0; state_changes = pos 0 }

-- Two failures, at 3 and at 7, and a probe at 17
cycle_example :
    let probed = (allow (failed_at fresh (3 ∷ 7 ∷ [])) 17).0 in
    ((failed_at fresh (3 ∷ [])).state ≡ closed)
    × ((failed_at fresh (3 ∷ 7 ∷ [])).state ≡ open')
    × ((record_failure probed 18).state ≡ open')
    × ((succeeded 0 probed).state ≡ half_open)
    × ((succeeded 1 probed).state ≡ closed)
unfolding record_failure since
cycle_example =
    cycle 2 1 0 fresh (3 ∷ []) (3 ∷ 7 ∷ []) 17 18 refl refl refl refl (omega arith) (omega arith)
      (omega arith) (omega arith) refl (omega arith) refl
