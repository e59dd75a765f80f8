-- ===== src/Weaver/Breaker/Laws.antt =====
-- The states of Weaver's circuit breaker over any history of calls.
use dash_fabric.Base.{ℕ, ◌≡◌, ◌↔◌, true, false, arith}
use dash_fabric.Base.Int.{pos, leb_ℤ, ltb_ℤ, since}
use dash_fabric.Weaver.Breaker.{
  closed, open', half_open, CircuitBreaker, allow, record_success, record_failure, reset,
}

-- The calls, with the time of each.
pub data Call : Type 0 where
  allows failures resets : ℕ → Call
  successes : Call

unfoldable pub step : CircuitBreaker → Call → CircuitBreaker
step cb (allows now) = (allow cb now).0
step cb (failures now) = record_failure cb now
step cb (resets now) = reset cb now
step cb successes = record_success cb

-- What a breaker with positive thresholds keeps: closed, it has counted fewer failures in a row than
-- its threshold; half-open, fewer successes; and open, none of either.
pub record Inv (cb : CircuitBreaker) : Type 0 where
  pub failures_positive : ltb_ℤ (pos 0) cb.failure_threshold ≡ true
  pub successes_positive : ltb_ℤ (pos 0) cb.success_threshold ≡ true
  pub closed_below : cb.state ≡ closed → ltb_ℤ cb.consecutive_failures cb.failure_threshold ≡ true
  pub half_open_below :
      cb.state ≡ half_open → ltb_ℤ cb.consecutive_successes cb.success_threshold ≡ true

-- Every call keeps the invariant: a closed breaker with positive thresholds has counted fewer
-- failures in a row than its threshold, and a half-open one fewer successes than its threshold.
pub step-Inv : (cb : CircuitBreaker) (c : Call) → Inv cb → Inv (step cb c)
unfolding step allow record_success record_failure reset
step-Inv cb (allows now) v = ground arith
step-Inv cb (failures now) v = ground arith
step-Inv cb (resets now) v = ground arith
step-Inv cb successes v = ground arith

-- Allow refuses exactly when the breaker is open and its time-out has not passed, and then it
-- changes nothing.
pub allow_refuses :
    (cb : CircuitBreaker) (now : ℕ)
    → (((allow cb now).1 ≡ false)
        ↔ ((cb.state ≡ open') × (leb_ℤ cb.timeout (since now cb.last_failure_time) ≡ false)))
      × ((allow cb now).1 ≡ false → (allow cb now).0 ≡ cb)
unfolding allow
allow_refuses cb now = (ground arith, ground arith)
