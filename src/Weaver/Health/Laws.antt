-- ===== src/Weaver/Health/Laws.antt =====
-- When a replica changes its state.
use dash_fabric.Base.{ℕ, ◌≡◌, true, false, not, ◌&&◌, arith}
use dash_fabric.Base.Int.{pos, leb_ℤ, ltb_ℤ}
use dash_fabric.Weaver.Health.{
  healthy, unhealthy, panic, HealthConfig, ReplicaState, HealthCheckResult, update_state, inc32,
  to_int32, beq_state,
}

-- What the state of a replica keeps: it is never in panic, and while it is healthy it has counted
-- fewer failures in a row than the threshold, and no success.
pub record Inv (config : HealthConfig) (s : ReplicaState) : Type 0 where
  pub no_panic : beq_state s.state panic ≡ false
  pub failures_below : ltb_ℤ s.consecutive_failures (to_int32 config.failure_threshold) ≡ true
  pub successes_none : s.state ≡ healthy → s.consecutive_success ≡ pos 0

-- A check keeps the invariant, for a failure threshold that is positive as an int32. It turns a
-- healthy replica unhealthy exactly when it fails and is the last failure of the threshold, and an
-- unhealthy one healthy exactly when it succeeds and is the last success of the threshold.
update_state-Inv :
    (config : HealthConfig) (s : ReplicaState) (result : HealthCheckResult) (now : ℕ)
    → ltb_ℤ (pos 0) (to_int32 config.failure_threshold) ≡ true
    → Inv config s
    → let s' = update_state config s result now in
      Inv config s'
      × (s.state ≡ healthy
          → beq_state s'.state unhealthy
            ≡ not result.is_healthy
              && leb_ℤ (to_int32 config.failure_threshold) (inc32 s.consecutive_failures))
      × (s.state ≡ unhealthy
          → beq_state s'.state healthy
            ≡ result.is_healthy
              && leb_ℤ (to_int32 config.success_threshold) (inc32 s.consecutive_success))
unfolding update_state
update_state-Inv config s result now h v = (
  record { no_panic = ground arith; failures_below = ground arith; successes_none = ground arith },
  ground arith,
  ground arith,
)
