-- ===== src/Fm/Resilience/Breaker/Laws.antt =====
-- The invariant of the circuit breaker, and its calls in the open state.
use dash_fabric.Base.{
  ℕ, ◌≡◌, refl, Bool, true, false, inl, inr, Option, none, some, arith, if◌then◌else◌, Bool-cases,
  wrap, ap,
}
use dash_fabric.Base.Int.{ℤ, pos, ltb_ℤ, since}
use dash_fabric.Fm.Resilience.Breaker.{
  state_closed, state_open, state_half_open, CircuitBreaker, is_open, new_circuit_breaker,
  record_failure, record_success, breaker_open, failed, try_half_open, settle, call,
}

-- A breaker between two calls: thresholds are positive, and it is closed only below the threshold.
pub record Inv (cb : CircuitBreaker) : Type 0 where
  pub failures_positive : ltb_ℤ (pos 0) cb.failure_threshold ≡ true
  pub successes_positive : ltb_ℤ (pos 0) cb.success_threshold ≡ true
  pub closed_below : cb.state ≡ state_closed → ltb_ℤ cb.failure_count cb.failure_threshold ≡ true
  pub half_open_below :
      cb.state ≡ state_half_open → ltb_ℤ cb.success_count cb.success_threshold ≡ true

pub new-Inv : (f s t : ℤ) → Inv (new_circuit_breaker f s t)
unfolding new_circuit_breaker
new-Inv f s t = ground arith

try_half_open-Inv : (cb : CircuitBreaker) (now : ℕ) → Inv cb → Inv (try_half_open cb now)
unfolding try_half_open
try_half_open-Inv cb now v = ground arith

record_failure-Inv : (cb : CircuitBreaker) (now : ℕ) → Inv cb → Inv (record_failure cb now)
unfolding record_failure
record_failure-Inv cb now v = ground arith

record_success-Inv : (cb : CircuitBreaker) → Inv cb → Inv (record_success cb)
unfolding record_success
record_success-Inv cb v = ground arith

-- The time-out has passed since the last failure.
abbrev pub has_waited : CircuitBreaker → ℕ → Bool
has_waited cb now = ltb_ℤ cb.timeout (since now cb.last_failure_time)

abbrev half_opened : CircuitBreaker → CircuitBreaker
half_opened cb = record cb { state = state_half_open; success_count = pos 0 }

try_half_open_lem :
    (cb : CircuitBreaker) (now : ℕ)
    → cb.state ≡ state_open
    → try_half_open cb now ≡ (if has_waited cb now then half_opened cb else cb)
unfolding try_half_open
try_half_open_lem cb now o = ground arith

try_half_open_idle :
    (cb : CircuitBreaker) (now : ℕ) → is_open cb.state ≡ false → try_half_open cb now ≡ cb
unfolding try_half_open
try_half_open_idle cb now o = rw o

module _ {ℓ} {W E : Type ℓ} (clock : W → ℕ) where
  settle-Inv : (cb : CircuitBreaker) (w : W) (r : Option E) → Inv cb → Inv (settle clock cb w r).0
  settle-Inv cb w none v = record_success-Inv cb v
  settle-Inv cb w (some x) v = record_failure-Inv cb (clock w) v

  -- Every call keeps the invariant, whatever the protected function does: the thresholds are
  -- positive, a closed breaker has counted fewer failures than its threshold, and a half-open one
  -- fewer successes than its own.
  call-Inv :
      (cb : CircuitBreaker) (fn : W → W × Option E) (w : W) → Inv cb → Inv (call clock cb fn w).0
  unfolding call
  call-Inv cb fn w v =
      let cb' = try_half_open cb (clock w) in
      let v' = try_half_open-Inv cb (clock w) v in
      elim (Bool-cases (is_open cb'.state)) [
        | inl o ↦ rw (o, call) v'
        | inr c ↦ rw (c, call) (settle-Inv cb' (fn w).0 (fn w).1 v')
      ]

  settle_results :
      (cb : CircuitBreaker) (w : W) (r : Option E)
      → ((settle clock cb w r).1 ≡ w) × ((settle clock cb w r).2 ≡ wrap failed r)
  settle_results cb w none = (refl, refl)
  settle_results cb w (some x) = (refl, refl)

  module _ (cb : CircuitBreaker) (fn : W → W × Option E) (w : W) where
    pub call_running :
        is_open cb.state ≡ false → call clock cb fn w ≡ settle clock cb (fn w).0 (fn w).1
    unfolding call
    call_running o = rw (try_half_open_idle cb (clock w) o, o)

    call_rejected :
        cb.state ≡ state_open
        → has_waited cb (clock w) ≡ false
        → call clock cb fn w ≡ (cb, w, some breaker_open)
    unfolding call
    call_rejected o h = rw (try_half_open_lem cb (clock w) o) (rw h (rw (ap is_open o)))

    call_probing :
        cb.state ≡ state_open
        → has_waited cb (clock w) ≡ true
        → call clock cb fn w ≡ settle clock (half_opened cb) (fn w).0 (fn w).1
    unfolding call
    call_probing o h = rw (try_half_open_lem cb (clock w) o) (rw h)

    -- An open breaker rejects a call before its time-out, without running the function and without
    -- a change. After it the function runs, and its verdict is what the call returns.
    pub call_open :
        cb.state ≡ state_open
        → (has_waited cb (clock w) ≡ false → call clock cb fn w ≡ (cb, w, some breaker_open))
          × (has_waited cb (clock w) ≡ true
              → ((call clock cb fn w).1 ≡ (fn w).0)
                × ((call clock cb fn w).2 ≡ wrap failed (fn w).1))
    call_open o = (
      call_rejected o,
      λ h. rw (call_probing o h) (settle_results (half_opened cb) (fn w).0 (fn w).1),
    )
