-- ===== src/Fm/Resilience/Breaker.antt =====
-- src/FM/pkg/resilience/circuit_breaker.go. A clock reading is a number of nanoseconds since the
-- zero time. `Call` holds the mutex throughout, so a history is a sequence of calls.
pub mod Laws
pub mod Threshold
use dash_fabric.Base.{
  ℕ, zero, suc, ◌+◌, ◌≤◌, ◌<◌, ◌≡◌, refl, Bool, true, false, ◌&&◌, inl, inr, Option, none, some,
  arith, if◌then◌else◌, Bool-cases, wrap, ap, nat_beq, subst,
}
use native.Mathlib.Nat.{add-zero}
use native.Mathlib.Decide.{dec_lt}
use dash_fabric.Base.Int.{ℤ, pos, inc64, leb_ℤ, ltb_ℤ, since, max64}

pub data CircuitState : Type 0 where
  state_closed state_open state_half_open : CircuitState

pub record CircuitBreaker : Type 0 where
  pub state : CircuitState
  pub failure_count : ℤ
  pub failure_threshold : ℤ
  pub success_count : ℤ
  pub success_threshold : ℤ
  pub last_failure_time : ℕ
  pub timeout : ℤ

abbrev pub is_open : CircuitState → Bool
is_open state_open = true
is_open _ = false

abbrev pub is_half_open : CircuitState → Bool
is_half_open state_half_open = true
is_half_open _ = false

abbrev pub thirty_seconds : ℤ
thirty_seconds = pos 30000000000

unfoldable pub new_circuit_breaker : ℤ → ℤ → ℤ → CircuitBreaker
new_circuit_breaker failures successes timeout = record {
  state = state_closed;
  failure_count = pos 0;
  failure_threshold = if ltb_ℤ failures (pos 1) then pos 5 else failures;
  success_count = pos 0;
  success_threshold = if ltb_ℤ successes (pos 1) then pos 2 else successes;
  last_failure_time = 0;
  timeout = if ltb_ℤ timeout (pos 1) then thirty_seconds else timeout;
}

unfoldable pub record_failure : CircuitBreaker → ℕ → CircuitBreaker
record_failure cb now =
    let failures = inc64 cb.failure_count in
    let counted = record cb {
      last_failure_time = now;
      failure_count = failures;
      success_count = pos 0;
    } in
    if leb_ℤ cb.failure_threshold failures then record counted { state = state_open } else counted

unfoldable pub record_success : CircuitBreaker → CircuitBreaker
record_success cb =
    let successes = inc64 cb.success_count in
    let counted = record cb { failure_count = pos 0; success_count = successes } in
    if is_half_open cb.state && leb_ℤ cb.success_threshold successes
    then record counted { state = state_closed }
    else counted

-- What `Call` returns: the breaker is open, or the function's own result.
pub data CallError {ℓ} (E : Type ℓ) : Type ℓ where
  breaker_open : CallError E
  failed : E → CallError E

-- The first step of `Call`, at the time `now`.
unfoldable pub try_half_open : CircuitBreaker → ℕ → CircuitBreaker
try_half_open cb now =
    if is_open cb.state && ltb_ℤ cb.timeout (since now cb.last_failure_time)
    then record cb { state = state_half_open; success_count = pos 0 }
    else cb

unfoldable pub reset : CircuitBreaker → CircuitBreaker
reset cb = record cb {
  state = state_closed;
  failure_count = pos 0;
  success_count = pos 0;
  last_failure_time = 0;
}

-- The protected function takes the world to a new one, and `clock` reads the time off a world.
module _ {ℓ} {W E : Type ℓ} (clock : W → ℕ) where
  -- cb.recordFailure() or cb.recordSuccess(), with what `Call` returns
  abbrev pub settle : CircuitBreaker → W → Option E → CircuitBreaker × W × Option (CallError E)
  settle cb w none = (record_success cb, w, none)
  settle cb w (some e) = (record_failure cb (clock w), w, some (failed e))

  unfoldable pub call :
      CircuitBreaker → (W → W × Option E) → W → CircuitBreaker × W × Option (CallError E)
  unfolding try_half_open
  call cb fn w =
      let cb' = try_half_open cb (clock w) in
      if is_open cb'.state then (cb', w, some breaker_open) else settle cb' (fn w).0 (fn w).1
