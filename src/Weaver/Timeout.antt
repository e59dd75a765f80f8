-- ===== src/Weaver/Timeout.antt =====
-- src/Weaver/pkg/reliability/timeout.go: the division of a deadline among attempts. Durations are
-- in nanoseconds. `none` is the panic of a division by zero.
use dash_fabric.Base.{ℕ, zero, suc, ◌/◌, ◌*◌, Bool, Option, none, some, if◌then◌else◌}
use dash_fabric.Base.Int.{ℤ, pos, negsuc, add64, sub64, mul64, leb_ℤ, ltb_ℤ, beq_ℤ, since}
pub mod Bounds
mod Tests

pub record TimeoutConfig : Type 0 where
  pub global_timeout : ℤ
  pub replica_timeout : ℤ
  pub connect_timeout : ℤ
  pub read_timeout : ℤ

abbrev or_default : ℤ → ℤ → ℤ
or_default d default = if beq_ℤ d (pos 0) then default else d

unfoldable pub new_timeout_manager : TimeoutConfig → TimeoutConfig
new_timeout_manager config = record {
  global_timeout = or_default config.global_timeout (pos 15000000000);
  replica_timeout = or_default config.replica_timeout (pos 5000000000);
  connect_timeout = or_default config.connect_timeout (pos 1000000000);
  read_timeout = or_default config.read_timeout (pos 4000000000);
}

abbrev neg : ℕ → ℤ
neg zero = pos 0
neg (suc n) = negsuc n

-- Go's division of a number that is not negative, which truncates towards zero.
abbrev pub div : ℕ → ℤ → Option ℤ
div n (pos zero) = none
div n (pos (suc k)) = some (pos (n / suc k))
div n (negsuc k) = some (neg (n / suc k))

-- 50 * time.Millisecond
abbrev pub overhead : ℤ
overhead = pos 50000000

-- The quotient less the overhead, between 0 and the limit.
abbrev pub clamp : ℤ → ℤ → ℤ
clamp limit per_attempt =
    let capped = if ltb_ℤ limit per_attempt then limit else per_attempt in
    if ltb_ℤ capped (pos 0) then pos 0 else capped

abbrev pub divided : ℤ → Option ℤ → Option ℤ
divided limit none = none
divided limit (some q) = some (clamp limit (sub64 q overhead))

-- The time-out with so much time and so many attempts left.
unfoldable pub timeout_for : TimeoutConfig → ℤ → ℤ → Option ℤ
timeout_for config (negsuc n) attempts_left = some (pos 0)
timeout_for config (pos zero) attempts_left = some (pos 0)
timeout_for config (pos (suc n)) attempts_left =
    divided config.replica_timeout (div (suc n) attempts_left)

-- CalculateAttemptTimeout at the time `now`
unfoldable pub calculate_attempt_timeout : TimeoutConfig → ℕ → ℕ → ℤ → ℤ → Option ℤ
calculate_attempt_timeout config now global_deadline max_attempts current_attempt =
    timeout_for config (since global_deadline now)
      (add64 (sub64 max_attempts current_attempt) (pos 1))

-- The time-out of CreateRequestContext
unfoldable pub request_timeout : TimeoutConfig → ℤ → ℤ
request_timeout config client_timeout_ms =
    if ltb_ℤ (pos 0) client_timeout_ms
    then mul64 client_timeout_ms (pos 1000000)
    else config.global_timeout
