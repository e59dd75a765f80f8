-- ===== src/Weaver/Retry.antt =====
-- src/Weaver/pkg/reliability/retry.go: Execute. The length of a wait, a float64 with a random part,
-- is not modelled: a wait takes the world on, and tells whether the context was done before it was
-- over. Of an error, isRetryable asks whether it is one of two values, and reads its text.
-- strings.ToLower is an argument.
use dash_fabric.Base.{
  ℕ, zero, suc, ◌+◌, Bool, true, false, ◌||◌, List, [], ◌∷◌, Option, none, some, Bytes, bytes,
  bytes_eq, ◌==◌, if◌then◌else◌, nat_beq, length, take,
}
use dash_fabric.Base.Int.{ℤ, pos, negsuc, beq_ℤ}
use dash_fabric.Base.Text.{has_prefix}
pub mod Laws
mod Tests

pub record Error : Type 0 where
  pub deadline_exceeded : Bool
  pub err_closed : Bool
  pub message : Bytes

-- strings.Contains
abbrev pub has_substring : Bytes → Bytes → Bool
has_substring pattern [] = has_prefix pattern []
has_substring pattern (b ∷ bs) = has_prefix pattern (b ∷ bs) || has_substring pattern bs

abbrev pub retryable_patterns : List Bytes
retryable_patterns =
    bytes "connection refused"
    ∷ bytes "timeout"
    ∷ bytes "temporarily unavailable"
    ∷ bytes "reset by peer"
    ∷ bytes "broken pipe"
    ∷ bytes "unavailable"
    ∷ []

abbrev pub has_any : List Bytes → Bytes → Bool
has_any [] s = false
has_any (pattern ∷ patterns) s = has_substring pattern s || has_any patterns s

unfoldable pub is_retryable : (Bytes → Bytes) → Error → Bool
is_retryable to_lower e =
    if e.deadline_exceeded
    then true
    else (if e.err_closed then true else has_any retryable_patterns (to_lower e.message))

-- NewRetry, of MaxAttempts
unfoldable pub new_max_attempts : ℤ → ℤ
new_max_attempts n = if beq_ℤ n (pos 0) then pos 3 else n

-- attempt < MaxAttempts holds for so many rounds from 0
abbrev pub rounds : ℤ → ℕ
rounds (pos n) = n
rounds (negsuc n) = 0

-- What Execute returns: an error of the function, or the context's.
pub data ExecuteError (E : Type 0) : Type 0 where
  failed : E → ExecuteError E
  cancelled : ExecuteError E

-- The function, which errors are worth another attempt, and the wait after an attempt.
module _ {W E : Type 0} (retryable : E → Bool) (wait : ℕ → W → W × Bool) where
  -- A wait that was over, or the context's end.
  abbrev pub after_wait : W × Bool → (W → W × Option (ExecuteError E)) → W × Option (ExecuteError E)
  after_wait (w, true) k = (w, some cancelled)
  after_wait (w, false) k = k w

  -- A call that succeeded, that failed for good, and that failed.
  abbrev pub after_call :
      W × Option E → (W → E → W × Option (ExecuteError E)) → W × Option (ExecuteError E)
  after_call (w, none) k = (w, none)
  after_call (w, some e) k = if retryable e then k w e else (w, some (failed e))

  -- The loop from `attempt` on, with so many rounds left.
  unfoldable pub execute_loop :
      (W → W × Option E) → ℕ → ℕ → Option (ExecuteError E) → W → W × Option (ExecuteError E)
  execute_loop fn zero attempt last w = (w, last)
  execute_loop fn (suc zero) attempt last w = after_call (fn w) λ w' e. (w', some (failed e))
  execute_loop fn (suc (suc n)) attempt last w =
      after_call (fn w) λ w' e.
        after_wait (wait attempt w') (execute_loop fn (suc n) (attempt + 1) (some (failed e)))

  unfoldable pub execute : (W → W × Option E) → ℤ → W → W × Option (ExecuteError E)
  execute fn max_attempts w = execute_loop fn (rounds max_attempts) 0 none w
