-- ===== src/Fm/Resilience/Classify.antt =====
-- src/FM/pkg/resilience/timeout.go: ClassifyError and the time-out of a stage.
use dash_fabric.Base.{
  Bool, true, false, ◌||◌, List, [], ◌∷◌, Option, none, some, Bytes, bytes, bytes_eq, bytes_beq,
  contains, if◌then◌else◌, or_else,
}
use dash_fabric.Base.Map.{Map, lookup, insert}
use dash_fabric.Base.Int.{ℤ, pos, beq_ℤ}

pub data ErrorType : Type 0 where
  transient permanent timeout circuit_open : ErrorType

abbrev pub transient_patterns : List Bytes
transient_patterns =
    bytes "connection refused"
    ∷ bytes "network unreachable"
    ∷ bytes "temporary failure"
    ∷ bytes "temporarily unavailable"
    ∷ bytes "deadline exceeded"
    ∷ []

-- An error is its text, and nil is `none`.
unfoldable pub classify_error : Option Bytes → ErrorType
classify_error none = permanent
classify_error (some text) =
    if bytes_beq text (bytes "circuit breaker open: service unavailable")
    then circuit_open
    else (if bytes_beq text (bytes "context deadline exceeded")
          || bytes_beq text (bytes "i/o timeout")
        then timeout
        else (if contains text transient_patterns then transient else permanent))

unfoldable pub is_retryable : Option Bytes → Bool
unfolding classify_error
is_retryable err = elim (classify_error err) [ transient ↦ true | _ ↦ false ]

pub record TimeoutManager : Type 0 where
  pub total_timeout : ℤ
  pub stage_timeouts : Map Bytes ℤ

unfoldable pub set_stage_timeout : TimeoutManager → Bytes → ℤ → TimeoutManager
set_stage_timeout tm stage duration = record tm {
  stage_timeouts = insert stage duration tm.stage_timeouts;
}

-- The duration with which WithTimeout derives the context of a stage.
unfoldable pub stage_timeout : TimeoutManager → Bytes → ℤ
stage_timeout tm stage =
    let chosen = or_else (lookup stage tm.stage_timeouts) tm.total_timeout in
    if beq_ℤ chosen (pos 0) then pos 30000000000 else chosen
