-- ===== src/Weaver/Retry/Tests.antt =====
-- A function that fails twice with an error worth another attempt. A world counts the failures.
use dash_fabric.Base.{ℕ, suc, ◌≡◌, Bool, false, Option, none, some, bytes, ltb, if◌then◌else◌}
use dash_fabric.Base.Int.{pos, negsuc}
use dash_fabric.Weaver.Retry.{Error, is_retryable, execute}
use dash_fabric.Weaver.Retry.Laws.{Bounded, counted, counted_wait, execute-Bounded}

abbrev refused : Error
refused = record {
  deadline_exceeded = false;
  err_closed = false;
  message = bytes "dial: connection refused";
}

abbrev retryable : Error → Bool
retryable e = is_retryable (λ s. s) e

abbrev waits : ℕ → ℕ → ℕ × Bool
waits a w = (w, false)

abbrev flaky : ℕ → ℕ × Option Error
flaky w = (suc w, if ltb w 2 then some refused else none)

execute-Bounded_example :
    Bounded retryable waits flaky 0 3 (
      execute retryable
        (counted_wait retryable waits flaky)
        (counted retryable waits flaky)
        (pos 3)
        (0, 0))
    × (execute retryable
          (counted_wait retryable waits flaky)
          (counted retryable waits flaky)
          (negsuc 2)
          (0, 0)
        ≡ ((0, 0), none))
execute-Bounded_example = execute-Bounded retryable waits flaky 2 0
