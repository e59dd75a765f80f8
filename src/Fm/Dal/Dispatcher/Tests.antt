-- ===== src/Fm/Dal/Dispatcher/Tests.antt =====
-- Runs of the dispatcher with a plugin that always fails. A world is its clock.
use dash_fabric.Base.{ℕ, ◌+◌, ◌≡◌, refl, false, [], ◌∷◌, some, bytes, bytes_eq}
use dash_fabric.Base.Map.{lookup, insert}
use dash_fabric.Base.Int.{pos}
use dash_fabric.Fm.Resilience.Breaker.{
  CircuitBreaker, state_open, call, new_circuit_breaker, record_failure, try_half_open,
}
use dash_fabric.Fm.Resilience.Retry.{Context, attempt, attempt_loop}
use dash_fabric.Fm.Resilience.Classify.{stage_timeout, is_retryable, classify_error}
use dash_fabric.Fm.Dal.Plugins.{get}
use dash_fabric.Fm.Dal.Dispatcher.{
  Dispatcher, Plugin, errored, refused, breaker_open_for, new, dispatch, custom,
  dispatch_with_resilience, try_fallbacks, program,
}
use dash_fabric.Fm.Dal.Dispatcher.Laws.{IsShut, dispatches, shut_forever}

abbrev clock : ℕ → ℕ
clock w = w

abbrev live : Context ℕ
live = record { done = λ w. false; wait = λ a w. (w + 10, false) }

abbrev broken : Plugin ℕ ℕ
broken d goal w = (w + 1, errored (bytes "bad goal"))

abbrev d0 : Dispatcher ℕ ℕ
d0 = new ((custom, broken) ∷ [])

abbrev opened : CircuitBreaker
opened = record {
  state = state_open;
  failure_count = pos 5;
  failure_threshold = pos 5;
  success_count = pos 0;
  success_threshold = pos 2;
  last_failure_time = 170;
  timeout = pos 30000000000;
}

abbrev shut : Dispatcher ℕ ℕ
shut = record d0 { circuit_breakers = (custom, opened) ∷ [] }

shut-IsShut : IsShut clock live shut
unfolding new lookup
shut-IsShut = record { breaker = opened; has_breaker = refl; opened = refl; no_fallback = refl }

-- An hour later, after a dispatch that was refused.
shut_forever_example :
    let r =
      dispatch clock live
        (dispatches clock live shut ((some 7, 171) ∷ []))
        (some 7)
        3600000000171 in
    (r.1 ≡ 3600000000171) × (r.2 ≡ refused (breaker_open_for custom))
shut_forever_example =
    shut_forever clock live shut ((some 7, 171) ∷ []) 7 3600000000171 shut-IsShut refl

-- The first dispatch runs the plugin four times, though its error is a permanent one.
four_calls : (dispatch clock live d0 (some 7) 0).1 ≡ 34
unfolding new dispatch dispatch_with_resilience try_fallbacks lookup insert call try_half_open
    new_circuit_breaker record_failure attempt attempt_loop program get stage_timeout is_retryable
    classify_error
four_calls = refl
