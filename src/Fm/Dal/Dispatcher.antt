-- ===== src/Fm/Dal/Dispatcher.antt =====
-- src/FM/pkg/dal/dispatcher.go: the dispatch of a goal state to the plugin of its vendor. Calls are
-- taken one at a time. An error of a plugin is its text.
use dash_fabric.Base.{
  ℕ, ◌≡◌, refl, Bool, true, false, List, [], ◌∷◌, Option, none, some, arith, Bytes, bytes, bytes_eq,
  if◌then◌else◌, or_else,
}
use dash_fabric.Base.Map.{Map, lookup, insert}
use dash_fabric.Base.Int.{ℤ, pos, inc64}
use dash_fabric.Fm.Dal.Plugins.{PluginError, Found, found, missing, get}
use dash_fabric.Fm.Resilience.Breaker.{
  CircuitBreaker, CallError, new_circuit_breaker, call, reset, is_open, thirty_seconds,
}
use dash_fabric.Fm.Resilience.Retry.{Context, RetryError, attempt}
use dash_fabric.Fm.Resilience.Classify.{TimeoutManager, is_retryable, stage_timeout}
pub mod Laws
mod Tests

pub record ProgramResult : Type 0 where
  pub eni_id : Bytes
  pub success : Bool
  pub error : Bytes
  pub applied_version : ℤ
  pub duration : ℤ

-- What Program returns. A nil result without an error, on which Dispatch panics, is left out.
pub data Reply : Type 0 where
  replied : ProgramResult → Reply
  errored : Bytes → Reply

-- A plugin programs a goal within a duration.
abbrev pub Plugin : Type 0 → Type 0 → Type 0
Plugin W Goal = ℤ → Goal → W → W × Reply

pub record DispatcherStats : Type 0 where
  pub goals_dispatched : ℤ
  pub success_count : ℤ
  pub failure_count : ℤ
  pub timeout_count : ℤ
  pub retry_count : ℤ
  pub circuit_open_count : ℤ
  pub fallback_activated : ℤ

pub record Dispatcher (W Goal : Type 0) : Type 0 where
  pub registry : Map Bytes (Plugin W Goal)
  pub stats : DispatcherStats
  pub circuit_breakers : Map Bytes CircuitBreaker
  pub max_retries : ℤ
  pub timeout_manager : TimeoutManager
  pub vendor_fallbacks : Map Bytes (List Bytes)

abbrev pub no_stats : DispatcherStats
no_stats = record {
  goals_dispatched = pos 0;
  success_count = pos 0;
  failure_count = pos 0;
  timeout_count = pos 0;
  retry_count = pos 0;
  circuit_open_count = pos 0;
  fallback_activated = pos 0;
}

abbrev pub custom : Bytes
custom = bytes "Custom"

unfoldable pub new : {W Goal : Type 0} → Map Bytes (Plugin W Goal) → Dispatcher W Goal
new registry = record {
  registry = registry;
  stats = no_stats;
  circuit_breakers = [];
  max_retries = pos 3;
  timeout_manager = record { total_timeout = thirty_seconds; stage_timeouts = [] };
  vendor_fallbacks =
      (bytes "Intel", custom ∷ []) ∷ (bytes "Nvidia", custom ∷ []) ∷ (custom, []) ∷ [];
}

pub data ProgramError : Type 0 where
  lookup_failed : PluginError → ProgramError
  plugin_error : Bytes → ProgramError
  programming_failed : Bytes → ProgramError

pub data DispatchError : Type 0 where
  dispatch_cancelled goal_required : DispatchError
  breaker_open_for : Bytes → DispatchError
  call_failed : CallError (RetryError ProgramError) → DispatchError

pub data Outcome : Type 0 where
  programmed : Option ProgramResult → Outcome
  refused : DispatchError → Outcome

-- What the attempts of one dispatch write: the world, the counter of retries and `result`.
pub record Session (W : Type 0) : Type 0 where
  pub world : W
  pub retry_count : ℤ
  pub result : Option ProgramResult

abbrev pub session_ctx : {W : Type 0} → Context W → Context (Session W)
session_ctx ctx = record {
  done = λ s. ctx.done s.world;
  wait = λ a s. let (w, c) = ctx.wait a s.world in (record s { world = w }, c);
}

abbrev settle_reply : {W : Type 0} → Session W → W × Reply → Session W × Option ProgramError
settle_reply s (w, errored text) = (
  record s {
    world = w;
    result = none;
    retry_count = if is_retryable (some text) then inc64 s.retry_count else s.retry_count;
  },
  some (plugin_error text),
)
settle_reply s (w, replied r) = (
  record s { world = w; result = some r },
  if r.success then none else some (programming_failed r.error),
)

module _ {W Goal : Type 0} where
  -- The function that Attempt runs.
  unfoldable pub program :
      Dispatcher W Goal → Bytes → Goal → Session W → Session W × Option ProgramError
  program d vendor goal s = elim (get d.registry vendor) [
    | missing e ↦ (s, some (lookup_failed e))
    | found plugin ↦ settle_reply s (plugin (stage_timeout d.timeout_manager vendor) goal s.world)
  ]

  abbrev pub start : Dispatcher W Goal → W → Session W
  start d w = record { world = w; retry_count = d.stats.retry_count; result = none }

  abbrev pub breaker_of : Dispatcher W Goal → Bytes → CircuitBreaker
  breaker_of d vendor =
      or_else (lookup vendor d.circuit_breakers)
        (new_circuit_breaker (pos 5) (pos 2) thirty_seconds)

  abbrev pub settle_call :
      Dispatcher W Goal
      → Bytes
      → CircuitBreaker × Session W × Option (CallError (RetryError ProgramError))
      → Dispatcher W Goal × W × Outcome
  settle_call d vendor (cb, s, err) =
      let d' = record d {
        circuit_breakers = insert vendor cb d.circuit_breakers;
        stats = record d.stats { retry_count = s.retry_count };
      } in
      elim err [
        | some e ↦ (d', s.world, refused (call_failed e))
        | none ↦ (
          record d' { stats = record d'.stats { success_count = inc64 d.stats.success_count } },
          s.world,
          programmed s.result,
        )
      ]

-- A result is returned, and an error hands over to the vendors that are left.
abbrev pub if_refused :
    {W Goal : Type 0}
    → Dispatcher W Goal × W × Outcome
    → (DispatchError → Dispatcher W Goal × W × Outcome)
    → Dispatcher W Goal × W × Outcome
if_refused (d, w, programmed result) k = (d, w, programmed result)
if_refused (d, w, refused e) k = k e

module _ {W Goal : Type 0} (clock : W → ℕ) (ctx : Context W) where
  unfoldable pub dispatch_with_resilience :
      Dispatcher W Goal → Bytes → Goal → W → Dispatcher W Goal × W × Outcome
  dispatch_with_resilience d vendor goal w =
      let cb = breaker_of d vendor in
      if is_open cb.state
      then (
        record d {
          circuit_breakers = insert vendor cb d.circuit_breakers;
          stats = record d.stats { circuit_open_count = inc64 d.stats.circuit_open_count };
        },
        w,
        refused (breaker_open_for vendor),
      )
      else settle_call d vendor (
          call (λ s. clock s.world) cb
            (attempt (session_ctx ctx) d.max_retries (program d vendor goal)) (start d w))

  -- The loop over the fallback vendors, with the error of the vendor before.
  unfoldable pub try_fallbacks :
      Dispatcher W Goal → List Bytes → Goal → W → DispatchError → Dispatcher W Goal × W × Outcome
  try_fallbacks d [] goal w e = (
    record d { stats = record d.stats { failure_count = inc64 d.stats.failure_count } },
    w,
    refused e,
  )
  try_fallbacks d (vendor ∷ vendors) goal w e =
      let counted = record d {
        stats = record d.stats { fallback_activated = inc64 d.stats.fallback_activated };
      } in
      let r = dispatch_with_resilience counted vendor goal w in
      if_refused r λ e'. try_fallbacks r.0 vendors goal r.1 e'

  unfoldable pub dispatch : Dispatcher W Goal → Option Goal → W → Dispatcher W Goal × W × Outcome
  dispatch d goal w = if ctx.done w then (d, w, refused dispatch_cancelled) else (elim goal [
    | none ↦ (d, w, refused goal_required)
    | some g ↦
        let counted = record d {
          stats = record d.stats { goals_dispatched = inc64 d.stats.goals_dispatched };
        } in
        let r = dispatch_with_resilience counted custom g w in
        if_refused r λ e. try_fallbacks r.0 (or_else (lookup custom d.vendor_fallbacks) []) g r.1 e
  ])

unfoldable pub reset_circuit_breaker :
    {W Goal : Type 0} → Dispatcher W Goal → Bytes → Dispatcher W Goal
reset_circuit_breaker d vendor = elim (lookup vendor d.circuit_breakers) [
  | none ↦ d
  | some cb ↦ record d { circuit_breakers = insert vendor (reset cb) d.circuit_breakers }
]
