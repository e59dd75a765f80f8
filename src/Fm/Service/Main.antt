-- ===== src/Fm/Service/Main.antt =====
-- main of src/FM/cmd/fm/main.go and NewStructuredLogger of src/FM/pkg/observability/logging.go. What
-- the servers and the event loop do between the start and the signal is left out: main goes on from
-- the services as the signal finds them. Without metrics, tracing and log lines.
pub mod Laws
use dash_fabric.Base.{
  ℕ, Bool, true, false, Option, none, some, Bytes, bytes, ◌==◌, bytes_eq, if◌then◌else◌,
}
use dash_fabric.Fm.Resilience.Retry.{Context}
use dash_fabric.Fm.Service.{
  Services, Initialized, initialized, failed_to_create, StartError, load_config,
  initialize_services, start, shutdown,
}

pub data Level : Type 0 where
  debug info warn error : Level

-- What NewStructuredLogger sets of zap's configuration.
pub record ZapConfig : Type 0 where
  pub development : Bool
  pub level : Level

unfoldable pub config_of : Bytes → ZapConfig
config_of l =
    if l == bytes "debug"
    then (record { development = true; level = debug })
    else if l == bytes "info"
    then (record { development = false; level = info })
    else if l == bytes "warn"
    then (record { development = false; level = warn })
    else if l == bytes "error"
    then (record { development = false; level = error })
    else (record { development = false; level = info })

-- The process ends with a code, or it waits for a signal.
pub data Boot (Float : Type 0) : Type 0 where
  exits : ℕ → Boot Float
  waits : Services Float → Boot Float

module _ {Float : Type 0} where
  abbrev pub after_start : Services Float × Option StartError → Boot Float
  after_start (s, some e) = exits 1
  after_start (s, none) = waits s

  abbrev pub after_initialize : Initialized Float → Boot Float
  after_initialize (failed_to_create e) = exits 1
  after_initialize (initialized s) = after_start (start s)

-- `build` is Build of zap, with its error.
unfoldable pub new_structured_logger : (ZapConfig → Option Bytes) → Bytes → Option Bytes
new_structured_logger build l = build (config_of l)

module _ {Float W : Type 0} (build : ZapConfig → Option Bytes) (ctx : Context W)
    (ctx_error : W → Bytes) where
  -- main up to the wait for a signal, with the flags -log-level and -config
  unfoldable pub boot : Bytes → Bytes → Boot Float
  boot log_level config_path = elim (new_structured_logger build log_level) [
    | some e ↦ exits 1
    | none ↦ after_initialize (initialize_services ctx ctx_error (load_config config_path))
  ]

-- main from the signal on: the exit code; `none` is a panic.
unfoldable pub finish : {Float : Type 0} → Services Float → Option ℕ
finish s = elim (shutdown s) [ none ↦ none | some s' ↦ some 0 ]
