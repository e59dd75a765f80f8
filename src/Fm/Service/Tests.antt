-- ===== src/Fm/Service/Tests.antt =====
-- The services are started, shut down, and started again. A world is a clock that stands still.
use dash_fabric.Base.{
  ℕ, ◌≡◌, refl, false, List, [], ◌∷◌, Option, none, some, Bytes, bytes, if◌then◌else◌,
}
use dash_fabric.Fm.Resilience.Retry.{Context}
use dash_fabric.Fm.Service.{Services, initialize_services, load_config, initialized, start}
use dash_fabric.Fm.Service.Phases.{
  Command, to_start, to_shutdown, fresh, up, phase_after, IsIn, Abstracts,
}
use dash_fabric.Fm.Service.Laws.{run, services_refine}
use dash_fabric.Fm.Service.Main.{ZapConfig, config_of, new_structured_logger, boot}
use dash_fabric.Fm.Service.Main.Laws.{Boots, Finishes, main-Exits}

abbrev live : Context ℕ
live = record { done = λ w. false; wait = λ a w. (w, false) }

abbrev no_text : ℕ → Bytes
no_text w = []

abbrev commands : List Command
commands = to_start ∷ to_shutdown ∷ to_shutdown ∷ to_start ∷ []

services_refine_example :
    (s : Services ℕ) × (initialize_services live no_text (load_config (bytes "config.yaml"))
      ≡ initialized s)
    × Abstracts (phase_after fresh commands) (run (some s) commands)
services_refine_example = services_refine live no_text (bytes "config.yaml") commands

-- The services after one start
abbrev running : (s : Services ℕ) × IsIn up s
running =
    let r = services_refine {Float = ℕ} live no_text (bytes "config.yaml") (to_start ∷ []) in
    ((start r.0).0, r.2)

-- Zap builds a logger for production alone.
abbrev production : ZapConfig → Option Bytes
production c = if c.development then some (bytes "no console") else none

main-Exits_example :
    Boots {Float = ℕ}
      (new_structured_logger production (bytes "debug"))
      (boot production live no_text (bytes "debug") (bytes "config.yaml"))
    × Finishes running.0
main-Exits_example =
    main-Exits production live no_text (bytes "debug") (bytes "config.yaml") running.0 running.1

-- An unknown level is that of "info".
verbose_config : config_of (bytes "verbose") ≡ config_of (bytes "info")
unfolding config_of
verbose_config = refl
