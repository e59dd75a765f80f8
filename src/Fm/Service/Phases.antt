-- ===== src/Fm/Service/Phases.antt =====
-- The phases in the life of the services, and what the services are in each.
use dash_fabric.Base.{◌≡◌, Bool, true, false, List, [], ◌∷◌, Option, none, some, bytes_eq}
use dash_fabric.Base.Map.{lookup}
use dash_fabric.Fm.Health.{is_ready}
use dash_fabric.Fm.Service.{Services}
use dash_fabric.Fm.Service.Steps.{dm}

pub data Command : Type 0 where
  to_start : Command
  to_shutdown : Command

-- The life of the services: not started yet, up, shut down, started a second time, and after a
-- panic.
pub data Phase : Type 0 where
  fresh : Phase
  up : Phase
  down : Phase
  up_again : Phase
  crashed : Phase

abbrev pub next_phase : Phase → Command → Phase
next_phase fresh to_start = up
next_phase down to_start = up_again
next_phase p to_start = p
next_phase up to_shutdown = down
next_phase up_again to_shutdown = crashed
next_phase p to_shutdown = p

abbrev pub is_up : Phase → Bool
is_up up = true
is_up up_again = true
is_up _ = false

abbrev pub is_closed : Phase → Bool
is_closed down = true
is_closed up_again = true
is_closed _ = false

abbrev pub phase_after : Phase → List Command → Phase
phase_after p [] = p
phase_after p (c ∷ cs) = phase_after (next_phase p c) cs

module _ {Float : Type 0} where
  -- All services run, or none does; and they are not ready.
  pub record IsIn (p : Phase) (s : Services Float) : Type 0 where
    pub cm_is : s.cm_pipeline.running ≡ is_up p
    pub gm_is : s.gm_service.running ≡ is_up p
    pub dal_is : s.dal_service.running ≡ is_up p
    pub pool_is : s.dal_service.pool.running ≡ is_up p
    pub stream_is : s.cm_pipeline.closed ≡ is_closed p
    pub queue_is : s.dal_service.pool.queue_closed ≡ is_closed p
    pub dm_is : lookup dm s.health_checker.services ≡ some false
    pub unready : is_ready s.health_checker ≡ false

  -- The services in a phase; after a panic there are none.
  abbrev pub Abstracts : Phase → Option (Services Float) → Type 0
  Abstracts crashed none = Unit
  Abstracts crashed (some s) = ⊥
  Abstracts p none = ⊥
  Abstracts p (some s) = IsIn p s
