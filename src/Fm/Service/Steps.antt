-- ===== src/Fm/Service/Steps.antt =====
-- What a start and a shutdown do, by what is running.
use dash_fabric.Base.{
  ◌≡◌, refl, Bool, true, false, [], ◌∷◌, none, some, Bytes, bytes, bytes_eq, arith, ◌==◌,
}
use dash_fabric.Base.Map.{Map, lookup, lookup-insert}
use dash_fabric.Fm.Gm.Manager.{GoalStateManager}
use dash_fabric.Fm.Gm.Manager as Gm
use dash_fabric.Fm.Dal.Pool.{started, shut_down}
use dash_fabric.Fm.Dal.Manager.{DpuManager}
use dash_fabric.Fm.Dal.Manager as Dal
use dash_fabric.Fm.Cm.Pipeline.{EventPipeline, no_stats}
use dash_fabric.Fm.Cm.Pipeline as Cm
use dash_fabric.Fm.Health.{HealthChecker, set_service_status, all_ready}
use dash_fabric.Fm.Service.{Services, start, shutdown, set_all, failed_to_start_cm}

-- A service that the map has as not ready.
pub lagging :
    (m : Map Bytes Bool) (service : Bytes) → lookup service m ≡ some false → all_ready m ≡ false
unfolding lookup
lagging [] service h = cc
lagging ((k, b) ∷ m) service h = ground (arith, h, lagging m service)

abbrev pub dm : Bytes
dm = bytes "dm"

set_service_status-dm :
    (hc : HealthChecker) (service : Bytes) (b : Bool)
    → (service == dm) ≡ false
    → lookup dm hc.services ≡ some false
    → lookup dm (set_service_status hc service b).services ≡ some false
unfolding set_service_status
set_service_status-dm hc service b n h = rw (lookup-insert service dm b hc.services, n) h

pub set_all-dm :
    (hc : HealthChecker) (b : Bool)
    → lookup dm hc.services ≡ some false
    → lookup dm (set_all hc b).services ≡ some false
set_all-dm hc b h =
    let cm_set = set_service_status hc (bytes "cm") b in
    let gm_set = set_service_status cm_set (bytes "gm") b in
    set_service_status-dm gm_set (bytes "dal") b refl (
      set_service_status-dm cm_set (bytes "gm") b refl
        (set_service_status-dm hc (bytes "cm") b refl h))

module _ {Float : Type 0} where
  unfoldable pub started_all : Services Float → Services Float
  started_all s = record {
    health_checker = set_all s.health_checker true;
    cm_pipeline = record s.cm_pipeline { running = true; stats = no_stats };
    gm_service = record s.gm_service { running = true };
    dal_service = record s.dal_service { running = true; pool = started s.dal_service.pool };
  }

  pub start_idle :
      (s : Services Float)
      → s.cm_pipeline.running ≡ false
      → s.gm_service.running ≡ false
      → s.dal_service.running ≡ false
      → s.dal_service.pool.running ≡ false
      → start s ≡ (started_all s, none)
  unfolding start Cm.start Gm.start Dal.start Dal.start_pool started_all
  start_idle s c g d p = ground (arith, c, g, d, p)

  pub start_running :
      (s : Services Float)
      → s.cm_pipeline.running ≡ true
      → start s ≡ (s, some (failed_to_start_cm Cm.already_running))
  unfolding start Cm.start
  start_running s c = ground (arith, c)

  abbrev pub with_health : Services Float → HealthChecker → Services Float
  with_health s hc = record s { health_checker = hc }

  unfoldable pub stopped_all : Services Float → Services Float
  stopped_all s = record {
    health_checker = set_all s.health_checker false;
    cm_pipeline = record s.cm_pipeline { running = false; closed = true };
    gm_service = record s.gm_service { running = false };
    dal_service = record s.dal_service { running = false; pool = shut_down s.dal_service.pool };
  }

  pub shutdown_idle :
      (s : Services Float)
      → s.cm_pipeline.running ≡ false
      → s.gm_service.running ≡ false
      → s.dal_service.running ≡ false
      → shutdown s ≡ some (with_health s (set_all s.health_checker false))
  unfolding shutdown Cm.stop Gm.stop Dal.stop
  shutdown_idle s c g d = ground (arith, c, g, d)

  pub shutdown_up :
      (s : Services Float)
      → s.cm_pipeline.running ≡ true
      → s.gm_service.running ≡ true
      → s.dal_service.running ≡ true
      → s.dal_service.pool.running ≡ true
      → s.cm_pipeline.closed ≡ false
      → s.dal_service.pool.queue_closed ≡ false
      → shutdown s ≡ some (stopped_all s)
  unfolding shutdown Cm.stop Gm.stop Dal.stop Dal.shutdown_pool stopped_all
  shutdown_up s c g d p o q = ground (arith, c, g, d, p, o, q)

  pub shutdown_closed :
      (s : Services Float)
      → s.dal_service.running ≡ true
      → s.dal_service.pool.running ≡ true
      → s.dal_service.pool.queue_closed ≡ true
      → shutdown s ≡ none
  unfolding shutdown Dal.stop Dal.shutdown_pool
  shutdown_closed s d p q = ground (arith, d, p, q)
