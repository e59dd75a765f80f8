-- ===== src/Fm/Service.antt =====
-- src/FM/cmd/fm/main.go: the services of the Fleet Manager, their start and their shutdown. The
-- servers, logging, metrics and tracing, which are input and output, are left out.
use dash_fabric.Base.{ℕ, Bool, true, false, List, [], ◌∷◌, Option, none, some, Bytes, bytes}
use dash_fabric.Base.Int.{ℤ, pos}
use dash_fabric.Fm.Gm.Types.{PerEniGoalState}
use dash_fabric.Fm.Gm.Manager.{GoalStateManager}
use dash_fabric.Fm.Gm.Manager as Gm
use dash_fabric.Fm.Resilience.Retry.{Context}
use dash_fabric.Fm.Dal.Manager.{DpuManager}
use dash_fabric.Fm.Dal.Manager as Dal
use dash_fabric.Fm.Dal.Factory.{FactoryError}
use dash_fabric.Fm.Cm.Cache as Cache
use dash_fabric.Fm.Cm.Pipeline.{EventPipeline, PipelineError}
use dash_fabric.Fm.Cm.Pipeline as Cm
use dash_fabric.Fm.Config.{
  AppConfig, DalConfig, WiredManager, default_cm_config, default_dm_config, default_gm_config,
  new_service_factory, create_all_services,
}
use dash_fabric.Fm.Health.{HealthChecker, new_health_checker, set_service_status}
pub mod Steps
pub mod Laws
pub mod Main
pub mod Phases
mod Tests

pub record Config : Type 0 where
  pub control_broker_address : Bytes
  pub control_broker_topics : List Bytes
  pub dedup_cache_size : ℤ
  pub dedup_ttl : ℤ
  pub etcd_endpoints : List Bytes
  pub rocksdb_path : Bytes
  pub metrics_port : ℤ
  pub jaeger_url : Bytes

-- LoadConfig, which does not read the file
abbrev pub load_config : Bytes → Config
load_config path = record {
  control_broker_address = bytes "localhost:2379";
  control_broker_topics = bytes "/fm/events" ∷ [];
  dedup_cache_size = pos 10000;
  dedup_ttl = pos 300;
  etcd_endpoints = bytes "localhost:2379" ∷ [];
  rocksdb_path = bytes "/var/lib/fm/db";
  metrics_port = pos 8081;
  jaeger_url = bytes "http://localhost:14268/api/traces";
}

pub record Services (Float : Type 0) : Type 0 where
  pub health_checker : HealthChecker
  pub cm_pipeline : EventPipeline Float
  pub gm_service : GoalStateManager
  pub dal_service : DpuManager PerEniGoalState

-- A service that is nil, on which the assertion of its type fails, is not started.
pub data Initialized (Float : Type 0) : Type 0 where
  initialized : Services Float → Initialized Float
  failed_to_create : Option FactoryError → Initialized Float

pub data StartError : Type 0 where
  failed_to_start_cm : PipelineError Unit → StartError
  failed_to_start_gm : Gm.ManagerError → StartError
  failed_to_start_dal : Dal.ManagerError → StartError

abbrev pub app_config : {V : Type 0} → AppConfig V
app_config = record {
  cm = default_cm_config;
  dm = default_dm_config;
  gm = default_gm_config;
  dal = record { pool_workers = pos 4; vendors = []; programming_timeout = pos 60000000000 };
}

abbrev wired :
    {Float : Type 0}
    → Option WiredManager
    → Option (DpuManager PerEniGoalState)
    → Option FactoryError
    → Initialized Float
wired (some gm) (some dal) none = initialized (record {
  health_checker = new_health_checker;
  cm_pipeline = Cm.new (Cache.new (pos 10000));
  gm_service = gm.manager;
  dal_service = dal;
})
wired _ _ e = failed_to_create e

module _ {Float W : Type 0} (ctx : Context W) (ctx_error : W → Bytes) where
  unfoldable pub initialize_services : Config → Initialized Float
  initialize_services config =
      let r = create_all_services ctx ctx_error (new_service_factory {V = Unit} app_config) in
      wired r.0.gm r.0.dal r.1

abbrev pub set_all : HealthChecker → Bool → HealthChecker
set_all hc ready =
    set_service_status
      (set_service_status (set_service_status hc (bytes "cm") ready) (bytes "gm") ready)
      (bytes "dal") ready

module _ {Float : Type 0} where
  -- Start: the subscriber of the pipeline is the null one, which does not fail.
  unfoldable pub start : Services Float → Services Float × Option StartError
  start s =
      let (cm, err) = Cm.start {E = Unit} s.cm_pipeline none in
      let s₁ = record s { cm_pipeline = cm } in
      elim err [
        | some e ↦ (s₁, some (failed_to_start_cm e))
        | none ↦
            let (gm, err) = Gm.start s.gm_service in
            let s₂ = record s₁ { gm_service = gm } in
            elim err [
              | some e ↦ (s₂, some (failed_to_start_gm e))
              | none ↦
                  let (dal, err) = Dal.start s.dal_service in
                  let s₃ = record s₂ { dal_service = dal } in
                  elim err [
                    | some e ↦ (s₃, some (failed_to_start_dal e))
                    | none ↦ (record s₃ { health_checker = set_all s.health_checker true }, none)
                  ]
            ]
      ]

  -- Shutdown, which logs the errors; `none` is a panic.
  unfoldable pub shutdown : Services Float → Option (Services Float)
  shutdown s = elim (Dal.stop s.dal_service) [
    | none ↦ none
    | some (dal, _) ↦ elim (Cm.stop {E = Unit} s.cm_pipeline none) [
      | none ↦ none
      | some (cm, _) ↦ some (record s {
        health_checker = set_all s.health_checker false;
        dal_service = dal;
        gm_service = (Gm.stop s.gm_service).0;
        cm_pipeline = cm;
      })
    ]
  ]
