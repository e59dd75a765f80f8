-- ===== src/Fm/Config.antt =====
-- src/FM/pkg/config: the default settings, and the factory that wires the services. A value of a
-- vendor's settings is of any type.
use dash_fabric.Base.{ℕ, Bool, true, List, [], ◌∷◌, Option, none, some, Bytes, bytes}
use dash_fabric.Base.Map.{Map}
use dash_fabric.Base.Int.{ℤ, pos}
use dash_fabric.Fm.Gm.Types.{AggregatedState, PerEniGoalState}
use dash_fabric.Fm.Gm.Generate.{Result, done}
use dash_fabric.Fm.Gm.Cache as Cache
use dash_fabric.Fm.Gm.Manager.{GoalStateManager}
use dash_fabric.Fm.Gm.Manager as Manager
use dash_fabric.Fm.Resilience.Retry.{Context}
use dash_fabric.Fm.Dal.Manager.{DpuManager}
use dash_fabric.Fm.Dal.Factory.{FactoryError, Made, made, not_made, create_dpu_manager}
mod Laws
mod Tests

pub record CmConfig : Type 0 where
  pub cache_size : ℤ
  pub cache_ttl : ℤ
  pub control_broker_url : Bytes
  pub topics : List Bytes
  pub max_retries : ℤ
  pub retry_backoff : ℤ

pub record DmConfig : Type 0 where
  pub registry_size : ℤ
  pub strict_mode : Bool
  pub enforce_rules : Bool

pub record GmConfig : Type 0 where
  pub cache_size : ℤ
  pub parallel_fetch : Bool
  pub aggregation_timeout : ℤ
  pub generation_timeout : ℤ

pub record DalConfig (V : Type 0) : Type 0 where
  pub pool_workers : ℤ
  pub vendors : Map Bytes (Map Bytes V)
  pub programming_timeout : ℤ

pub record AppConfig (V : Type 0) : Type 0 where
  pub cm : CmConfig
  pub dm : DmConfig
  pub gm : GmConfig
  pub dal : DalConfig V

abbrev pub default_cm_config : CmConfig
default_cm_config = record {
  cache_size = pos 10000;
  cache_ttl = pos 300000000000;
  control_broker_url = bytes "localhost:2379";
  topics = bytes "config" ∷ [];
  max_retries = pos 3;
  retry_backoff = pos 100000000;
}

abbrev pub default_dm_config : DmConfig
default_dm_config = record { registry_size = pos 100000; strict_mode = true; enforce_rules = true }

abbrev pub default_gm_config : GmConfig
default_gm_config = record {
  cache_size = pos 50000;
  parallel_fetch = true;
  aggregation_timeout = pos 30000000000;
  generation_timeout = pos 30000000000;
}

abbrev pub default_dal_config : {V : Type 0} → DalConfig V
default_dal_config = record {
  pool_workers = pos 4;
  vendors = [];
  programming_timeout = pos 60000000000;
}

abbrev pub default_app_config : {V : Type 0} → AppConfig V
default_app_config = record {
  cm = default_cm_config;
  dm = default_dm_config;
  gm = default_gm_config;
  dal = default_dal_config;
}

-- stubAggregator: a VNET without constructs.
unfoldable pub stub_aggregate : Bytes → Result AggregatedState
stub_aggregate vnet_id = done (record { vnet_id = vnet_id; constructs = []; replicas = [] })

-- A manager with the aggregator that it is wired with; its generator is the one of the package.
pub record WiredManager : Type 0 where
  pub aggregate : Bytes → Result AggregatedState
  pub manager : GoalStateManager

-- The services that were made are what the fields point to.
pub record ServiceFactory (V : Type 0) : Type 0 where
  pub config : DalConfig V
  pub gm : Option WiredManager
  pub dal : Option (DpuManager PerEniGoalState)

module _ {V : Type 0} where
  unfoldable pub new_service_factory : AppConfig V → ServiceFactory V
  new_service_factory cfg = record { config = cfg.dal; gm = none; dal = none }

  unfoldable pub create_gm_service : ServiceFactory V → ServiceFactory V × WiredManager
  create_gm_service sf = elim sf.gm [
    | some m ↦ (sf, m)
    | none ↦
        let m : WiredManager = record {
          aggregate = stub_aggregate;
          manager = Manager.new Cache.new;
        } in
        (record sf { gm = some m }, m)
  ]

  module _ {W : Type 0} (ctx : Context W) (ctx_error : W → Bytes) where
    unfoldable pub create_dal_service :
        ServiceFactory V → ServiceFactory V × Made (DpuManager PerEniGoalState)
    create_dal_service sf = elim sf.dal [
      | some m ↦ (sf, made m)
      | none ↦ elim (create_dpu_manager ctx ctx_error [] sf.config.pool_workers).1 [
        | not_made e ↦ (sf, not_made e)
        | made m ↦ (record sf { dal = some m }, made m)
      ]
    ]

    unfoldable pub create_all_services : ServiceFactory V → ServiceFactory V × Option FactoryError
    create_all_services sf =
        let r = create_dal_service (create_gm_service sf).0 in
        elim r.1 [ made m ↦ (r.0, none) | not_made e ↦ (r.0, some e) ]
