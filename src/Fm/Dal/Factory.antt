-- ===== src/Fm/Dal/Factory.antt =====
-- src/FM/pkg/dal/custom.go and factory.go: the one plugin there is, and the manager made with it.
use dash_fabric.Base.{
  Bool, true, false, List, [], ◌∷◌, ◌++◌, Option, none, some, Bytes, bytes, bytes_eq, ◌==◌,
  if◌then◌else◌,
}
use dash_fabric.Base.Map.{Map}
use dash_fabric.Base.Int.{ℤ, pos}
use dash_fabric.Fm.Gm.Types.{PerEniGoalState}
use dash_fabric.Fm.Resilience.Retry.{Context}
use dash_fabric.Fm.Dal.Plugins.{PluginError, register}
use dash_fabric.Fm.Dal.Dispatcher.{Plugin, Reply, replied, errored}
use dash_fabric.Fm.Dal.Manager.{DpuManager}
use dash_fabric.Fm.Dal.Manager as Manager
pub mod Laws
mod Tests

pub data FactoryError : Type 0 where
  vendor_required : FactoryError
  not_yet_implemented : Bytes → FactoryError
  unknown_vendor : Bytes → FactoryError
  registration_failed : PluginError → FactoryError
  custom_failed : FactoryError → FactoryError
  initialization_failed : FactoryError → FactoryError

-- A plugin or a manager, or an error.
pub data Made (A : Type 0) : Type 0 where
  made : A → Made A
  not_made : FactoryError → Made A

module _ {W : Type 0} (ctx : Context W) (ctx_error : W → Bytes) where
  -- CustomPlugin.Program: it asks whether the context is done, and reports success. The deadline,
  -- which the context has, is not used.
  unfoldable pub custom_plugin : Plugin W PerEniGoalState
  custom_plugin timeout goal w =
      if ctx.done w then (w, errored (bytes "programming cancelled: " ++ ctx_error w)) else (
        w,
        replied (record {
          eni_id = goal.eni_id;
          success = true;
          error = [];
          applied_version = goal.version;
          duration = pos 0;
        }),
      )

  unfoldable pub create_plugin :
      Map Bytes (Plugin W PerEniGoalState)
      → Bytes
      → Map Bytes (Plugin W PerEniGoalState) × Made (Plugin W PerEniGoalState)
  create_plugin registry vendor =
      if vendor == []
      then (registry, not_made vendor_required)
      else (if vendor == bytes "Custom"
          then (let r = register registry vendor (some custom_plugin) in
              elim r.1 [
                | some e ↦ (r.0, not_made (registration_failed e))
                | none ↦ (r.0, made custom_plugin)
              ])
          else (if vendor == bytes "Intel"
              then (registry, not_made (not_yet_implemented vendor))
              else (if vendor == bytes "Nvidia"
                  then (registry, not_made (not_yet_implemented vendor))
                  else (registry, not_made (unknown_vendor vendor)))))

  unfoldable pub initialize_default_plugins :
      Map Bytes (Plugin W PerEniGoalState)
      → Map Bytes (Plugin W PerEniGoalState) × Option FactoryError
  initialize_default_plugins registry =
      let r = create_plugin registry (bytes "Custom") in
      elim r.1 [ not_made e ↦ (r.0, some (custom_failed e)) | made plugin ↦ (r.0, none) ]

  unfoldable pub create_dpu_manager :
      Map Bytes (Plugin W PerEniGoalState)
      → ℤ
      → Map Bytes (Plugin W PerEniGoalState) × Made (DpuManager PerEniGoalState)
  create_dpu_manager registry pool_workers =
      let r = initialize_default_plugins registry in
      elim r.1 [
        | some e ↦ (r.0, not_made (initialization_failed e))
        | none ↦ (r.0, made (Manager.new pool_workers))
      ]
