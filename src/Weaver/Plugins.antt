-- ===== src/Weaver/Plugins.antt =====
-- src/Weaver/pkg/plugins/manager.go: plugins that are loaded with hooks around it, and the registry
-- of factories. A hook takes the world on; it runs while the manager is locked, so it does not call
-- the manager. A module that was opened is a table of symbols.
use dash_fabric.Base.{
  Bool, true, false, List, [], ◌∷◌, ◌++◌, Option, none, some, Bytes, bytes, bytes_eq, ◌==◌,
  if◌then◌else◌, is_some, or_else,
}
use dash_fabric.Base.Map.{Map, lookup, insert, delete}
pub mod Laws
pub mod Unload
mod Tests

pub record LoadedPlugin (M : Type 0) : Type 0 where
  pub name : Bytes
  pub loaded_module : M

-- A hook, given the event.
abbrev pub PluginHook : Type 0 → Type 0 → Type 0 → Type 0
PluginHook W M E = Bytes → LoadedPlugin M → W → W × Option E

pub record PluginManager (W M E : Type 0) : Type 0 where
  pub loaded_plugins : Map Bytes (LoadedPlugin M)
  pub hooks : Map Bytes (List (PluginHook W M E))

-- What plugin.Open gives.
pub data Opened (M E : Type 0) : Type 0 where
  opened : M → Opened M E
  not_opened : E → Opened M E

pub data LoadError (E : Type 0) : Type 0 where
  already_loaded : Bytes → LoadError E
  failed_to_load : Bytes → E → LoadError E
  not_loaded : Bytes → LoadError E
  hook_failed : E → LoadError E

abbrev pub preload : Bytes
preload = bytes "plugin_preload"

abbrev pub loaded_event : Bytes
loaded_event = bytes "plugin_loaded"

abbrev pub preunload : Bytes
preunload = bytes "plugin_preunload"

abbrev pub unloaded_event : Bytes
unloaded_event = bytes "plugin_unloaded"

module _ {W M E : Type 0} where
  abbrev pub new_plugin_manager : PluginManager W M E
  new_plugin_manager = record { loaded_plugins = []; hooks = [] }

  unfoldable pub register_hook :
      PluginManager W M E → Bytes → PluginHook W M E → PluginManager W M E
  register_hook pm event hook = record pm {
    hooks = insert event (or_else (lookup event pm.hooks) [] ++ hook ∷ []) pm.hooks;
  }

  -- The loop of fireHooks: the first error ends it.
  unfoldable pub fire : List (PluginHook W M E) → Bytes → LoadedPlugin M → W → W × Option E
  fire [] event p w = (w, none)
  fire (hook ∷ hooks) event p w =
      let (w', err) = hook event p w in
      elim err [ none ↦ fire hooks event p w' | some e ↦ (w', some e) ]

  unfoldable pub fire_hooks : PluginManager W M E → Bytes → LoadedPlugin M → W → W × Option E
  fire_hooks pm event p w = elim (lookup event pm.hooks) [
    | none ↦ (w, none)
    | some hooks ↦ fire hooks event p w
  ]

  -- The plugin is in the map, and its last hooks gave this.
  abbrev pub settle_load :
      PluginManager W M E → Bytes → W × Option E → PluginManager W M E × W × Option (LoadError E)
  settle_load pm name (w, none) = (pm, w, none)
  settle_load pm name (w, some e) =
      (record pm { loaded_plugins = delete name pm.loaded_plugins }, w, some (hook_failed e))

  -- The hooks before the load gave this.
  abbrev pub load_module :
      PluginManager W M E
      → LoadedPlugin M
      → W × Option E
      → PluginManager W M E × W × Option (LoadError E)
  load_module pm p (w, some e) = (pm, w, some (hook_failed e))
  load_module pm p (w, none) =
      let pm' = record pm { loaded_plugins = insert p.name p pm.loaded_plugins } in
      settle_load pm' p.name (fire_hooks pm' loaded_event p w)

  abbrev pub load_opened :
      PluginManager W M E → Bytes → W → Opened M E → PluginManager W M E × W × Option (LoadError E)
  load_opened pm name w (not_opened e) = (pm, w, some (failed_to_load name e))
  load_opened pm name w (opened m) =
      let p : LoadedPlugin M = record { name = name; loaded_module = m } in
      load_module pm p (fire_hooks pm preload p w)

  unfoldable pub load_plugin :
      (Bytes → Opened M E)
      → PluginManager W M E
      → Bytes
      → Bytes
      → W
      → PluginManager W M E × W × Option (LoadError E)
  load_plugin open_module pm name path w =
      if is_some (lookup name pm.loaded_plugins)
      then (pm, w, some (already_loaded name))
      else load_opened pm name w (open_module path)

  abbrev pub settle_unload :
      PluginManager W M E → W × Option E → PluginManager W M E × W × Option (LoadError E)
  settle_unload pm (w, none) = (pm, w, none)
  settle_unload pm (w, some e) = (pm, w, some (hook_failed e))

  -- The hooks before the removal gave this.
  abbrev pub remove_plugin :
      PluginManager W M E
      → Bytes
      → LoadedPlugin M
      → W × Option E
      → PluginManager W M E × W × Option (LoadError E)
  remove_plugin pm name p (w, some e) = (pm, w, some (hook_failed e))
  remove_plugin pm name p (w, none) =
      let pm' = record pm { loaded_plugins = delete name pm.loaded_plugins } in
      settle_unload pm' (fire_hooks pm' unloaded_event p w)

  unfoldable pub unload_plugin :
      PluginManager W M E → Bytes → W → PluginManager W M E × W × Option (LoadError E)
  unload_plugin pm name w = elim (lookup name pm.loaded_plugins) [
    | none ↦ (pm, w, some (not_loaded name))
    | some p ↦ remove_plugin pm name p (fire_hooks pm preunload p w)
  ]

-- A symbol of a module, of the type that was asked for or of another.
pub data Symbol (P : Type 0) : Type 0 where
  typed : P → Symbol P
  other_type : Symbol P

pub data GetError (E : Type 0) : Type 0 where
  plugin_not_loaded : Bytes → GetError E
  missing_symbol : Bytes → E → GetError E
  wrong_type : Bytes → GetError E

pub data Got (P E : Type 0) : Type 0 where
  got : P → Got P E
  not_got : GetError E → Got P E

-- What Module.Lookup gives for a symbol.
abbrev pub Lookup : Type 0 → Type 0 → Type 0 → Type 0
Lookup M P E = M → Bytes → Opened (Symbol P) E

-- GetLoadBalancerPlugin, GetDiscoveryPlugin and GetHealthCheckerPlugin, by the symbol they look up
unfoldable pub get_plugin :
    {W M P E : Type 0} → Lookup M P E → Bytes → PluginManager W M E → Bytes → Got P E
get_plugin find symbol pm name = elim (lookup name pm.loaded_plugins) [
  | none ↦ not_got (plugin_not_loaded name)
  | some p ↦ elim (find p.loaded_module symbol) [
    | not_opened e ↦ not_got (missing_symbol name e)
    | opened (typed x) ↦ got x
    | opened other_type ↦ not_got (wrong_type name)
  ]
]

-- Factories of each kind.
abbrev pub Factory : Type 0 → Type 0 → Type 0 → Type 0
Factory C P E = C → Opened P E

pub record PluginRegistry (C B D H E : Type 0) : Type 0 where
  pub load_balancers : Map Bytes (Factory C B E)
  pub discoveries : Map Bytes (Factory C D E)
  pub health_checkers : Map Bytes (Factory C H E)

pub data RegistryError (E : Type 0) : Type 0 where
  already_registered : Bytes → RegistryError E
  not_registered : Bytes → RegistryError E
  factory_failed : E → RegistryError E

abbrev pub register_in :
    {A E : Type 0} → Map Bytes A → Bytes → A → Map Bytes A × Option (RegistryError E)
register_in m name x =
    if is_some (lookup name m) then (m, some (already_registered name)) else (insert name x m, none)

pub data Made (P E : Type 0) : Type 0 where
  made : P → Made P E
  not_made : RegistryError E → Made P E

abbrev pub made_of : {P E : Type 0} → Opened P E → Made P E
made_of (opened p) = made p
made_of (not_opened e) = not_made (factory_failed e)

abbrev pub make : {C P E : Type 0} → Map Bytes (Factory C P E) → Bytes → C → Made P E
make m name config = elim (lookup name m) [
  | none ↦ not_made (not_registered name)
  | some factory ↦ made_of (factory config)
]

module _ {C B D H E : Type 0} where
  abbrev pub new_plugin_registry : PluginRegistry C B D H E
  new_plugin_registry = record { load_balancers = []; discoveries = []; health_checkers = [] }

  unfoldable pub register_load_balancer :
      PluginRegistry C B D H E
      → Bytes
      → Factory C B E
      → PluginRegistry C B D H E × Option (RegistryError E)
  register_load_balancer pr name factory =
      let (m, err) = register_in pr.load_balancers name factory in
      (record pr { load_balancers = m }, err)

  unfoldable pub register_discovery :
      PluginRegistry C B D H E
      → Bytes
      → Factory C D E
      → PluginRegistry C B D H E × Option (RegistryError E)
  register_discovery pr name factory =
      let (m, err) = register_in pr.discoveries name factory in (record pr { discoveries = m }, err)

  unfoldable pub register_health_checker :
      PluginRegistry C B D H E
      → Bytes
      → Factory C H E
      → PluginRegistry C B D H E × Option (RegistryError E)
  register_health_checker pr name factory =
      let (m, err) = register_in pr.health_checkers name factory in
      (record pr { health_checkers = m }, err)

  unfoldable pub get_load_balancer : PluginRegistry C B D H E → Bytes → C → Made B E
  get_load_balancer pr name config = make pr.load_balancers name config

  unfoldable pub get_discovery : PluginRegistry C B D H E → Bytes → C → Made D E
  get_discovery pr name config = make pr.discoveries name config

  unfoldable pub get_health_checker : PluginRegistry C B D H E → Bytes → C → Made H E
  get_health_checker pr name config = make pr.health_checkers name config
