-- ===== src/Weaver/Plugins/Tests.antt =====
-- A plugin is loaded with a hook that counts, and unloaded with one that fails afterwards.
use dash_fabric.Base.{ℕ, suc, ◌≡◌, refl, [], ◌∷◌, none, some, Bytes, bytes, bytes_eq}
use dash_fabric.Base.Map.{lookup, insert}
use dash_fabric.Weaver.Plugins.{
  LoadedPlugin, PluginManager, Opened, opened, PluginHook, load_plugin, unload_plugin, loaded_event,
  unloaded_event, fire, fire_hooks,
}
use dash_fabric.Weaver.Plugins.Unload.{unload-load}

abbrev counting : PluginHook ℕ ℕ Bytes
counting event p w = (suc w, none)

abbrev failing : PluginHook ℕ ℕ Bytes
failing event p w = (w, some event)

abbrev open_module : Bytes → Opened ℕ Bytes
open_module path = opened 7

abbrev manager : PluginManager ℕ ℕ Bytes
manager = record {
  loaded_plugins = [];
  hooks = (loaded_event, counting ∷ []) ∷ (unloaded_event, failing ∷ []) ∷ [];
}

abbrev with_plugin : PluginManager ℕ ℕ Bytes
with_plugin = record manager {
  loaded_plugins = (bytes "lb", record { name = bytes "lb"; loaded_module = 7 }) ∷ [];
}

loads_once : load_plugin open_module manager (bytes "lb") (bytes "lb.so") 0 ≡ (with_plugin, 1, none)
unfolding load_plugin fire_hooks fire lookup insert
loads_once = refl

lets_go : (p : LoadedPlugin ℕ) → (fire_hooks with_plugin (bytes "plugin_preunload") p 1).1 ≡ none
unfolding fire_hooks lookup
lets_go p = refl

unload-load_example :
    (lookup (bytes "lb") with_plugin.loaded_plugins
      ≡ some (record { name = bytes "lb"; loaded_module = 7 }))
    × (lookup (bytes "lb") (unload_plugin with_plugin (bytes "lb") 1).0.loaded_plugins
        ≡ lookup (bytes "lb") manager.loaded_plugins)
unload-load_example =
    unload-load open_module manager with_plugin (bytes "lb") (bytes "lb.so") (bytes "lb") 0 1 7 refl
      loads_once (lets_go (record { name = bytes "lb"; loaded_module = 7 }))
