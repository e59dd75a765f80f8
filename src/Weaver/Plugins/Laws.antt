-- ===== src/Weaver/Plugins/Laws.antt =====
-- Which plugins are loaded after a load and after an unload.
use dash_fabric.Base.{
  ◌≡◌, inl, inr, refl, Option, none, some, Bytes, bytes_eq, bytes_beq_iff, ◌==◌, arith,
  if◌then◌else◌, Option-cases,
}
use dash_fabric.Base.Map.{Map, lookup, insert, delete, lookup-insert, lookup-delete}
use dash_fabric.Weaver.Plugins.{
  LoadedPlugin, PluginManager, Opened, opened, not_opened, LoadError, already_loaded,
  failed_to_load, hook_failed, fire_hooks, load_plugin, preload, loaded_event, settle_load,
  load_module, load_opened,
}

module _ {M : Type 0} where
  lookup_put_back :
      (name other : Bytes) (p : LoadedPlugin M) (m : Map Bytes (LoadedPlugin M))
      → lookup name m ≡ none
      → lookup other (delete name (insert name p m)) ≡ lookup other m
  lookup_put_back name other p m l = ground (
    arith,
    lookup-delete name other (insert name p m),
    lookup-insert name other p m,
    bytes_beq_iff name other,
    l,
  )

  pub own_key :
      (name : Bytes) (p : LoadedPlugin M) (o : Option (LoadedPlugin M))
      → (if name == name then some p else o) ≡ some p
  own_key name p o = ground (arith, bytes_beq_iff name name)

  -- Without the new name the old map is left.
  pub restored :
      (name other : Bytes) (m m' : Map Bytes (LoadedPlugin M)) (p : LoadedPlugin M)
      → lookup name m ≡ none
      → lookup other m' ≡ (if name == other then some p else lookup other m)
      → lookup other (delete name m') ≡ lookup other m
  restored name other m m' p l e =
      ground (arith, lookup-delete name other m', bytes_beq_iff name other, l, e)

module _ {W M E : Type 0} where
  abbrev pub with : PluginManager W M E → Map Bytes (LoadedPlugin M) → PluginManager W M E
  with pm m = record pm { loaded_plugins = m }

  -- What a load leaves: the manager as it was, or with the plugin, or with the plugin put in and
  -- taken out again.
  pub data Loaded (pm : PluginManager W M E) (name : Bytes)
      : PluginManager W M E × W × Option (LoadError E) → Type 0 where
    same : (w : W) (e : LoadError E) → Loaded pm name (pm, w, some e)
    loads :
        (m : M) (w : W)
        → lookup name pm.loaded_plugins ≡ none
        → Loaded pm name (
          with pm (insert name (record { name = name; loaded_module = m }) pm.loaded_plugins),
          w,
          none,
        )
    rolls_back :
        (m : M) (w : W) (e : LoadError E)
        → lookup name pm.loaded_plugins ≡ none
        → Loaded pm name (
          with pm (
              delete name
                (insert name (record { name = name; loaded_module = m }) pm.loaded_plugins)),
          w,
          some e,
        )

  settle_load-Loaded :
      (pm : PluginManager W M E) (name : Bytes) (m : M) (r : W × Option E)
      → lookup name pm.loaded_plugins ≡ none
      → Loaded pm name (
          settle_load
            (with pm (insert name (record { name = name; loaded_module = m }) pm.loaded_plugins))
            name
            r)
  settle_load-Loaded pm name m (w, none) l = loads m w l
  settle_load-Loaded pm name m (w, some e) l = rolls_back m w (hook_failed e) l

  load_module-Loaded :
      (pm : PluginManager W M E) (name : Bytes) (m : M) (r : W × Option E)
      → lookup name pm.loaded_plugins ≡ none
      → Loaded pm name (load_module pm (record { name = name; loaded_module = m }) r)
  load_module-Loaded pm name m (w, some e) l = same w (hook_failed e)
  load_module-Loaded pm name m (w, none) l =
      let p : LoadedPlugin M = record { name = name; loaded_module = m } in
      let pm' = with pm (insert name p pm.loaded_plugins) in
      settle_load-Loaded pm name m (fire_hooks pm' loaded_event p w) l

  load_opened-Loaded :
      (pm : PluginManager W M E) (name : Bytes) (w : W) (o : Opened M E)
      → lookup name pm.loaded_plugins ≡ none
      → Loaded pm name (load_opened pm name w o)
  load_opened-Loaded pm name w (not_opened e) l = same w (failed_to_load name e)
  load_opened-Loaded pm name w (opened m) l =
      let p : LoadedPlugin M = record { name = name; loaded_module = m } in
      load_module-Loaded pm name m (fire_hooks pm preload p w) l

  load_plugin-Loaded :
      (open_module : Bytes → Opened M E) (pm : PluginManager W M E) (name path : Bytes) (w : W)
      → Loaded pm name (load_plugin open_module pm name path w)
  unfolding load_plugin
  load_plugin-Loaded open_module pm name path w =
      elim (Option-cases (lookup name pm.loaded_plugins)) [
        | inr (p, l) ↦ rw (l, load_plugin) (same w (already_loaded name))
        | inl l ↦ rw (l, load_plugin) (load_opened-Loaded pm name w (open_module path) l)
      ]

  -- What a load changed, by its error.
  abbrev pub Changed :
      PluginManager W M E → Bytes → Bytes → PluginManager W M E × W × Option (LoadError E) → Type 0
  Changed pm name other (pm', w, none) =
      (lookup name pm.loaded_plugins ≡ none)
      × (m : M) × (lookup other pm'.loaded_plugins ≡ (
          if name == other
          then some (record { name = name; loaded_module = m })
          else lookup other pm.loaded_plugins))
  Changed pm name other (pm', w, some e) =
      lookup other pm'.loaded_plugins ≡ lookup other pm.loaded_plugins

  Loaded-Changed :
      {pm : PluginManager W M E} {name : Bytes} {r : PluginManager W M E × W × Option (LoadError E)}
      (other : Bytes)
      → Loaded pm name r
      → Changed pm name other r
  Loaded-Changed other (same w e) = refl
  Loaded-Changed {pm = pm} {name = name} other (loads m w l) =
      (l, m, lookup-insert name other (record { name = name; loaded_module = m }) pm.loaded_plugins)
  Loaded-Changed {pm = pm} {name = name} other (rolls_back m w e l) =
      lookup_put_back name other (record { name = name; loaded_module = m }) pm.loaded_plugins l

  -- A load that succeeds was of a name that was not loaded; then that name has the plugin, and every
  -- other name what it had. A load that fails, because of the name, the file or a hook before or
  -- after it, leaves every name with what it had.
  load_lem :
      (open_module : Bytes → Opened M E) (pm : PluginManager W M E) (name path other : Bytes)
      (w : W)
      → Changed pm name other (load_plugin open_module pm name path w)
  load_lem open_module pm name path other w =
      Loaded-Changed other (load_plugin-Loaded open_module pm name path w)
