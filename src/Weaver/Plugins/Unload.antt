-- ===== src/Weaver/Plugins/Unload.antt =====
-- A plugin after its load and its unload.
use dash_fabric.Base.{
  ◌≡◌, ◌≢◌, sym, ap, is_some, inl, inr, refl, ◌∙◌, Option, none, some, Bytes, bytes_eq, arith,
  if◌then◌else◌, Option-cases,
}
use dash_fabric.Base.Map.{lookup, insert, delete, lookup-insert, lookup-insert_self}
use dash_fabric.Weaver.Plugins.{
  LoadedPlugin, PluginManager, Opened, opened, LoadError, already_loaded, fire_hooks, load_plugin,
  unload_plugin, preload, loaded_event, preunload, unloaded_event, settle_load, load_module,
  load_opened, settle_unload, remove_plugin,
}
use dash_fabric.Weaver.Plugins.Laws.{with, restored}

not_error : {E : Type 0} (e : LoadError E) → some e ≢ none
not_error e h = cc

module _ {W M E : Type 0} where
  -- A load that succeeds put the module in that the file has.
  settle_load-put :
      (pm pm' : PluginManager W M E) (name : Bytes) (r : W × Option E) {w' : W}
      → settle_load pm name r ≡ (pm', w', none)
      → pm' ≡ pm
  settle_load-put pm pm' name (w, none) h = cc
  settle_load-put pm pm' name (w, some e) h = absurd (ground arith)

  load_module-put :
      (pm pm' : PluginManager W M E) (p : LoadedPlugin M) (r : W × Option E) {w' : W}
      → load_module pm p r ≡ (pm', w', none)
      → pm' ≡ with pm (insert p.name p pm.loaded_plugins)
  load_module-put pm pm' p (w, some e) h = absurd (ground arith)
  load_module-put pm pm' p (w, none) {w' = w'} h =
      let put = with pm (insert p.name p pm.loaded_plugins) in
      settle_load-put put pm' p.name (fire_hooks put loaded_event p w) {w' = w'} h

  load_plugin-put :
      (open_module : Bytes → Opened M E) (pm pm' : PluginManager W M E) (name path : Bytes)
      (w w' : W) (m : M)
      → open_module path ≡ opened m
      → load_plugin open_module pm name path w ≡ (pm', w', none)
      → (lookup name pm.loaded_plugins ≡ none)
        × (pm'
            ≡ with pm (insert name (record { name = name; loaded_module = m }) pm.loaded_plugins))
  unfolding load_plugin
  load_plugin-put open_module pm pm' name path w w' m o h =
      let p : LoadedPlugin M = record { name = name; loaded_module = m } in
      let r = λ (l : Option (LoadedPlugin M)) (x : Opened M E).
        (if is_some l then (pm, w, some (already_loaded name)) else load_opened pm name w x) in
      elim (Option-cases (lookup name pm.loaded_plugins)) [
        | inl e ↦ (
          e,
          load_module-put pm pm' p (fire_hooks pm preload p w) {w' = w'}
              (sym (ap (λ l. r l (open_module path)) e ∙ ap (r none) o) ∙ h),
        )
        | inr (q, e) ↦ absurd (
            not_error (already_loaded name)
              (ap (λ x. x.2) (sym (ap (λ l. r l (open_module path)) e) ∙ h)))
      ]

  -- What an unload leaves of the names.
  abbrev Gone :
      PluginManager W M E → Bytes → PluginManager W M E × W × Option (LoadError E) → Type 0
  Gone pm name r = r.0 ≡ with pm (delete name pm.loaded_plugins)

  settle_unload-Gone :
      (pm : PluginManager W M E) (name : Bytes) (r : W × Option E)
      → Gone pm name (settle_unload (with pm (delete name pm.loaded_plugins)) r)
  settle_unload-Gone pm name (w, none) = refl
  settle_unload-Gone pm name (w, some e) = refl

  remove-Gone :
      (pm : PluginManager W M E) (name : Bytes) (p : LoadedPlugin M) (r : W × Option E)
      → r.1 ≡ none
      → Gone pm name (remove_plugin pm name p r)
  remove-Gone pm name p (w, none) h =
      settle_unload-Gone pm name
        (fire_hooks (with pm (delete name pm.loaded_plugins)) unloaded_event p w)
  remove-Gone pm name p (w, some e) h = cc

  -- A plugin that is loaded without an error is there, with the module that its file opened; and when
  -- it is then unloaded, and the hooks before the unload let this plugin go, it is gone, and every
  -- name has what it had before the load. That a hook after the unload fails does not keep it.
  pub unload-load :
      (open_module : Bytes → Opened M E) (pm pm' : PluginManager W M E) (name path other : Bytes)
      (w w' : W) (m : M)
      → open_module path ≡ opened m
      → load_plugin open_module pm name path w ≡ (pm', w', none)
      → let p : LoadedPlugin M = record { name = name; loaded_module = m } in
        (fire_hooks pm' preunload p w').1 ≡ none
        → (lookup name pm'.loaded_plugins ≡ some p)
          × (lookup other (unload_plugin pm' name w').0.loaded_plugins
              ≡ lookup other pm.loaded_plugins)
  unfolding unload_plugin
  unload-load open_module pm pm' name path other w w' m o e h =
      let p : LoadedPlugin M = record { name = name; loaded_module = m } in
      let (free, put) = load_plugin-put open_module pm pm' name path w w' m o e in
      let has : lookup name pm'.loaded_plugins ≡ some p =
        ap (λ x. lookup name x.loaded_plugins) put ∙ lookup-insert_self name p pm.loaded_plugins in
      let gone = remove-Gone pm' name p (fire_hooks pm' preunload p w') h in
      (
        has,
        rw (has, unload_plugin)
            (rw gone (
              restored name other pm.loaded_plugins pm'.loaded_plugins p free (
                ap (λ x. lookup other x.loaded_plugins) put
                ∙ lookup-insert name other p pm.loaded_plugins))),
      )
