-- ===== src/Fm/Dal/Plugins.antt =====
-- src/FM/pkg/dal/registry.go: the plugins of the vendors. A nil plugin is `none`.
use dash_fabric.Base.{
  ◌≡◌, true, [], ◌∷◌, ◌||◌, Option, none, some, arith, Bytes, bytes_eq, bytes_beq, bytes_beq_iff,
  if◌then◌else◌, is_some,
}
use dash_fabric.Base.Map.{Map, lookup, insert, lookup-insert}

pub data PluginError : Type 0 where
  vendor_required plugin_required : PluginError
  already_registered not_found : Bytes → PluginError

pub data Found (Plugin : Type 0) : Type 0 where
  found : Plugin → Found Plugin
  missing : PluginError → Found Plugin

module _ {Plugin : Type 0} where
  unfoldable pub register :
      Map Bytes Plugin → Bytes → Option Plugin → Map Bytes Plugin × Option PluginError
  register r [] plugin = (r, some vendor_required)
  register r (b ∷ bs) none = (r, some plugin_required)
  register r (b ∷ bs) (some plugin) =
      if is_some (lookup (b ∷ bs) r)
      then (r, some (already_registered (b ∷ bs)))
      else (insert (b ∷ bs) plugin r, none)

  unfoldable pub get : Map Bytes Plugin → Bytes → Found Plugin
  get r [] = missing vendor_required
  get r (b ∷ bs) = elim (lookup (b ∷ bs) r) [
    | none ↦ missing (not_found (b ∷ bs))
    | some plugin ↦ found plugin
  ]

  pub clear : Map Bytes Plugin → Map Bytes Plugin
  clear r = []

  -- After a registration that succeeds, that vendor has that plugin and the others are as before.
  -- After one that fails nothing has changed. It fails for an empty name, for a nil plugin and for
  -- a vendor that has a plugin, and succeeds else.
  pub register-get :
      (r : Map Bytes Plugin) (vendor other : Bytes) (p : Plugin)
      → let (r', err) = register r vendor (some p) in
        (err ≡ none → get r' other ≡ (if bytes_beq vendor other then found p else get r other))
        × (is_some err ≡ true → r' ≡ r)
        × (is_some err ≡ bytes_beq vendor [] || is_some (lookup vendor r))
  unfolding register get
  register-get r [] other p = ground arith
  register-get r (b ∷ bs) other p =
      ground (arith, lookup-insert (b ∷ bs) other p r, bytes_beq_iff (b ∷ bs) other)
