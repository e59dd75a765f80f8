-- ===== src/Fm/Gm/Manager/Tests.antt =====
-- A construct that changes its version. JSON is the text of the ENI's id, after the version as one
-- byte, and SHA-256 is the identity.
use dash_fabric.Base.{
  ℕ, ◌≡◌, ◌≢◌, refl, true, false, List, [], ◌∷◌, none, some, Bytes, bytes, bytes_eq,
}
use dash_fabric.Base.Map.{Map, lookup}
use dash_fabric.Base.Int.{ℤ, pos, negsuc}
use dash_fabric.Fm.Gm.Types.{PerEniGoalState, ConstructState}
use dash_fabric.Fm.Gm.Generate.{JsonValue, text, number, fingerprint_of}
use dash_fabric.Fm.Gm.Cache as Cache
use dash_fabric.Fm.Gm.Manager.{GoalStateManager, new, get_goal_state, proceed}
use dash_fabric.Fm.Gm.Manager.Kept.{Change, change, handle, handle_all, Describes, Apart}
use dash_fabric.Fm.Gm.Manager.Laws.{IsOrder, change_found, keys, contains-keys, old_version_served}

abbrev pair : ℤ → Bytes → Bytes
pair (pos n) t = 0 ∷ n ∷ t
pair (negsuc n) t = 1 ∷ n ∷ t

abbrev marshal : Map Bytes JsonValue → Bytes
marshal ((_, text t) ∷ _ ∷ _ ∷ (_, number v) ∷ _) = pair v t
marshal _ = []

abbrev sha256_hex : Bytes → Bytes
sha256_hex s = s

pair_injective : (v w : ℤ) (s t : Bytes) → pair v s ≡ pair w t → (s ≡ t) × (v ≡ w)
pair_injective (pos n) (pos m) s t h = (cc, cc)
pair_injective (pos n) (negsuc m) s t h = (cc, cc)
pair_injective (negsuc n) (pos m) s t h = (cc, cc)
pair_injective (negsuc n) (negsuc m) s t h = (cc, cc)

separate :
    (c d : ConstructState)
    → fingerprint_of marshal sha256_hex c ≡ fingerprint_of marshal sha256_hex d
    → (c.id ≡ d.id) × (c.config_version ≡ d.config_version)
unfolding fingerprint_of
separate c d h = pair_injective c.config_version d.config_version c.id d.id h

abbrev construct : ℤ → ConstructState
construct version = record {
  id = bytes "eni-1";
  vnet_id = bytes "vnet-1";
  status = bytes "up";
  config_version = version;
  tenant_id = [];
  construct_type = [];
  last_updated = 0;
  replica_id = [];
}

abbrev stored : ℤ → Map Bytes ConstructState
stored version = (bytes "eni-1", construct version) ∷ []

stored-Apart : (version : ℤ) → Apart marshal sha256_hex (construct (pos 1)) (stored version)
stored-Apart version = (separate (construct version) (construct (pos 1)), tt)

abbrev running : GoalStateManager
running = record (new Cache.new) { running = true }

abbrev later : List Change
later = change (stored (pos 2)) proceed false false (some (construct (pos 2))) ∷ []

named : (x : ℕ) (s : Bytes) → x ∷ s ≢ []
named x s h = cc

abbrev after : GoalStateManager
after =
    handle_all marshal sha256_hex
      (handle marshal sha256_hex running
        (change (stored (pos 1)) proceed false false (some (construct (pos 1))))).0
      later

old_version_served_example :
    (order : List Bytes) × IsOrder order after.cache
    × (g : PerEniGoalState) × ((get_goal_state after (bytes "eni-1") order).1 ≡ some g)
    × Describes (construct (pos 1)) g
unfolding lookup
old_version_served_example =
    old_version_served marshal sha256_hex running (stored (pos 1)) (construct (pos 1))
      (construct (pos 1)) (bytes "eni-1") later refl (named 118 (bytes "net-1")) refl refl
      (named 101 (bytes "ni-1")) (stored-Apart (pos 1)) (stored-Apart (pos 2), tt)

abbrev order : List Bytes
order = keys after.cache.cache

change_found_example :
    let r =
      handle marshal sha256_hex running
        (change (stored (pos 1)) proceed false false (some (construct (pos 1)))) in
    (r.1 ≡ none)
    × (g : PerEniGoalState) × ((get_goal_state after (bytes "eni-1") order).1 ≡ some g)
    × (g.eni_id ≡ bytes "eni-1")
unfolding lookup
change_found_example =
    change_found marshal sha256_hex running (stored (pos 1)) (construct (pos 1)) (construct (pos 1))
      (bytes "eni-1") later order refl (named 118 (bytes "net-1")) refl refl
      (named 101 (bytes "ni-1")) (stored-Apart (pos 1)) (stored-Apart (pos 2), tt)
      (λ k. contains-keys k after.cache.cache)
