-- ===== src/Fm/Gm/Cache.antt =====
-- src/FM/pkg/gm/cache.go: goal states by fingerprint. No nil state is stored.
use dash_fabric.Base.{[], Option, none, some, Bytes, bytes_eq, length}
use dash_fabric.Base.Map.{Map, lookup, insert}
use dash_fabric.Base.Int.{ℤ, pos, inc64, add64}
use dash_fabric.Fm.Gm.Types.{PerEniGoalState}

pub record CacheStats : Type 0 where
  pub size : ℤ
  pub hits : ℤ
  pub misses : ℤ
  pub evicted : ℤ

pub record GoalStateCache : Type 0 where
  pub cache : Map Bytes PerEniGoalState
  pub stats : CacheStats

abbrev no_stats : CacheStats
no_stats = record { size = pos 0; hits = pos 0; misses = pos 0; evicted = pos 0 }

unfoldable pub new : GoalStateCache
new = record { cache = []; stats = no_stats }

unfoldable pub get : GoalStateCache → Bytes → GoalStateCache × Option PerEniGoalState
get c fingerprint = elim (lookup fingerprint c.cache) [
  | some g ↦ (record c { stats = record c.stats { hits = inc64 c.stats.hits } }, some g)
  | none ↦ (record c { stats = record c.stats { misses = inc64 c.stats.misses } }, none)
]

unfoldable pub set : GoalStateCache → Bytes → PerEniGoalState → GoalStateCache
set c fingerprint g =
    let cache = insert fingerprint g c.cache in
    record c { cache = cache; stats = record c.stats { size = pos (length cache) } }

unfoldable pub clear : GoalStateCache → GoalStateCache
clear c = record c {
  cache = [];
  stats = record c.stats { evicted = add64 c.stats.evicted (pos (length c.cache)); size = pos 0 };
}
