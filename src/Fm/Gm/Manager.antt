-- ===== src/Fm/Gm/Manager.antt =====
-- src/FM/pkg/gm/manager.go: a change of a construct, taken to the goal states of its VNET, and the
-- search for the goal state of an ENI. A select that finds several channels ready takes any, so it
-- is told what it found.
use dash_fabric.Base.{
  Bool, true, false, not, List, [], ◌∷◌, Option, none, some, Bytes, bytes_eq, ◌==◌, if◌then◌else◌,
  length,
}
use dash_fabric.Base.Map.{lookup}
use dash_fabric.Base.Int.{ℤ, pos, inc64, add64}
use dash_fabric.Fm.Gm.Types.{AggregatedState, ConstructState, ManagerStats, PerEniGoalState}
use dash_fabric.Fm.Gm.Generate.{GoalError, Result, done, failed}
use dash_fabric.Fm.Gm.Cache.{GoalStateCache, set}
pub mod Kept
pub mod Laws
mod Tests

-- The parts that the manager is given are arguments of what uses them.
pub record GoalStateManager : Type 0 where
  pub cache : GoalStateCache
  pub running : Bool
  pub stats : ManagerStats

pub data ManagerError : Type 0 where
  already_running : ManagerError
  not_running : ManagerError
  change_cancelled : ManagerError
  manager_stopped : ManagerError
  construct_required : ManagerError
  aggregation_failed : GoalError → ManagerError
  generation_failed : GoalError → ManagerError

-- What the select at the head of HandleConstructChange found.
pub data Select : Type 0 where
  caller_done : Select
  manager_done : Select
  proceed : Select

abbrev no_stats : ManagerStats
no_stats = record {
  vnets_processed = pos 0;
  goal_states_generated = pos 0;
  cache_hits = pos 0;
  cache_misses = pos 0;
  aggregation_errors = pos 0;
  generation_errors = pos 0;
}

unfoldable pub new : GoalStateCache → GoalStateManager
new cache = record { cache = cache; running = false; stats = no_stats }

unfoldable pub start : GoalStateManager → GoalStateManager × Option ManagerError
start m = if m.running then (m, some already_running) else (record m { running = true }, none)

unfoldable pub stop : GoalStateManager → GoalStateManager × Option ManagerError
stop m = if not m.running then (m, some not_running) else (record m { running = false }, none)

-- The loop that stores the goal states.
unfoldable pub set_all : GoalStateCache → List (Option PerEniGoalState) → GoalStateCache
set_all c [] = c
set_all c (none ∷ rest) = set_all c rest
set_all c (some g ∷ rest) = set_all (set c g.fingerprint g) rest

-- The aggregator and the generator, each with what they find of the caller's context.
module _ (aggregate : Bytes → Result AggregatedState)
    (generate : Option AggregatedState → Result (List (Option PerEniGoalState))) where
  unfoldable pub handle_construct_change :
      GoalStateManager → Select → Option ConstructState → GoalStateManager × Option ManagerError
  handle_construct_change m found construct =
      if not m.running then (m, some not_running) else (elim found [
        | caller_done ↦ (m, some change_cancelled)
        | manager_done ↦ (m, some manager_stopped)
        | proceed ↦ elim construct [
          | none ↦ (m, some construct_required)
          | some c ↦ elim (aggregate c.vnet_id) [
            | failed e ↦ (
              record m {
                stats = record m.stats { aggregation_errors = inc64 m.stats.aggregation_errors };
              },
              some (aggregation_failed e),
            )
            | done agg ↦
                let processed : ManagerStats = record m.stats {
                  vnets_processed = inc64 m.stats.vnets_processed;
                } in
                elim (generate (some agg)) [
                  | failed e ↦ (
                    record m {
                      stats = record processed {
                        generation_errors = inc64 processed.generation_errors;
                      };
                    },
                    some (generation_failed e),
                  )
                  | done states ↦ (
                    record m {
                      stats = record processed {
                        goal_states_generated =
                            add64 processed.goal_states_generated (pos (length states));
                      };
                      cache = set_all m.cache states;
                    },
                    none,
                  )
                ]
          ]
        ]
      ])

-- The search through the cache, whose keys are ranged over in the order given.
unfoldable pub search : GoalStateCache → Bytes → List Bytes → Option PerEniGoalState
search c eni_id [] = none
search c eni_id (k ∷ rest) = elim (lookup k c.cache) [
  | none ↦ search c eni_id rest
  | some g ↦ if g.eni_id == eni_id then some g else search c eni_id rest
]

unfoldable pub get_goal_state :
    GoalStateManager → Bytes → List Bytes → GoalStateManager × Option PerEniGoalState
get_goal_state m eni_id order =
    if eni_id == [] then (m, none) else (elim (search m.cache eni_id order) [
      | some g ↦
          (record m { stats = record m.stats { cache_hits = inc64 m.stats.cache_hits } }, some g)
      | none ↦
          (record m { stats = record m.stats { cache_misses = inc64 m.stats.cache_misses } }, none)
    ])
