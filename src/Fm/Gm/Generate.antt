-- ===== src/Fm/Gm/Generate.antt =====
-- src/FM/pkg/gm/aggregator.go and composer.go: the constructs of a VNET, and the goal state of each.
-- A context is told whether it is done. The stored constructs are not nil. json.Marshal, which
-- fails on none of these payloads, and SHA-256 in hexadecimal are arguments.
use dash_fabric.Base.{
  Bool, List, [], ◌∷◌, Option, none, some, Bytes, bytes, bytes_eq, ◌==◌, if◌then◌else◌, map,
}
use dash_fabric.Base.Map.{Map, insert}
use dash_fabric.Base.Int.{ℤ}
use dash_fabric.Fm.Gm.Types.{AggregatedState, ConstructState, PerEniGoalState}

pub data GoalError : Type 0 where
  aggregation_cancelled : GoalError
  vnet_id_required : GoalError
  generation_cancelled : GoalError
  aggregated_state_required : GoalError

-- A result or an error.
pub data Result (A : Type 0) : Type 0 where
  done : A → Result A
  failed : GoalError → Result A

-- The constructs of a VNET, in the order in which the map is ranged over.
unfoldable pub of_vnet : Bytes → Map Bytes ConstructState → List ConstructState
of_vnet vnet_id [] = []
of_vnet vnet_id ((id, c) ∷ rest) =
    let others = of_vnet vnet_id rest in if c.vnet_id == vnet_id then c ∷ others else others

unfoldable pub aggregate : Map Bytes ConstructState → Bool → Bytes → Result AggregatedState
aggregate constructs cancelled vnet_id =
    if cancelled
    then failed aggregation_cancelled
    else (if vnet_id == []
        then failed vnet_id_required
        else done
            (record { vnet_id = vnet_id; constructs = of_vnet vnet_id constructs; replicas = [] }))

unfoldable pub add_construct :
    Map Bytes ConstructState → Option ConstructState → Map Bytes ConstructState
add_construct constructs none = constructs
add_construct constructs (some c) = if c.id == [] then constructs else insert c.id c constructs

-- A value of the payload.
pub data JsonValue : Type 0 where
  text : Bytes → JsonValue
  number : ℤ → JsonValue

module _ (marshal : Map Bytes JsonValue → Bytes) (sha256_hex : Bytes → Bytes) where
  unfoldable pub fingerprint_of : ConstructState → Bytes
  fingerprint_of c = sha256_hex (
      marshal (
        (bytes "eni_id", text c.id)
        ∷ (bytes "vnet_id", text c.vnet_id)
        ∷ (bytes "status", text c.status)
        ∷ (bytes "config_ver", number c.config_version)
        ∷ []))

  unfoldable pub goal_state : ConstructState → PerEniGoalState
  goal_state c = record {
    eni_id = c.id;
    routes = [];
    acls = [];
    vip_mappings = [];
    fingerprint = fingerprint_of c;
    version = c.config_version;
    last_updated = 0;
  }

  unfoldable pub generate : Bool → Option AggregatedState → Result (List (Option PerEniGoalState))
  generate cancelled agg = if cancelled then failed generation_cancelled else (elim agg [
    | none ↦ failed aggregated_state_required
    | some a ↦ done (map (λ c. some (goal_state c)) a.constructs)
  ])
