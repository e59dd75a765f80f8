-- ===== src/Fm/Gm/Types.antt =====
-- src/FM/pkg/gm/types.go: constructs, the goal states made of them, and the counters of the manager.
-- A time is a number of nanoseconds, the zero time 0.
use dash_fabric.Base.{ℕ, Bool, List, Bytes}
use dash_fabric.Base.Int.{ℤ}

pub record Route : Type 0 where
  pub destination : Bytes
  pub next_hop : Bytes
  pub metric : ℤ

pub record AclRule : Type 0 where
  pub id : Bytes
  pub action : Bytes
  pub protocol : Bytes
  pub src_ip : Bytes
  pub dst_ip : Bytes
  pub src_port : ℤ
  pub dst_port : ℤ

pub record VipMapping : Type 0 where
  pub vip : Bytes
  pub dip : Bytes

pub record PerEniGoalState : Type 0 where
  pub eni_id : Bytes
  pub routes : List Route
  pub acls : List AclRule
  pub vip_mappings : List VipMapping
  pub fingerprint : Bytes
  pub version : ℤ
  pub last_updated : ℕ

pub record ConstructState : Type 0 where
  pub id : Bytes
  pub vnet_id : Bytes
  pub status : Bytes
  pub config_version : ℤ
  pub tenant_id : Bytes
  pub construct_type : Bytes
  pub last_updated : ℕ
  pub replica_id : Bytes

pub record ReplicaState : Type 0 where
  pub id : Bytes
  pub vnet_id : Bytes
  pub status : Bytes
  pub health_ok : Bool

pub record AggregatedState : Type 0 where
  pub vnet_id : Bytes
  pub constructs : List ConstructState
  pub replicas : List ReplicaState

-- The two times in milliseconds and the uptime, which nothing writes, are left out.
pub record ManagerStats : Type 0 where
  pub vnets_processed : ℤ
  pub goal_states_generated : ℤ
  pub cache_hits : ℤ
  pub cache_misses : ℤ
  pub aggregation_errors : ℤ
  pub generation_errors : ℤ
