-- ===== src/Weaver/Gateway.antt =====
-- src/Weaver/pkg/gateway: the replicas with their counters (types.go), and the gateway that routes
-- requests to them (gateway.go and routing.go). A balancer is an argument, which selects one of the
-- replicas that it is given, by its place; so is what the discovery and the clock tell.
use dash_fabric.Base.{
  ℕ, ◌+◌, Bool, true, false, List, [], ◌∷◌, Option, none, some, Bytes, bytes, bytes_eq,
  if◌then◌else◌, map, length, set, get_elem?, ltb,
}
use dash_fabric.Base.Map.{Map, insert}
use dash_fabric.Base.Int.{ℤ, pos, negsuc, inc64, add64, mul64}
pub mod Load
pub mod Loads
mod Tests

pub record ReplicaMetrics : Type 0 where
  pub request_count : ℤ
  pub error_count : ℤ
  pub total_latency : ℤ
  pub last_check_time : ℕ
  pub last_error_time : ℕ
  pub consecutive_errors : ℤ

pub record Replica : Type 0 where
  pub name : Bytes
  pub address : Bytes
  pub healthy : Bool
  pub metrics : ReplicaMetrics
  pub active_connections : ℤ

abbrev pub no_metrics : ReplicaMetrics
no_metrics = record {
  request_count = pos 0;
  error_count = pos 0;
  total_latency = pos 0;
  last_check_time = 0;
  last_error_time = 0;
  consecutive_errors = pos 0;
}

-- RecordSuccess, with the latency in nanoseconds and the time
unfoldable pub record_success : Replica → ℤ → ℕ → Replica
record_success r latency now = record r {
  metrics = record r.metrics {
    request_count = inc64 r.metrics.request_count;
    total_latency = add64 r.metrics.total_latency latency;
    consecutive_errors = pos 0;
    last_check_time = now;
  };
}

-- RecordError; the count of consecutive errors is an int32
abbrev inc32 : ℤ → ℤ
inc32 (pos n) = if ltb n 2147483647 then pos (n + 1) else negsuc 2147483647
inc32 n = inc64 n

unfoldable pub record_error : Replica → ℕ → Replica
record_error r now = record r {
  metrics = record r.metrics {
    error_count = inc64 r.metrics.error_count;
    consecutive_errors = inc32 r.metrics.consecutive_errors;
    last_error_time = now;
  };
}

unfoldable pub reset_metrics : Replica → Replica
reset_metrics r = record r { metrics = no_metrics }

pub data GatewayState : Type 0 where
  ready degraded panic : GatewayState

pub record Gateway (L : Type 0) : Type 0 where
  pub replicas : List Replica
  pub lb : L
  pub state : GatewayState

-- What the discovery tells of a replica.
pub record ReplicaInfo : Type 0 where
  pub name : Bytes
  pub address : Bytes
  pub healthy : Bool

abbrev pub new_replica : ReplicaInfo → Replica
new_replica info = record {
  name = info.name;
  address = info.address;
  healthy = info.healthy;
  metrics = no_metrics;
  active_connections = pos 0;
}

-- What Discover gives, where there is a discovery.
pub data Discovered (E : Type 0) : Type 0 where
  discovered : List ReplicaInfo → Discovered E
  discovery_failed : E → Discovered E

pub data StartError (E : Type 0) : Type 0 where
  discovery_required : StartError E
  not_discovered : E → StartError E

pub record Request : Type 0 where
  pub method : Bytes
  pub payload : Bytes
  pub headers : Map Bytes Bytes
  pub timeout_ms : ℤ
  pub request_id : Bytes
  pub client_ip : Bytes

pub record Response : Type 0 where
  pub status_code : ℤ
  pub payload : Bytes
  pub headers : Map Bytes Bytes
  pub latency_ms : ℤ

pub data RouteError (E : Type 0) : Type 0 where
  context_done : E → RouteError E
  no_replicas : RouteError E
  request_timeout : RouteError E
  selection_failed : E → RouteError E
  no_healthy_replica : RouteError E

pub data Routed (E : Type 0) : Type 0 where
  responded : Response → Routed E
  not_routed : RouteError E → Routed E

-- What a balancer selects: a replica by its place, nil, or an error.
pub data Selection (E : Type 0) : Type 0 where
  chosen : ℕ → Selection E
  no_choice : Selection E
  select_failed : E → Selection E

abbrev pub ok : Response
ok = record { status_code = pos 200; payload = bytes "OK"; headers = []; latency_ms = pos 1 }

-- deadline.Before(now), of a deadline that is a duration after a time
abbrev pub passed : ℕ → ℤ → ℕ → Bool
passed start (pos n) now = ltb (start + n) now
passed start (negsuc n) now = ltb start (now + n + 1)

abbrev pub distribute : List Replica → Map Bytes ℤ → Map Bytes ℤ
distribute [] m = m
distribute (r ∷ rs) m = distribute rs (insert r.name r.active_connections m)

module _ {L : Type 0} where
  unfoldable pub new_gateway : L → Gateway L
  new_gateway lb = record { replicas = []; lb = lb; state = ready }

  -- The case of a change in watchDiscovery, with the balancer's Rebalance
  unfoldable pub watch_change : (L → List Replica → L) → Gateway L → List ReplicaInfo → Gateway L
  watch_change rebalance g infos =
      let replicas = map new_replica infos in
      record g { replicas = replicas; lb = rebalance g.lb replicas }

  unfoldable pub set_replicas : Gateway L → List Replica → Gateway L
  set_replicas g replicas = record g { replicas = replicas }

  unfoldable pub get_load_distribution : Gateway L → Map Bytes ℤ
  get_load_distribution g = distribute g.replicas []

module _ {L E : Type 0} where
  unfoldable pub start : Gateway L → Option (Discovered E) → Gateway L × Option (StartError E)
  start g none = (g, some discovery_required)
  start g (some (discovery_failed e)) = (g, some (not_discovered e))
  start g (some (discovered infos)) =
      (record g { replicas = map new_replica infos; state = ready }, none)

  -- The selected replica answers, and is recorded.
  abbrev pub answer : Gateway L → Option Replica → ℕ → ℕ → Gateway L × Routed E
  answer g none i now = (g, not_routed no_healthy_replica)
  answer g (some r) i now = (
    record g {
      replicas = set g.replicas i (record_success r (mul64 ok.latency_ms (pos 1000000)) now);
    },
    responded ok,
  )

  abbrev pub attempt : Gateway L → L × Selection E → ℕ → Gateway L × Routed E
  attempt g (lb, select_failed e) now = (record g { lb = lb }, not_routed (selection_failed e))
  attempt g (lb, no_choice) now = (record g { lb = lb }, not_routed no_healthy_replica)
  attempt g (lb, chosen i) now = answer (record g { lb = lb }) (get_elem? g.replicas i) i now

  abbrev pub route_live :
      (L → List Replica → L × Selection E) → Gateway L → Request → ℕ → ℕ → Gateway L × Routed E
  route_live select g req started now =
      if passed started (mul64 req.timeout_ms (pos 1000000)) now
      then (g, not_routed request_timeout)
      else attempt g (select g.lb g.replicas) now

  -- Without replicas there is a panic.
  abbrev pub route_among :
      (L → List Replica → L × Selection E)
      → Gateway L
      → List Replica
      → Request
      → ℕ
      → ℕ
      → Gateway L × Routed E
  route_among select g [] req started now = (record g { state = panic }, not_routed no_replicas)
  route_among select g (r ∷ rs) req started now = route_live select g req started now

  -- RouteRequest, with the error of the context and two readings of the clock. The loop over the
  -- attempts returns in its first round.
  unfoldable pub route_request :
      (L → List Replica → L × Selection E)
      → Gateway L
      → Option E
      → Request
      → ℕ
      → ℕ
      → Gateway L × Routed E
  route_request select g (some e) req started now = (g, not_routed (context_done e))
  route_request select g none req started now = route_among select g g.replicas req started now
