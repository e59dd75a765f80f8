-- ===== src/Weaver/Balancer.antt =====
-- src/Weaver/pkg/loadbalancer/strategies.go. Calls are taken one at a time. `none` is a panic of an
-- index out of range. Of a replica the strategies read the name and the connections. The one error
-- is "no replicas available".
use dash_fabric.Base.{
  ℕ, zero, suc, ◌+◌, ◌*◌, ◌%◌, Bool, true, false, List, [], ◌∷◌, Option, none, some, Bytes, bytes,
  bytes_eq, if◌then◌else◌, length, get_elem?, or_else,
}
use dash_fabric.Base.Map.{Map, lookup, insert}
use dash_fabric.Base.Int.{ℤ, pos, negsuc, inc64, add64, ltb_ℤ, beq_ℤ, of_word, two_pow_64}
pub mod Turns
pub mod Shares
pub mod Least
pub mod Affinity
mod Tests

pub record Replica : Type 0 where
  pub name : Bytes
  pub active_connections : ℤ

pub data Reply : Type 0 where
  selected : Replica → Reply
  no_replicas : Reply

-- Go's remainder, with the sign of the dividend
abbrev pub rem : ℤ → ℕ → ℤ
rem (pos n) k = pos (n % k)
rem (negsuc n) k = elim (suc n % k) [ zero ↦ pos 0 | suc r ↦ negsuc r ]

-- replicas[i]
abbrev pub at_index : List Replica → ℤ → Option Reply
at_index rs (pos i) = elim (get_elem? rs i) [ none ↦ none | some r ↦ some (selected r) ]
at_index rs (negsuc i) = none

-- UpdateLoad of every strategy; a nil replica is `none`.
unfoldable pub update_load : Option Replica → ℤ → Option Replica
update_load none delta = none
update_load (some r) delta =
    some (record r { active_connections = add64 r.active_connections delta })

-- RoundRobin
-- Select, with the counter
unfoldable pub round_robin_select : ℤ → List Replica → ℤ × Option Reply
round_robin_select counter [] = (counter, some no_replicas)
round_robin_select counter (r ∷ rs) =
    (inc64 counter, at_index (r ∷ rs) (rem counter (length (r ∷ rs))))

-- LeastConnections
-- the loop from index `i` on, with so many rounds left
unfoldable pub scan : ℕ → ℕ → List Replica → Replica → ℤ → Replica
scan zero i replicas best min_load = best
scan (suc n) i replicas best min_load = elim (get_elem? replicas i) [
  | none ↦ best
  | some r ↦
      if ltb_ℤ r.active_connections min_load
      then scan n (suc i) replicas r r.active_connections
      else scan n (suc i) replicas best min_load
]

unfoldable pub least_connections_select : List Replica → Reply
least_connections_select [] = no_replicas
least_connections_select (r ∷ rs) = selected (scan (length rs) 1 (r ∷ rs) r r.active_connections)

-- ResourceAware
unfoldable pub range : List Replica → Replica → ℤ → Replica
range [] best min_connections = best
range (r ∷ rs) best min_connections =
    if ltb_ℤ r.active_connections min_connections
    then range rs r r.active_connections
    else range rs best min_connections

unfoldable pub resource_aware_select : List Replica → Reply
resource_aware_select [] = no_replicas
resource_aware_select (r ∷ rs) = selected (range rs r r.active_connections)

-- A client is the runes of its identifier, and the affinity map has an index for each.
abbrev hash_loop : ℕ → List ℕ → ℕ
hash_loop hash [] = hash
hash_loop hash (ch ∷ chs) = hash_loop ((hash * 32 % two_pow_64 + hash + ch) % two_pow_64) chs

unfoldable pub hash_client : List ℕ → ℕ
hash_client client_id = hash_loop 5381 client_id

abbrev pub choose : Map (List ℕ) ℤ → List ℕ → List Replica → Map (List ℕ) ℤ × Option Reply
choose affinity client rs =
    let idx = rem (of_word (hash_client client)) (length rs) in
    (insert client idx affinity, at_index rs idx)

unfoldable pub sticky_select :
    Map (List ℕ) ℤ → List ℕ → List Replica → Map (List ℕ) ℤ × Option Reply
sticky_select affinity client [] = (affinity, some no_replicas)
sticky_select affinity client (r ∷ rs) = elim (lookup client affinity) [
  | none ↦ choose affinity client (r ∷ rs)
  | some idx ↦
      if ltb_ℤ idx (pos (length (r ∷ rs)))
      then (affinity, at_index (r ∷ rs) idx)
      else choose affinity client (r ∷ rs)
]

unfoldable pub sticky_rebalance : Map (List ℕ) ℤ → Map (List ℕ) ℤ
sticky_rebalance affinity = []

-- Random: the index is that of a new counter, which is 0
unfoldable pub random_select : List Replica → Option Reply
random_select [] = some no_replicas
random_select (r ∷ rs) = at_index (r ∷ rs) (rem (pos 0) (length (r ∷ rs)))

-- Weighted, with its weights and its counter
abbrev pub weight_of : Map Bytes ℤ → Replica → ℤ
weight_of weights r =
    let weight = or_else (lookup r.name weights) (pos 0) in
    if beq_ℤ weight (pos 0) then pos 1 else weight

abbrev pub total_weight : Map Bytes ℤ → List Replica → ℤ → ℤ
total_weight weights [] total = total
total_weight weights (r ∷ rs) total = total_weight weights rs (add64 total (weight_of weights r))

-- The loop over the ranges of the weights; `last` is the last replica.
abbrev pub find_weighted : Map Bytes ℤ → ℤ → List Replica → ℤ → Replica → Replica
find_weighted weights target [] current last = last
find_weighted weights target (r ∷ rs) current last =
    let next = add64 current (weight_of weights r) in
    let rest = find_weighted weights target rs next r in if ltb_ℤ target next then r else rest

-- Go's remainder of two numbers, with the sign of the dividend; `none` is the panic at 0
abbrev pub rem64 : ℤ → ℤ → Option ℤ
rem64 a (pos zero) = none
rem64 a (pos (suc k)) = some (rem a (suc k))
rem64 a (negsuc k) = some (rem a (suc k))

unfoldable pub weighted_select : Map Bytes ℤ → ℤ → List Replica → ℤ × Reply
weighted_select weights counter [] = (counter, no_replicas)
weighted_select weights counter (r ∷ rs) =
    elim (rem64 (inc64 counter) (total_weight weights (r ∷ rs) (pos 0))) [
      | none ↦ (counter, selected r)
      | some target ↦ (inc64 counter, selected (find_weighted weights target (r ∷ rs) (pos 0) r))
    ]

-- CustomStrategy, whose functions may be nil
pub data CustomReply (E : Type 0) : Type 0 where
  function_not_defined : CustomReply E
  custom_reply : E → CustomReply E

unfoldable pub custom_select :
    {E : Type 0} → Option (List Replica → E) → List Replica → CustomReply E
custom_select none replicas = function_not_defined
custom_select (some select) replicas = custom_reply (select replicas)

unfoldable pub custom_update_load :
    Option (Option Replica → ℤ → Option Replica) → Option Replica → ℤ → Option Replica
custom_update_load none r delta = r
custom_update_load (some update) r delta = update r delta
