-- ===== src/Weaver/Balancer/Tests.antt =====
-- Runs of the strategies.
use dash_fabric.Base.{
  ℕ, ◌<◌, ◌≡◌, refl, List, [], ◌∷◌, none, some, arith, bytes, bytes_eq, get_elem?, ◌==◌,
}
use dash_fabric.Base.Map.{lookup}
use dash_fabric.Base.Int.{pos}
use dash_fabric.Weaver.Balancer.{
  Replica, selected, round_robin_select, least_connections_select, scan, sticky_select, hash_client,
}
use dash_fabric.Weaver.Balancer.Shares.{served, weighted_shares}
use dash_fabric.Weaver.Balancer.Turns.{counter_after, served_in_turn}
use dash_fabric.Weaver.Balancer.Affinity.{select_panics}

abbrev one : Replica
one = record { name = bytes "one"; active_connections = pos 5 }

abbrev two : Replica
two = record { name = bytes "two"; active_connections = pos 2 }

abbrev three : Replica
three = record { name = bytes "three"; active_connections = pos 2 }

abbrev replicas : List Replica
replicas = one ∷ two ∷ three ∷ []

served_in_turn_example :
    (x : Replica) × (k : ℕ) × (get_elem? replicas 1 ≡ some x)
    × (k < 3)
    × ((round_robin_select (counter_after k (pos 8) replicas) replicas).1 ≡ some (selected x))
served_in_turn_example = served_in_turn 8 one (two ∷ three ∷ []) 1 (omega arith) (omega arith)

first_of_two : least_connections_select replicas ≡ selected two
unfolding least_connections_select scan
first_of_two = refl

-- The 14 runes of this identifier have a hash above 2 ^ 63.
abbrev client : List ℕ
client = bytes "client-0000001"

select_panics_example :
    let s = sticky_select [] client replicas in
    (s.1 ≡ none) × ((sticky_select s.0 client replicas).1 ≡ none)
unfolding lookup hash_client
select_panics_example =
    select_panics [] client one (two ∷ three ∷ []) 4636075586905976733 refl refl (omega arith)

-- Weights 3 and 1, in four calls of which the first follows the tenth.
weighted_shares_example :
    served (λ x. x.name == bytes "one") ((bytes "one", pos 3) ∷ []) 4 (pos 10) (one ∷ two ∷ []) ≡ 3
unfolding lookup
weighted_shares_example =
    weighted_shares (λ x. x.name == bytes "one") ((bytes "one", pos 3) ∷ []) 10 one (two ∷ [])
      (omega arith) (omega arith)
