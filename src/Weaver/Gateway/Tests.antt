-- ===== src/Weaver/Gateway/Tests.antt =====
-- Two requests to a gateway of two replicas, with a balancer by least connections.
use dash_fabric.Base.{
  ℕ, suc, ◌≡◌, ◌≢◌, ap, refl, true, List, [], ◌∷◌, Option, none, Bytes, bytes, bytes_eq, get_elem?,
  if◌then◌else◌,
}
use dash_fabric.Base.Int.{ℤ, pos, ltb_ℤ}
use dash_fabric.Weaver.Gateway.{
  Replica, Gateway, ReplicaInfo, new_replica, ready, Request, Selection, chosen, no_choice,
  route_request, record_success,
}
use dash_fabric.Weaver.Gateway.Loads.{loads, route_all}
use dash_fabric.Weaver.Gateway.Load.{stateless, HasCount, count_all, one_replica_serves}

abbrev info : Bytes → ReplicaInfo
info name = record { name = name; address = bytes "10.0.0.1:80"; healthy = true }

abbrev gateway : Gateway (Unit {0})
gateway = record {
  replicas = new_replica (info (bytes "a")) ∷ new_replica (info (bytes "b")) ∷ [];
  lb = tt;
  state = ready;
}

abbrev least : ℕ → ℕ → ℤ → List (Bytes × ℤ) → ℕ
least i best min [] = best
least i best min ((_, n) ∷ ls) =
    if ltb_ℤ n min then least (suc i) i n ls else least (suc i) best min ls

abbrev place : List (Bytes × ℤ) → Selection Bytes
place [] = no_choice
place ((_, n) ∷ ls) = chosen (least 1 0 n ls)

abbrev pick : List Replica → Selection Bytes
pick rs = place (loads rs)

abbrev request : Request
request = record {
  method = bytes "GET";
  payload = [];
  headers = [];
  timeout_ms = pos 100;
  request_id = bytes "1";
  client_ip = bytes "10.0.0.9";
}

abbrev no_error : Option Bytes
no_error = none

abbrev requests : List (Option Bytes × Request × ℕ × ℕ)
requests = (no_error, request, 5, 6) ∷ (no_error, request, 8, 9) ∷ []

differ : ◌≢◌ {A = ℕ} 0 1
differ h = cc

one_replica_serves_example :
    HasCount
      (route_all (stateless pick) gateway requests).replicas
      0
      (count_all (stateless pick) gateway requests (pos 0))
    × (get_elem? (route_all (stateless pick) gateway requests).replicas 1
        ≡ get_elem? gateway.replicas 1)
one_replica_serves_example =
    one_replica_serves pick (λ rs rs' h. ap place h) gateway requests 0 1 (pos 0) refl differ
      (new_replica (info (bytes "a")), refl, refl)

-- Both requests are answered.
both_counted : count_all (stateless pick) gateway requests (pos 0) ≡ pos 2
unfolding route_request record_success
both_counted = refl
