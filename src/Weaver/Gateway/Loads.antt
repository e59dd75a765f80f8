-- ===== src/Weaver/Gateway/Loads.antt =====
-- What requests do to the load of the replicas.
use dash_fabric.Base.{
  ℕ, zero, suc, ◌≡◌, refl, sym, ◌∙◌, ap, List, [], ◌∷◌, Option, none, some, Bytes, bytes_eq, set,
  get_elem?, if-elim,
}
use dash_fabric.Base.Map.{Map, insert}
use dash_fabric.Base.Int.{ℤ, pos, mul64}
use dash_fabric.Weaver.Gateway.{
  Replica, Gateway, Request, Selection, chosen, no_choice, select_failed, Routed, record_success,
  answer, attempt, route_live, route_among, route_request, get_load_distribution, distribute,
  passed, ok,
}

-- What a balancer reads: the names and the connections.
abbrev pub loads : List Replica → List (Bytes × ℤ)
loads [] = []
loads (r ∷ rs) = (r.name, r.active_connections) ∷ loads rs

loads-set :
    (rs : List Replica) (i : ℕ) (r : Replica) (latency : ℤ) (now : ℕ)
    → get_elem? rs i ≡ some r
    → loads (set rs i (record_success r latency now)) ≡ loads rs
unfolding record_success
loads-set [] i r latency now h = refl
loads-set (s ∷ rs) zero r latency now h =
    let e : s ≡ r = cc in ap (λ x. (x.name, x.active_connections) ∷ loads rs) (sym e)
loads-set (s ∷ rs) (suc i) r latency now h =
    ap (◌∷◌ (s.name, s.active_connections)) (loads-set rs i r latency now h)

module _ {L : Type 0} (E : Type 0) where
  answer-loads :
      (g : Gateway L) (o : Option Replica) (i now : ℕ)
      → get_elem? g.replicas i ≡ o
      → loads (answer {E = E} g o i now).0.replicas ≡ loads g.replicas
  answer-loads g none i now h = refl
  answer-loads g (some r) i now h =
      loads-set g.replicas i r (mul64 ok.latency_ms (pos 1000000)) now h

  attempt-loads :
      (g : Gateway L) (s : L × Selection E) (now : ℕ)
      → loads (attempt g s now).0.replicas ≡ loads g.replicas
  attempt-loads g (lb, select_failed e) now = refl
  attempt-loads g (lb, no_choice) now = refl
  attempt-loads g (lb, chosen i) now =
      answer-loads (record g { lb = lb }) (get_elem? g.replicas i) i now refl

module _ {L E : Type 0} (select : L → List Replica → L × Selection E) where
  route_live-loads :
      (g : Gateway L) (req : Request) (started now : ℕ)
      → loads (route_live select g req started now).0.replicas ≡ loads g.replicas
  route_live-loads g req started now =
      if-elim (λ (r : Gateway L × Routed E). loads r.0.replicas ≡ loads g.replicas)
        (passed started (mul64 req.timeout_ms (pos 1000000)) now) (λ _. refl)
        (λ _. attempt-loads E g (select g.lb g.replicas) now)

  among-loads :
      (g : Gateway L) (rs : List Replica) (req : Request) (started now : ℕ)
      → loads (route_among select g rs req started now).0.replicas ≡ loads g.replicas
  among-loads g [] req started now = refl
  among-loads g (r ∷ rs) req started now = route_live-loads g req started now

  pub route-loads :
      (g : Gateway L) (e : Option E) (req : Request) (started now : ℕ)
      → loads (route_request select g e req started now).0.replicas ≡ loads g.replicas
  unfolding route_request
  route-loads g (some e) req started now = refl
  route-loads g none req started now = among-loads g g.replicas req started now

-- Requests one after the other, each with its context and its readings of the clock.
module _ {L E : Type 0} where
  abbrev pub route_all :
      (L → List Replica → L × Selection E)
      → Gateway L
      → List (Option E × Request × ℕ × ℕ)
      → Gateway L
  route_all select g [] = g
  route_all select g ((e, req, started, now) ∷ l) =
      route_all select (route_request select g e req started now).0 l

abbrev put_loads : List (Bytes × ℤ) → Map Bytes ℤ → Map Bytes ℤ
put_loads [] m = m
put_loads ((name, n) ∷ ls) m = put_loads ls (insert name n m)

distribute-loads : (rs : List Replica) (m : Map Bytes ℤ) → distribute rs m ≡ put_loads (loads rs) m
distribute-loads [] m = refl
distribute-loads (r ∷ rs) m = distribute-loads rs (insert r.name r.active_connections m)

same_distribution :
    (rs rs' : List Replica) → loads rs ≡ loads rs' → distribute rs [] ≡ distribute rs' []
same_distribution rs rs' h =
    distribute-loads rs [] ∙ ap (λ ls. put_loads ls []) h ∙ sym (distribute-loads rs' [])

-- Whatever the balancer, requests leave the distribution of the load as it was: RouteRequest never
-- counts the connections of the replica that it selects.
pub routes_keep_load :
    {L E : Type 0} (select : L → List Replica → L × Selection E) (g : Gateway L)
    (l : List (Option E × Request × ℕ × ℕ))
    → get_load_distribution (route_all select g l) ≡ get_load_distribution g
unfolding get_load_distribution
routes_keep_load select g [] = refl
routes_keep_load select g ((e, req, started, now) ∷ l) =
    let g' = (route_request select g e req started now).0 in
    routes_keep_load select g' l
    ∙ same_distribution g'.replicas g.replicas (route-loads select g e req started now)
