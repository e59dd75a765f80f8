-- ===== src/Weaver/Gateway/Load.antt =====
-- Who serves the requests.
use dash_fabric.Base.{
  ℕ, zero, suc, ◌≡◌, ◌≢◌, refl, sym, ◌∙◌, ap, List, [], ◌∷◌, Option, none, some, bytes_eq, set,
  get_elem?, if-elim,
}
use dash_fabric.Base.Int.{ℤ, pos, inc64, mul64}
use dash_fabric.Weaver.Gateway.{
  Replica, Gateway, Request, Selection, chosen, Routed, responded, not_routed, record_success,
  answer, route_live, route_among, route_request, passed, ok,
}
use dash_fabric.Weaver.Gateway.Loads.{loads, route-loads, route_all}

get_elem?-set_other :
    (rs : List Replica) (i j : ℕ) (r : Replica) → i ≢ j → get_elem? (set rs i r) j ≡ get_elem? rs j
get_elem?-set_other [] i j r h = refl
get_elem?-set_other (s ∷ rs) zero zero r h = absurd (h refl)
get_elem?-set_other (s ∷ rs) zero (suc j) r h = refl
get_elem?-set_other (s ∷ rs) (suc i) zero r h = refl
get_elem?-set_other (s ∷ rs) (suc i) (suc j) r h = get_elem?-set_other rs i j r (λ e. h (ap suc e))

get_elem?-set_own :
    (rs : List Replica) (i : ℕ) {r v : Replica}
    → get_elem? rs i ≡ some r
    → get_elem? (set rs i v) i ≡ some v
get_elem?-set_own [] i h = cc
get_elem?-set_own (s ∷ rs) zero h = refl
get_elem?-set_own (s ∷ rs) (suc i) {r = r} h = get_elem?-set_own rs i {r = r} h

-- A balancer without a state of its own.
abbrev pub stateless :
    {E : Type 0} → (List Replica → Selection E) → Unit {0} → List Replica → Unit {0} × Selection E
stateless pick u rs = (tt, pick rs)

module _ {E : Type 0} (pick : List Replica → Selection E) where
  answer-other :
      (g : Gateway (Unit {0})) (o : Option Replica) (i j now : ℕ)
      → i ≢ j
      → get_elem? (answer {E = E} g o i now).0.replicas j ≡ get_elem? g.replicas j
  answer-other g none i j now h = refl
  answer-other g (some r) i j now h =
      get_elem?-set_other g.replicas i j (record_success r (mul64 ok.latency_ms (pos 1000000)) now)
        h

  live-other :
      (g : Gateway (Unit {0})) (req : Request) (started now i j : ℕ)
      → pick g.replicas ≡ chosen i
      → i ≢ j
      → get_elem? (route_live (stateless pick) g req started now).0.replicas j
        ≡ get_elem? g.replicas j
  live-other g req started now i j p h =
      if-elim
        (λ (r : Gateway (Unit {0}) × Routed E). get_elem? r.0.replicas j ≡ get_elem? g.replicas j)
        (passed started (mul64 req.timeout_ms (pos 1000000)) now) (λ _. refl)
        (λ _. rw p (answer-other (record g { lb = tt }) (get_elem? g.replicas i) i j now h))

  among-other :
      (g : Gateway (Unit {0})) (rs : List Replica) (req : Request) (started now i j : ℕ)
      → pick g.replicas ≡ chosen i
      → i ≢ j
      → get_elem? (route_among (stateless pick) g rs req started now).0.replicas j
        ≡ get_elem? g.replicas j
  among-other g [] req started now i j p h = refl
  among-other g (r ∷ rs) req started now i j p h = live-other g req started now i j p h

  route-other :
      (g : Gateway (Unit {0})) (e : Option E) (req : Request) (started now i j : ℕ)
      → pick g.replicas ≡ chosen i
      → i ≢ j
      → get_elem? (route_request (stateless pick) g e req started now).0.replicas j
        ≡ get_elem? g.replicas j
  unfolding route_request
  route-other g (some e) req started now i j p h = refl
  route-other g none req started now i j p h = among-other g g.replicas req started now i j p h

-- A count of requests, after one with this answer.
abbrev pub counted : {E : Type 0} → Routed E → ℤ → ℤ
counted (responded r) n = inc64 n
counted (not_routed e) n = n

-- And after several, one more for each that was answered with a response.
abbrev pub count_all :
    {L E : Type 0}
    → (L → List Replica → L × Selection E)
    → Gateway L
    → List (Option E × Request × ℕ × ℕ)
    → ℤ
    → ℤ
count_all select g [] n = n
count_all select g ((e, req, started, now) ∷ l) n =
    let (g', reply) = route_request select g e req started now in
    count_all select g' l (counted reply n)

-- The replica at a place, with this count of requests.
abbrev pub HasCount : List Replica → ℕ → ℤ → Type 0
HasCount rs i n = (r : Replica) × (get_elem? rs i ≡ some r) × (r.metrics.request_count ≡ n)

module _ {E : Type 0} (pick : List Replica → Selection E) where
  -- What an answer leaves at the place `i`.
  abbrev CountedAt : ℕ → ℤ → Gateway (Unit {0}) × Routed E → Type 0
  CountedAt i n (g, reply) = HasCount g.replicas i (counted reply n)

  answer-CountedAt :
      (g : Gateway (Unit {0})) (i now : ℕ) (n : ℤ) (o : Option Replica)
      → get_elem? g.replicas i ≡ o
      → HasCount g.replicas i n
      → CountedAt i n (answer g o i now)
  unfolding record_success
  answer-CountedAt g i now n none h c = c
  answer-CountedAt g i now n (some r) h (s, at, count) =
      let same : s ≡ r = cc in
      (
        record_success r (mul64 ok.latency_ms (pos 1000000)) now,
        get_elem?-set_own g.replicas i {r = r} h,
        ap (λ (x : Replica). inc64 x.metrics.request_count) (sym same) ∙ ap inc64 count,
      )

  live-CountedAt :
      (g : Gateway (Unit {0})) (req : Request) (started now i : ℕ) (n : ℤ)
      → pick g.replicas ≡ chosen i
      → HasCount g.replicas i n
      → CountedAt i n (route_live (stateless pick) g req started now)
  live-CountedAt g req started now i n p c =
      if-elim (CountedAt i n) (passed started (mul64 req.timeout_ms (pos 1000000)) now) (λ _. c)
        (λ _.
          rw p (answer-CountedAt (record g { lb = tt }) i now n (get_elem? g.replicas i) refl c))

  among-CountedAt :
      (g : Gateway (Unit {0})) (rs : List Replica) (req : Request) (started now i : ℕ) (n : ℤ)
      → pick g.replicas ≡ chosen i
      → HasCount g.replicas i n
      → CountedAt i n (route_among (stateless pick) g rs req started now)
  among-CountedAt g [] req started now i n p c = c
  among-CountedAt g (r ∷ rs) req started now i n p c = live-CountedAt g req started now i n p c

  route-CountedAt :
      (g : Gateway (Unit {0})) (e : Option E) (req : Request) (started now i : ℕ) (n : ℤ)
      → pick g.replicas ≡ chosen i
      → HasCount g.replicas i n
      → CountedAt i n (route_request (stateless pick) g e req started now)
  unfolding route_request
  route-CountedAt g (some e) req started now i n p c = c
  route-CountedAt g none req started now i n p c =
      among-CountedAt g g.replicas req started now i n p c

-- A balancer that has no state and goes by the names and the connections of the replicas alone sends
-- all requests to the replica that it selects first: after any requests its count of requests has
-- grown by one for each of them that was answered with a response, and every other replica is as it
-- was, with its counters.
pub one_replica_serves :
    {E : Type 0} (pick : List Replica → Selection E)
    (by_loads : (rs rs' : List Replica) → loads rs ≡ loads rs' → pick rs ≡ pick rs')
    (g : Gateway (Unit {0})) (l : List (Option E × Request × ℕ × ℕ)) (i j : ℕ) (n : ℤ)
    → pick g.replicas ≡ chosen i
    → i ≢ j
    → HasCount g.replicas i n
    → HasCount (route_all (stateless pick) g l).replicas i (count_all (stateless pick) g l n)
      × (get_elem? (route_all (stateless pick) g l).replicas j ≡ get_elem? g.replicas j)
one_replica_serves pick by_loads g [] i j n p h c = (c, refl)
one_replica_serves pick by_loads g ((e, req, started, now) ∷ l) i j n p h c =
    let (g', reply) = route_request (stateless pick) g e req started now in
    let p' =
      by_loads g'.replicas g.replicas (route-loads (stateless pick) g e req started now) ∙ p in
    let c' = route-CountedAt pick g e req started now i n p c in
    let (count, rest) = one_replica_serves pick by_loads g' l i j (counted reply n) p' h c' in
    (count, rest ∙ route-other pick g e req started now i j p h)
