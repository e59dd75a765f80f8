-- ===== src/Weaver/Health/Panic.antt =====
-- The panic mode, and the monitor as its checks are now.
use dash_fabric.Base.{
  ℕ, ◌≡◌, refl, sym, ◌∙◌, ap, Bool, true, false, not, ◌&&◌, ◌||◌, bytes_beq, List, [], ◌∷◌, Option,
  none, some, arith, Bytes, bytes_eq, bytes_beq_iff, nat_beq, ltb, length, inl, inr, Option-cases,
  is_some, All,
}
use dash_fabric.Base.Map.{Map, lookup, insert, lookup-insert_cases, lookup-insert}
use dash_fabric.Weaver.Health.{
  healthy, HealthConfig, ReplicaState, HealthCheckResult, Monitor, beq_state, count_healthy,
  update_state, update_panic_mode, processed, process_check_result, perform_check, get_state,
  new_monitor, new_states, new_state,
}

-- Some replica of the map is healthy.
abbrev pub any_healthy : Map Bytes ReplicaState → Bool
any_healthy [] = false
any_healthy ((name, s) ∷ m) = beq_state s.state healthy || any_healthy m

count-any : (m : Map Bytes ReplicaState) → nat_beq (count_healthy m) 0 ≡ not (any_healthy m)
count-any [] = refl
count-any ((name, s) ∷ m) = ground (arith, count-any m)

insert_nonempty :
    (name : Bytes) (s : ReplicaState) (m : Map Bytes ReplicaState)
    → ltb 0 (length (insert name s m)) ≡ true
unfolding insert
insert_nonempty name s [] = refl
insert_nonempty name s ((j, x) ∷ m) = ground arith

panic_lem :
    (m : Map Bytes ReplicaState)
    → ltb 0 (length m) ≡ true
    → (nat_beq (count_healthy m) 0 && ltb 0 (length m)) ≡ not (any_healthy m)
panic_lem m h = grind (arith, h, count-any m)

All-map :
    (m m' : Map Bytes ReplicaState)
    → ((other : Bytes) → is_some (lookup other m) ≡ true → is_some (lookup other m') ≡ true)
    → (l : List (Bytes × ℕ)) → All (λ c. is_some (lookup c.0 m) ≡ true) l
    → All (λ c. is_some (lookup c.0 m') ≡ true) l
All-map m m' f [] k = tt
All-map m m' f ((name, now) ∷ l) (k, ks) = (f name k, All-map m m' f l ks)

get_state_at :
    (m : Monitor) (name : Bytes) {s : ReplicaState}
    → lookup name m.states ≡ some s
    → get_state m name ≡ s.state
unfolding get_state
get_state_at m name h = rw (h, get_state)

get_state_same :
    (m m' : Monitor) (name : Bytes)
    → lookup name m.states ≡ lookup name m'.states
    → get_state m name ≡ get_state m' name
unfolding get_state
get_state_same m m' name h = rw (h, get_state)

-- What a processed check does to a monitor that knows the replica: the replica's state is the
-- updated one and its flag Healthy says whether that is healthy, other replicas are as they were,
-- and the panic mode is on exactly when no replica is healthy.
process_known :
    (m : Monitor) (name : Bytes) (result : HealthCheckResult) (now : ℕ) (s : ReplicaState)
    → lookup name m.states ≡ some s
    → (m' : Monitor) × (process_check_result m name result now ≡ some m')
      × (get_state m' name ≡ (update_state m.config s result now).state)
      × (lookup name m'.flags ≡ some (beq_state (get_state m' name) healthy))
      × ((other : Bytes) → bytes_beq name other ≡ false → get_state m' other ≡ get_state m other)
      × (m'.global_panic_mode ≡ not (any_healthy m'.states))
unfolding process_check_result update_panic_mode get_state
process_known m name result now s h =
    let s' = update_state m.config s result now in
    let m' = update_panic_mode (processed m name s s' now) now in
    let flag = beq_state s'.state healthy in
    let here : lookup name (insert name s' m.states) ≡ some s' =
      grind (arith, lookup-insert name name s' m.states, bytes_beq_iff name name) in
    let flagged : lookup name (insert name flag m.flags) ≡ some flag =
      grind (arith, lookup-insert name name flag m.flags, bytes_beq_iff name name) in
    (
      m',
      rw (h, process_check_result),
      get_state_at m' name here,
      flagged ∙ ap (λ x. some (beq_state x healthy)) (sym (get_state_at m' name here)),
      λ other d. get_state_same m' m other (grind (arith, d, lookup-insert name other s' m.states)),
      panic_lem (insert name s' m.states) (insert_nonempty name s' m.states),
    )

-- Every replica that the monitor knows is healthy.
abbrev pub AllHealthy : Monitor → Type 0
AllHealthy m = (name : Bytes) (s : ReplicaState) → lookup name m.states ≡ some s → s.state ≡ healthy

update_state-healthy :
    (config : HealthConfig) (s : ReplicaState) (name : Bytes) (now : ℕ)
    → s.state ≡ healthy
    → (update_state config s (perform_check name now) now).state ≡ healthy
unfolding update_state perform_check
update_state-healthy config s name now h = ground arith

process-AllHealthy :
    (m : Monitor) (name : Bytes) (now : ℕ) (s : ReplicaState)
    → lookup name m.states ≡ some s
    → AllHealthy m
    → (m' : Monitor) × (process_check_result m name (perform_check name now) now ≡ some m')
      × AllHealthy m'
      × ((other : Bytes)
          → is_some (lookup other m.states) ≡ true
          → is_some (lookup other m'.states) ≡ true)
unfolding process_check_result update_panic_mode
process-AllHealthy m name now s h a =
    let s' = update_state m.config s (perform_check name now) now in
    (
      update_panic_mode (processed m name s s' now) now,
      rw (h, process_check_result),
      λ other x e. elim (lookup-insert_cases name other s' m.states e) [
        | inl (p, q) ↦
            ap ReplicaState.state (sym q) ∙ update_state-healthy m.config s name now (a name s h)
        | inr (p, q) ↦ a other x q
      ],
      λ other k. grind (arith, k, lookup-insert name other s' m.states),
    )

new_states-healthy :
    (rs : Map Bytes Bool) (states : Map Bytes ReplicaState)
    → ((name : Bytes) (s : ReplicaState) → lookup name states ≡ some s → s.state ≡ healthy)
    → (name : Bytes) (s : ReplicaState) → lookup name (new_states rs states) ≡ some s
    → s.state ≡ healthy
new_states-healthy [] states a = a
new_states-healthy ((n, f) ∷ rs) states a =
    new_states-healthy rs (insert n new_state states) λ name s e.
      elim (lookup-insert_cases n name new_state states e) [
        | inl (p, q) ↦ ap ReplicaState.state (sym q)
        | inr (p, q) ↦ a name s q
      ]

start_healthy :
    (replicas : Map Bytes Bool) (config : HealthConfig) → AllHealthy (new_monitor replicas config)
unfolding new_monitor lookup
start_healthy replicas config = new_states-healthy replicas [] (λ name s e. cc)

-- The checks of a history, each of a replica at a time.
unfoldable pub monitor_run : Monitor → List (Bytes × ℕ) → Option Monitor
monitor_run m [] = some m
monitor_run m ((name, now) ∷ l) = elim (process_check_result m name (perform_check name now) now) [
  | none ↦ none
  | some m' ↦ monitor_run m' l
]

run-AllHealthy :
    (m : Monitor) (l : List (Bytes × ℕ))
    → All (λ c. is_some (lookup c.0 m.states) ≡ true) l
    → AllHealthy m
    → (m' : Monitor) × (monitor_run m l ≡ some m') × AllHealthy m'
unfolding monitor_run
run-AllHealthy m [] k a = (m, refl, a)
run-AllHealthy m ((name, now) ∷ l) (k, ks) a = elim (Option-cases (lookup name m.states)) [
  | inl e ↦ absurd (grind (arith, k, e))
  | inr (s, e) ↦
      let (m1, p, a1, keeps) = process-AllHealthy m name now s e a in
      let (m', q, a') = run-AllHealthy m1 l (All-map m.states m1.states keeps l ks) a1 in
      (m', rw (p, monitor_run) q, a')
]

-- Whatever replicas a new monitor is given and however often each is checked, every check is
-- processed, and every replica is reported as healthy: performCheck asks no replica.
pub always_healthy :
    (replicas : Map Bytes Bool) (config : HealthConfig) (l : List (Bytes × ℕ))
    → All (λ c. is_some (lookup c.0 (new_monitor replicas config).states) ≡ true) l
    → (m' : Monitor) × (monitor_run (new_monitor replicas config) l ≡ some m')
      × ((name : Bytes) → get_state m' name ≡ healthy)
unfolding get_state
always_healthy replicas config l k =
    let (m', e, a) =
      run-AllHealthy (new_monitor replicas config) l k (start_healthy replicas config) in
    (
      m',
      e,
      λ name. elim (Option-cases (lookup name m'.states)) [
        | inl q ↦ rw (q, get_state)
        | inr (s, q) ↦ rw (q, get_state) (a name s q)
      ],
    )
