-- ===== src/Fm/Gm/Manager/Kept.antt =====
-- What the goal state manager stores for a change, and keeps through later ones.
use dash_fabric.Base.{
  ◌≡◌, ◌≢◌, refl, Bool, true, false, List, [], ◌∷◌, Option, none, some, arith, Bytes, bytes_eq,
  ◌==◌, bytes_beq_iff, inl, inr, Bool-cases, Option-cases, contains, map,
}
use dash_fabric.Base.Map.{Map, lookup, lookup-insert, lookup-insert_self}
use dash_fabric.Fm.Gm.Types.{ConstructState, PerEniGoalState}
use dash_fabric.Fm.Gm.Generate.{JsonValue, aggregate, generate, fingerprint_of, goal_state, of_vnet}
use dash_fabric.Fm.Gm.Cache.{GoalStateCache, set}
use dash_fabric.Fm.Gm.Manager.{
  GoalStateManager, ManagerError, Select, proceed, caller_done, manager_done,
  handle_construct_change, set_all, search,
}

-- One change, with the constructs that are stored then and what the aggregator and the generator
-- find of the context.
pub record Change : Type 0 where
  pub constructs : Map Bytes ConstructState
  pub found : Select
  pub aggregating_cancelled : Bool
  pub generating_cancelled : Bool
  pub construct : Option ConstructState

abbrev pub change : Map Bytes ConstructState → Select → Bool → Bool → Option ConstructState → Change
change cs f x y o = record {
  constructs = cs;
  found = f;
  aggregating_cancelled = x;
  generating_cancelled = y;
  construct = o;
}

module _ (marshal : Map Bytes JsonValue → Bytes) (sha256_hex : Bytes → Bytes) where
  -- A change, handled with the aggregator and the generator of the package.
  abbrev pub handle : GoalStateManager → Change → GoalStateManager × Option ManagerError
  handle m h =
      handle_construct_change (aggregate h.constructs h.aggregating_cancelled)
        (generate marshal sha256_hex h.generating_cancelled) m h.found h.construct

  abbrev pub handle_all : GoalStateManager → List Change → GoalStateManager
  handle_all m [] = m
  handle_all m (h ∷ hs) = handle_all (handle m h).0 hs

-- A goal state of an ENI, in a version.
abbrev pub Describes : ConstructState → PerEniGoalState → Type 0
Describes d g = (g.eni_id ≡ d.id) × (g.version ≡ d.config_version)

-- A search that meets the key of a goal state of an ENI finds one of that ENI.
pub search_finds :
    (c : GoalStateCache) (eni_id k : Bytes) (g : PerEniGoalState) (order : List Bytes)
    → lookup k c.cache ≡ some g
    → g.eni_id ≡ eni_id
    → contains k order ≡ true
    → (g' : PerEniGoalState) × (search c eni_id order ≡ some g') × (g'.eni_id ≡ eni_id)
unfolding search
search_finds c eni_id k g [] l e h = cc
search_finds c eni_id k g (j ∷ order) l e h = elim (Bool-cases (j == k)) [
  | inl s ↦ (g, ground (arith, bytes_beq_iff j k, bytes_beq_iff g.eni_id eni_id), e)
  | inr s ↦
      let rest = search_finds c eni_id k g order l e (ground arith) in
      elim (Option-cases (lookup j c.cache)) [
        | inl n ↦ rw (n, search) rest
        | inr (g', n) ↦ elim (Bool-cases (g'.eni_id == eni_id)) [
          | inl b ↦ rw (n, search) (rw b (g', refl, (bytes_beq_iff g'.eni_id eni_id).0 b))
          | inr b ↦ rw (n, search) (rw b rest)
        ]
      ]
]

module _ (marshal : Map Bytes JsonValue → Bytes) (sha256_hex : Bytes → Bytes) where
  abbrev pub fp : ConstructState → Bytes
  fp = fingerprint_of marshal sha256_hex

  abbrev pub states : List ConstructState → List (Option PerEniGoalState)
  states cs = map (λ c. some (goal_state marshal sha256_hex c)) cs

  -- `e` has not the fingerprint of `d`, unless it has its identifier and version.
  abbrev pub ApartFrom : ConstructState → ConstructState → Type 0
  ApartFrom d e = fp e ≡ fp d → (e.id ≡ d.id) × (e.config_version ≡ d.config_version)

  abbrev AllApart : ConstructState → List ConstructState → Type 0
  AllApart d [] = Unit
  AllApart d (e ∷ cs) = ApartFrom d e × AllApart d cs

  -- So for the constructs that are stored, and in every one of several changes.
  abbrev pub Apart : ConstructState → Map Bytes ConstructState → Type 0
  Apart d [] = Unit
  Apart d ((k, e) ∷ cs) = ApartFrom d e × Apart d cs

  abbrev pub ApartLater : ConstructState → List Change → Type 0
  ApartLater d [] = Unit
  ApartLater d (h ∷ hs) = Apart d h.constructs × ApartLater d hs

  of_vnet-Apart :
      (d : ConstructState) (vnet : Bytes) (cs : Map Bytes ConstructState)
      → Apart d cs
      → AllApart d (of_vnet vnet cs)
  unfolding of_vnet
  of_vnet-Apart d vnet [] a = tt
  of_vnet-Apart d vnet ((k, e) ∷ cs) (a, rest) = elim (Bool-cases (e.vnet_id == vnet)) [
    | inl b ↦ rw b (a, of_vnet-Apart d vnet cs rest)
    | inr b ↦ rw b (of_vnet-Apart d vnet cs rest)
  ]

  -- The cache has a goal state of a construct under its fingerprint.
  abbrev pub Holds : ConstructState → GoalStateCache → Type 0
  Holds d c = (g : PerEniGoalState) × (lookup (fp d) c.cache ≡ some g) × Describes d g

  set_own :
      (d : ConstructState) (c : GoalStateCache)
      → Holds d (set c (fp d) (goal_state marshal sha256_hex d))
  unfolding set goal_state
  set_own d c = (
    goal_state marshal sha256_hex d,
    lookup-insert_self (fp d) (goal_state marshal sha256_hex d) c.cache,
    (refl, refl),
  )

  set_other :
      (d e : ConstructState) (c : GoalStateCache)
      → ApartFrom d e
      → Holds d c
      → Holds d (set c (fp e) (goal_state marshal sha256_hex e))
  unfolding set goal_state
  set_other d e c apart (g, l, h) = elim (Bool-cases (fp e == fp d)) [
    | inl b ↦
        let s = apart ((bytes_beq_iff (fp e) (fp d)).0 b) in
        (
          goal_state marshal sha256_hex e,
          rw (lookup-insert (fp e) (fp d) (goal_state marshal sha256_hex e) c.cache, b) refl,
          s,
        )
    | inr b ↦
        (g, rw (lookup-insert (fp e) (fp d) (goal_state marshal sha256_hex e) c.cache, b) l, h)
  ]

  set_all-keeps :
      (d : ConstructState) (c : GoalStateCache) (cs : List ConstructState)
      → AllApart d cs
      → Holds d c
      → Holds d (set_all c (states cs))
  unfolding set_all goal_state
  set_all-keeps d c [] apart h = h
  set_all-keeps d c (e ∷ cs) (apart, rest) h =
      set_all-keeps d (set c (fp e) (goal_state marshal sha256_hex e)) cs rest
        (set_other d e c apart h)

  -- The goal states of a VNET are all stored.
  pub set_all-stores :
      (d : ConstructState) (key vnet : Bytes) (cs : Map Bytes ConstructState) (c : GoalStateCache)
      → lookup key cs ≡ some d
      → d.vnet_id ≡ vnet
      → Apart d cs
      → Holds d (set_all c (states (of_vnet vnet cs)))
  unfolding lookup of_vnet set_all goal_state
  set_all-stores d key vnet [] c l v apart = cc
  set_all-stores d key vnet ((j, e) ∷ cs) c l v (apart, rest) = elim (Bool-cases (j == key)) [
    | inl b ↦
        let same : e ≡ d = ground (arith, l, b) in
        let own : (e.vnet_id == vnet) ≡ true = rw (same, v) ((bytes_beq_iff vnet vnet).1 refl) in
        rw (own) (
          rw same (
            set_all-keeps d (set c (fp d) (goal_state marshal sha256_hex d)) (of_vnet vnet cs)
              (of_vnet-Apart d vnet cs rest) (set_own d c)))
    | inr b ↦
        let l' : lookup key cs ≡ some d = ground (arith, l, b) in
        elim (Bool-cases (e.vnet_id == vnet)) [
          | inl w ↦ rw w (
              set_all-stores d key vnet cs (set c (fp e) (goal_state marshal sha256_hex e)) l' v
                rest)
          | inr w ↦ rw w (set_all-stores d key vnet cs c l' v rest)
        ]
  ]

  running-keeps :
      (d : ConstructState) (m : GoalStateManager) (cs : Map Bytes ConstructState) (f : Select)
      (x y : Bool) (o : Option ConstructState)
      → m.running ≡ true
      → Apart d cs
      → Holds d m.cache
      → Holds d (handle marshal sha256_hex m (change cs f x y o)).0.cache
  unfolding handle_construct_change aggregate generate
  running-keeps d m cs caller_done x y o r apart k = rw r k
  running-keeps d m cs manager_done x y o r apart k = rw r k
  running-keeps d m cs proceed x y none r apart k = rw r k
  running-keeps d m cs proceed true y (some c) r apart k = rw r k
  running-keeps d m cs proceed false true (some c) r apart k = elim (Bool-cases (c.vnet_id == [])) [
    | inl b ↦ rw r (rw b k)
    | inr b ↦ rw r (rw b k)
  ]
  running-keeps d m cs proceed false false (some c) r apart k =
      elim (Bool-cases (c.vnet_id == [])) [
        | inl b ↦ rw r (rw b k)
        | inr b ↦ rw r (
            rw b (
              set_all-keeps d m.cache (of_vnet c.vnet_id cs) (of_vnet-Apart d c.vnet_id cs apart)
                k))
      ]

  handle-keeps :
      (d : ConstructState) (m : GoalStateManager) (h : Change)
      → Apart d h.constructs
      → Holds d m.cache
      → Holds d (handle marshal sha256_hex m h).0.cache
  unfolding handle_construct_change
  handle-keeps d m h apart k = elim (Bool-cases m.running) [
    | inr r ↦ rw r k
    | inl r ↦
        running-keeps d m h.constructs h.found h.aggregating_cancelled h.generating_cancelled
          h.construct r apart k
  ]

  pub handle_all-keeps :
      (d : ConstructState) (m : GoalStateManager) (hs : List Change)
      → ApartLater d hs
      → Holds d m.cache
      → Holds d (handle_all marshal sha256_hex m hs).cache
  handle_all-keeps d m [] apart k = k
  handle_all-keeps d m (h ∷ hs) (apart, rest) k =
      handle_all-keeps d (handle marshal sha256_hex m h).0 hs rest (handle-keeps d m h apart k)

  -- A change that is handled stores a goal state for every construct of its VNET.
  pub handled :
      (m : GoalStateManager) (cs : Map Bytes ConstructState) (c : ConstructState)
      → m.running ≡ true
      → c.vnet_id ≢ []
      → let r = handle marshal sha256_hex m (change cs proceed false false (some c)) in
        (r.1 ≡ none) × (r.0.cache ≡ set_all m.cache (states (of_vnet c.vnet_id cs)))
  unfolding handle_construct_change aggregate generate
  handled m cs c r n =
      let nonempty : (c.vnet_id == []) ≡ false = ground (arith, n, bytes_beq_iff c.vnet_id []) in
      rw r (rw nonempty (refl, refl))
