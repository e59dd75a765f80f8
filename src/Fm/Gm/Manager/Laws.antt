-- ===== src/Fm/Gm/Manager/Laws.antt =====
-- The goal state manager over the aggregator and the generator of the package.
use dash_fabric.Base.{
  ◌≡◌, ◌≢◌, refl, true, false, List, [], ◌∷◌, none, some, arith, Bytes, bytes_eq, ◌==◌,
  bytes_beq_iff, contains, is_some,
}
use dash_fabric.Base.Map.{Map, lookup}
use dash_fabric.Fm.Gm.Types.{ConstructState, PerEniGoalState}
use dash_fabric.Fm.Gm.Generate.{JsonValue}
use dash_fabric.Fm.Gm.Cache.{GoalStateCache}
use dash_fabric.Fm.Gm.Manager.{GoalStateManager, proceed, search, get_goal_state}
use dash_fabric.Fm.Gm.Manager.Kept.{
  Change, change, handle, handle_all, Describes, search_finds, fp, Holds, set_all-stores,
  handle_all-keeps, handled, Apart, ApartLater,
}

-- The keys of the cache in some order of iteration.
abbrev pub IsOrder : List Bytes → GoalStateCache → Type 0
IsOrder order c = (k : Bytes) → contains k order ≡ is_some (lookup k c.cache)

abbrev pub keys : Map Bytes PerEniGoalState → List Bytes
keys [] = []
keys ((k, g) ∷ rest) = k ∷ keys rest

pub contains-keys :
    (k : Bytes) (m : Map Bytes PerEniGoalState) → contains k (keys m) ≡ is_some (lookup k m)
unfolding lookup
contains-keys k [] = refl
contains-keys k ((j, g) ∷ m) = ground (arith, contains-keys k m)

module _ (marshal : Map Bytes JsonValue → Bytes) (sha256_hex : Bytes → Bytes) where
  -- Once the running manager has handled a change of a construct, whose VNET is named, with no
  -- context done, and later changes of any kind, it finds a goal state for each construct `d` that
  -- was stored with that VNET at the time and has an identifier, in whatever order it ranges over the
  -- cache, and the state is one of the ENI that was asked for; provided that of the constructs that
  -- were stored at one of these changes, only those with the identifier and the version of `d` have
  -- its fingerprint.
  pub change_found :
      (m : GoalStateManager) (cs : Map Bytes ConstructState) (c d : ConstructState) (key : Bytes)
      (later : List Change) (order : List Bytes)
      → m.running ≡ true
      → c.vnet_id ≢ []
      → lookup key cs ≡ some d
      → d.vnet_id ≡ c.vnet_id
      → d.id ≢ []
      → Apart marshal sha256_hex d cs
      → ApartLater marshal sha256_hex d later
      → let r = handle marshal sha256_hex m (change cs proceed false false (some c)) in
        let m' = handle_all marshal sha256_hex r.0 later in
        IsOrder order m'.cache
        → (r.1 ≡ none)
          × (g : PerEniGoalState) × ((get_goal_state m' d.id order).1 ≡ some g)
          × (g.eni_id ≡ d.id)
  unfolding get_goal_state
  change_found m cs c d key later order r n l v i apart apart_later o =
      let first = handled marshal sha256_hex m cs c r n in
      let m₁ = (handle marshal sha256_hex m (change cs proceed false false (some c))).0 in
      let stored : Holds marshal sha256_hex d m₁.cache =
        rw (first.1) (set_all-stores marshal sha256_hex d key c.vnet_id cs m.cache l v apart) in
      let (g, at, e) = handle_all-keeps marshal sha256_hex d m₁ later apart_later stored in
      let (g', s, e') =
        search_finds (handle_all marshal sha256_hex m₁ later).cache d.id (fp marshal sha256_hex d) g
          order at e.0 (rw (o (fp marshal sha256_hex d), at) refl) in
      let named : (d.id == []) ≡ false = ground (arith, i, bytes_beq_iff d.id []) in
      (first.0, g', rw named (rw s refl), e')

  -- Once the running manager has handled a change of a construct, whose VNET is named, with no
  -- context done, and whatever changes come later, there is an order of the cache in which the
  -- manager returns the goal state of a construct `d`, which was stored with that VNET at the time
  -- and has an identifier, in the version of that time; provided that of the constructs that were
  -- stored at one of these changes, only those with the identifier and the version of `d` have its
  -- fingerprint.
  pub old_version_served :
      (m : GoalStateManager) (cs : Map Bytes ConstructState) (c d : ConstructState) (key : Bytes)
      (later : List Change)
      → m.running ≡ true
      → c.vnet_id ≢ []
      → lookup key cs ≡ some d
      → d.vnet_id ≡ c.vnet_id
      → d.id ≢ []
      → Apart marshal sha256_hex d cs
      → ApartLater marshal sha256_hex d later
      → let m' =
          handle_all marshal sha256_hex
            (handle marshal sha256_hex m (change cs proceed false false (some c))).0
            later in
        (order : List Bytes) × IsOrder order m'.cache
        × (g : PerEniGoalState) × ((get_goal_state m' d.id order).1 ≡ some g)
        × Describes d g
  unfolding get_goal_state search
  old_version_served m cs c d key later r n l v i apart apart_later =
      let first = handled marshal sha256_hex m cs c r n in
      let m₁ = (handle marshal sha256_hex m (change cs proceed false false (some c))).0 in
      let m' = handle_all marshal sha256_hex m₁ later in
      let stored : Holds marshal sha256_hex d m₁.cache =
        rw (first.1) (set_all-stores marshal sha256_hex d key c.vnet_id cs m.cache l v apart) in
      let (g, at, h) = handle_all-keeps marshal sha256_hex d m₁ later apart_later stored in
      let named : (d.id == []) ≡ false = ground (arith, i, bytes_beq_iff d.id []) in
      let own : (g.eni_id == d.id) ≡ true = (bytes_beq_iff g.eni_id d.id).1 h.0 in
      (
        fp marshal sha256_hex d ∷ keys m'.cache.cache,
        λ k.
            ground (
              arith,
              contains-keys k m'.cache.cache,
              bytes_beq_iff (fp marshal sha256_hex d) k,
              at,
            ),
        g,
        rw named (rw at (rw own refl)),
        h,
      )
