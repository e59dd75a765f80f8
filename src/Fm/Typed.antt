-- ===== src/Fm/Typed.antt =====
-- What the six typed registries under src/FM/pkg/registry share. Each wraps the shared registry,
-- with pointers as values, and adds a validation, a normal form and a copy. Values are immutable
-- here, so a copy is the value itself.
pub mod Laws
use dash_fabric.Base.{
  ℕ, Bool, true, false, not, List, [], ◌∷◌, Option, none, some, Bytes, bytes_eq, if◌then◌else◌,
}
use dash_fabric.Base.Map.{Map}
use dash_fabric.Fm.Registry
use dash_fabric.Fm.Registry.{Registry, UnderflowError}

-- What is particular to one registry: the key of a state, `validate` on a pointer, and the form in
-- which a state is stored.
pub record Kind (S E : Type 0) : Type 0 where
  pub id_of : S → Bytes
  pub validate : Option S → Option E
  pub normalise : S → S

-- A registry of pointers to states.
abbrev pub TypedRegistry : Type 0 → Type 0
TypedRegistry S = Registry Bytes (Option S)

module _ {S E : Type 0} (kind : Kind S E) where
  -- `none` is a panic: a nil dereference, or a second `close`.
  store : TypedRegistry S → Option S → Option (TypedRegistry S × Option E)
  store r none = none
  store r (some s) =
      let stored = kind.normalise s in
      elim (Registry.add none r (kind.id_of stored) (some stored)) [
        | none ↦ none
        | some r' ↦ some (r', none)
      ]

  unfoldable pub add : TypedRegistry S → Option S → Option (TypedRegistry S × Option E)
  unfolding store
  add r p = elim (kind.validate p) [ some x ↦ some (r, some x) | none ↦ store r p ]

module _ {S : Type 0} where
  unfoldable pub get : TypedRegistry S → Bytes → Option S × Bool
  get r k = let (v, ok) = Registry.get none r k in if not ok then (none, false) else (v, true)

  unfoldable pub acquire : TypedRegistry S → Bytes → TypedRegistry S × ℕ
  acquire r k = Registry.acquire none r k

  unfoldable pub release : TypedRegistry S → Bytes → TypedRegistry S × Option (UnderflowError Bytes)
  release r k = Registry.release r k

  unfoldable pub snapshot : TypedRegistry S → Map Bytes (Option S)
  snapshot r = Registry.snapshot r

-- The calls that change a typed registry.
pub data Call (S : Type 0) : Type 0 where
  acquires releases : Bytes → Call S
  adds : Option S → Call S

module _ {S E : Type 0} (kind : Kind S E) where
  unfoldable pub step : TypedRegistry S → Call S → Option (TypedRegistry S)
  step r (acquires k) = some (acquire r k).0
  step r (releases k) = some (release r k).0
  step r (adds p) = elim (add kind r p) [ none ↦ none | some (r', err) ↦ some r' ]

  unfoldable pub run : TypedRegistry S → List (Call S) → Option (TypedRegistry S)
  unfolding step
  run r [] = some r
  run r (c ∷ cs) = elim (step r c) [ none ↦ none | some r' ↦ run r' cs ]
