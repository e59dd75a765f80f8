-- ===== src/Base/Map.antt =====
-- Go maps as association lists. The order of iteration is not modelled.
use Prim.Native.Nat.{suc}
use mathlib.Core.Path.{◌≡◌, refl}
use mathlib.Core.Logic.{◌⊎◌}
use mathlib.Core.Bool.{false}
use mathlib.Core.List.{List, [], ◌∷◌}
use mathlib.Core.Option.{Option, none, some}
use native.Mathlib.Omega.{arith}
use dash_fabric.Base.Keys.{Eq, ◌==◌}
use dash_fabric.Base.Lists.{length}
use dash_fabric.Base.Tests.{if◌then◌else◌, is_some}

abbrev pub Map {ℓ} : Type ℓ → Type ℓ → Type ℓ
Map K V = List (K × V)

module _ {ℓ} {K V : Type ℓ} ⦃e : Eq K⦄ where
  unfoldable pub lookup : K → Map K V → Option V
  lookup k [] = none
  lookup k ((i, x) ∷ rest) = if i == k then some x else lookup k rest

  -- delete(m, k)
  unfoldable pub delete : K → Map K V → Map K V
  delete k [] = []
  delete k ((j, v) ∷ m) = let rest = delete k m in if j == k then rest else (j, v) ∷ rest

  -- m[k] = v
  unfoldable pub insert : K → V → Map K V → Map K V
  insert k x [] = (k, x) ∷ []
  insert k x ((i, y) ∷ rest) = if i == k then (k, x) ∷ rest else (i, y) ∷ insert k x rest

  pub lookup-insert :
      (key other : K) (x : V) (m : Map K V)
      → lookup other (insert key x m) ≡ (if key == other then some x else lookup other m)
  unfolding lookup insert
  lookup-insert key other x [] = refl
  lookup-insert key other x ((i, y) ∷ m) =
      ground (
        arith,
        e.beq_iff key other,
        e.beq_iff i key,
        e.beq_iff i other,
        lookup-insert key other x m,
      )

  pub lookup-insert_self : (k : K) (x : V) (m : Map K V) → lookup k (insert k x m) ≡ some x
  lookup-insert_self k x m = ground (arith, lookup-insert k k x m, e.beq_iff k k)

  pub lookup-delete :
      (k j : K) (m : Map K V) → lookup j (delete k m) ≡ (if k == j then none else lookup j m)
  unfolding lookup delete
  lookup-delete k j [] = ground arith
  lookup-delete k j ((i, w) ∷ m) =
      ground (arith, e.beq_iff k j, e.beq_iff i k, e.beq_iff i j, lookup-delete k j m)

  -- Each key stands once.
  abbrev pub IsDistinct : Map K V → Type ℓ
  IsDistinct [] = Unit
  IsDistinct ((k, v) ∷ m) = (lookup k m ≡ none) × IsDistinct m

  pub insert-IsDistinct : (k : K) (v : V) (m : Map K V) → IsDistinct m → IsDistinct (insert k v m)
  unfolding lookup insert
  insert-IsDistinct k v [] d = (refl, tt)
  insert-IsDistinct k v ((j, w) ∷ m) d =
      ground
        (arith, e.beq_iff j k, e.beq_iff k j, lookup-insert k j v m, insert-IsDistinct k v m d.1)

  pub delete-IsDistinct : (k : K) (m : Map K V) → IsDistinct m → IsDistinct (delete k m)
  unfolding lookup delete
  delete-IsDistinct k [] d = tt
  delete-IsDistinct k ((j, w) ∷ m) d =
      ground (arith, lookup-delete k j m, delete-IsDistinct k m d.1)

  pub length-insert :
      (k : K) (v : V) (m : Map K V)
      → length (insert k v m) ≡ (if is_some (lookup k m) then length m else suc (length m))
  unfolding lookup insert
  length-insert k v [] = refl
  length-insert k v ((j, w) ∷ m) = ground (arith, length-insert k v m)

  pub delete_absent : (k : K) (m : Map K V) → lookup k m ≡ none → delete k m ≡ m
  unfolding lookup delete
  delete_absent k [] h = refl
  delete_absent k ((j, w) ∷ m) h = ground (arith, delete_absent k m)

  pub length-delete :
      (k : K) (m : Map K V) {v : V}
      → IsDistinct m
      → lookup k m ≡ some v
      → suc (length (delete k m)) ≡ length m
  unfolding lookup delete
  length-delete k [] d h = cc
  length-delete k ((j, w) ∷ m) {v} d h =
      ground (arith, e.beq_iff j k, length-delete k m {v = v} d.1, delete_absent k m)

  -- What a lookup after a write or a removal tells of the map before.
  pub lookup-insert_cases :
      (k j : K) (v : V) (m : Map K V) {w : V}
      → lookup j (insert k v m) ≡ some w
      → ((k ≡ j) × (v ≡ w)) ⊎ (((k == j) ≡ false) × (lookup j m ≡ some w))
  lookup-insert_cases k j v m h = ground (arith, lookup-insert k j v m, e.beq_iff k j)

  pub lookup-delete_cases :
      (k j : K) (m : Map K V) {w : V}
      → lookup j (delete k m) ≡ some w
      → ((k == j) ≡ false) × (lookup j m ≡ some w)
  lookup-delete_cases k j m h = ground (arith, lookup-delete k j m)

pub ruleset map_laws = (lookup-insert, lookup-delete)
