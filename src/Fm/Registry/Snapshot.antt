-- ===== src/Fm/Registry/Snapshot.antt =====
-- Snapshot against Get.
use dash_fabric.Base.{◌≡◌, refl, [], ◌∷◌, Option, none, some, arith, Eq, if◌then◌else◌}
use dash_fabric.Base.Map.{Map, lookup, insert, IsDistinct, lookup-insert}
use dash_fabric.Fm.Registry.{Entry, Registry, collect, get, snapshot}
use dash_fabric.Fm.Registry.Laws.{IsValid}

-- What the snapshot holds for an entry; a key with no value keeps what the map built so far has.
abbrev shown {ℓ} : {V : Type ℓ} → Option (Entry V) → Option V → Option V
shown none old = old
shown (some en) old = if en.has_value then some en.value else old

module _ {ℓ} {K V : Type ℓ} ⦃e : Eq K⦄ where
  lookup-collect :
      (k : K) (m : Map K (Entry V)) (out : Map K V)
      → IsDistinct m
      → lookup k (collect m out) ≡ shown (lookup k m) (lookup k out)
  unfolding lookup
  lookup-collect k [] out d = refl
  lookup-collect k ((j, en) ∷ m) out d =
      rw (lookup-collect k m (if en.has_value then insert j en.value out else out) d.1)
        (ground (arith, lookup-insert j k en.value out, e.beq_iff j k))

  -- In a valid registry the snapshot holds a key exactly when Get finds it, with the same value.
  lookup-snapshot :
      (nil : V) (r : Registry K V) (k : K)
      → IsValid r
      → lookup k (snapshot r) ≡ (if (get nil r k).1 then some (get nil r k).0 else none)
  unfolding snapshot get lookup
  lookup-snapshot nil r k v = rw (lookup-collect k r.entries [] v.distinct) (ground arith)
