-- ===== src/Fm/Registry/Values.antt =====
-- What holds of every value in a registry.
use dash_fabric.Base.{
  ◌≡◌, [], ◌∷◌, some, arith, Eq, ◌==◌, inl, inr, Bool-cases, Option-cases, nat_eq,
}
use dash_fabric.Base.Int.{pos, dec64, leb_ℤ, beq_ℤ}
use dash_fabric.Base.Map.{Map, lookup, insert, delete}
use dash_fabric.Fm.Registry.Laws.{add-entries}
use dash_fabric.Fm.Registry.{Entry, Registry, acquire, release, add, get}

-- What holds of every value in the map.
module _ {ℓ} {K V : Type ℓ} (P : V → Type ℓ) where
  abbrev pub AllValues : Map K (Entry V) → Type ℓ
  AllValues [] = Unit
  AllValues ((k, en) ∷ m) = P en.value × AllValues m

module _ {ℓ} {K V : Type ℓ} {P Q : V → Type ℓ} where
  pub AllValues-weaken :
      (h : (v : V) → P v → Q v) (m : Map K (Entry V)) → AllValues P m → AllValues Q m
  AllValues-weaken h [] all = tt
  AllValues-weaken h ((k, en) ∷ m) (p, all) = (h en.value p, AllValues-weaken h m all)

module _ {ℓ} {K V : Type ℓ} ⦃e : Eq K⦄ (P : V → Type ℓ) where
  insert-AllValues :
      (k : K) (en : Entry V) (m : Map K (Entry V))
      → P en.value
      → AllValues P m
      → AllValues P (insert k en m)
  unfolding insert
  insert-AllValues k en [] p h = (p, tt)
  insert-AllValues k en ((j, old) ∷ m) p (q, h) = elim (Bool-cases (j == k)) [
    | inl z ↦ rw z (p, h)
    | inr z ↦ rw z (q, insert-AllValues k en m p h)
  ]

  delete-AllValues : (k : K) (m : Map K (Entry V)) → AllValues P m → AllValues P (delete k m)
  unfolding delete
  delete-AllValues k [] h = tt
  delete-AllValues k ((j, old) ∷ m) (q, h) = elim (Bool-cases (j == k)) [
    | inl z ↦ rw z (delete-AllValues k m h)
    | inr z ↦ rw z (q, delete-AllValues k m h)
  ]

  lookup-AllValues :
      (k : K) (m : Map K (Entry V)) {en : Entry V}
      → AllValues P m
      → lookup k m ≡ some en
      → P en.value
  unfolding lookup
  lookup-AllValues k [] h p = cc
  lookup-AllValues k ((j, old) ∷ m) {en = en} (q, h) p = elim (Bool-cases (j == k)) [
    | inl z ↦ (let same : old ≡ en = ground arith in rw (← same) q)
    | inr z ↦ lookup-AllValues k m {en = en} h (ground arith)
  ]

  pub acquire-AllValues :
      (nil : V) (r : Registry K V) (k : K)
      → P nil
      → AllValues P r.entries
      → AllValues P (acquire nil r k).0.entries
  unfolding acquire
  acquire-AllValues nil r k n h = elim (Option-cases (lookup k r.entries)) [
    | inl p ↦ rw (acquire, p) (insert-AllValues k _ r.entries n h)
    | inr (en, p) ↦
        rw (acquire, p)
          (insert-AllValues k _ r.entries (lookup-AllValues k r.entries {en = en} h p) h)
  ]

  pub release-AllValues :
      (r : Registry K V) (k : K) → AllValues P r.entries → AllValues P (release r k).0.entries
  unfolding release
  release-AllValues r k h = elim (Option-cases (lookup k r.entries)) [
    | inl p ↦ rw (release, p) h
    | inr (en, p) ↦ elim (Bool-cases (leb_ℤ en.refs (pos 0))) [
      | inl q ↦ rw (release, p, q) h
      | inr q ↦ elim (Bool-cases (beq_ℤ (dec64 en.refs) (pos 0))) [
        | inl z ↦ rw (release, p, q, z) (delete-AllValues k r.entries h)
        | inr z ↦
            rw (release, p, q, z)
              (insert-AllValues k _ r.entries (lookup-AllValues k r.entries {en = en} h p) h)
      ]
    ]
  ]

  pub get-AllValues :
      (nil : V) (r : Registry K V) (k : K) → P nil → AllValues P r.entries → P (get nil r k).0
  unfolding get
  get-AllValues nil r k n h = elim (Option-cases (lookup k r.entries)) [
    | inl p ↦ rw (get, p) n
    | inr (en, p) ↦ elim (Bool-cases en.has_value) [
      | inl q ↦ rw (get, p, q) (lookup-AllValues k r.entries {en = en} h p)
      | inr q ↦ rw (get, p, q) n
    ]
  ]

  pub add-AllValues :
      (nil : V) (r : Registry K V) (k : K) (v : V) {s : Registry K V}
      → P v
      → AllValues P r.entries
      → add nil r k v ≡ some s
      → AllValues P s.entries
  add-AllValues nil r k v {s = s} p h q =
      let (en, written, same, has) = add-entries nil v r s k q in
      rw written (insert-AllValues k en r.entries (rw same p) h)
