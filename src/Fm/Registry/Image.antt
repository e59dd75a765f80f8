-- ===== src/Fm/Registry/Image.antt =====
-- The registry is natural in its values: a function on the values commutes with every call.
use dash_fabric.Base.{
  ◌≡◌, refl, [], ◌∷◌, Option, none, some, Eq, ◌==◌, inl, inr, Bool-cases, Option-cases, nat_eq,
  contains,
}
use dash_fabric.Base.Int.{pos, dec64, leb_ℤ, beq_ℤ}
use dash_fabric.Base.Map.{Map, lookup, insert, delete}
use dash_fabric.Fm.Registry.{Entry, Registry, acquire, release, add, get, close}
use dash_fabric.Fm.Registry.Values.{AllValues}

module _ {ℓ} {V W : Type ℓ} (f : V → W) where
  abbrev pub image_entry : Entry V → Entry W
  image_entry en = record {
    value = f en.value;
    has_value = en.has_value;
    refs = en.refs;
    ready = en.ready;
  }

  abbrev pub image_found : Option (Entry V) → Option (Entry W)
  image_found none = none
  image_found (some en) = some (image_entry en)

module _ {ℓ} {K V W : Type ℓ} (f : V → W) where
  abbrev pub image_entries : Map K (Entry V) → Map K (Entry W)
  image_entries [] = []
  image_entries ((k, en) ∷ m) = (k, image_entry f en) ∷ image_entries m

  abbrev pub image : Registry K V → Registry K W
  image r = record {
    entries = image_entries r.entries;
    name = r.name;
    next_chan = r.next_chan;
    closed = r.closed;
  }

  abbrev pub image_result : Option (Registry K V) → Option (Registry K W)
  image_result none = none
  image_result (some r) = some (image r)

module _ {ℓ} {K V W : Type ℓ} ⦃e : Eq K⦄ (f : V → W) where
  lookup-image :
      (k : K) (m : Map K (Entry V)) → lookup k (image_entries f m) ≡ image_found f (lookup k m)
  unfolding lookup
  lookup-image k [] = refl
  lookup-image k ((j, en) ∷ m) = elim (Bool-cases (j == k)) [
    | inl p ↦ rw p
    | inr p ↦ rw (p, lookup-image k m)
  ]

  insert-image :
      (k : K) (en : Entry V) (m : Map K (Entry V))
      → insert k (image_entry f en) (image_entries f m) ≡ image_entries f (insert k en m)
  unfolding insert
  insert-image k en [] = refl
  insert-image k en ((j, old) ∷ m) = elim (Bool-cases (j == k)) [
    | inl p ↦ rw p
    | inr p ↦ rw (p, insert-image k en m)
  ]

  delete-image :
      (k : K) (m : Map K (Entry V)) → delete k (image_entries f m) ≡ image_entries f (delete k m)
  unfolding delete
  delete-image k [] = refl
  delete-image k ((j, old) ∷ m) = elim (Bool-cases (j == k)) [
    | inl p ↦ rw (p, delete-image k m)
    | inr p ↦ rw (p, delete-image k m)
  ]

  pub acquire-image :
      (nil : V) (r : Registry K V) (k : K)
      → acquire (f nil) (image f r) k ≡ (image f (acquire nil r k).0, (acquire nil r k).1)
  unfolding acquire
  acquire-image nil r k = elim (Option-cases (lookup k r.entries)) [
    | inl p ↦ rw (acquire, lookup-image k r.entries, p, ← insert-image k)
    | inr (en, p) ↦ rw (acquire, lookup-image k r.entries, p, ← insert-image k)
  ]

  pub get-image :
      (nil : V) (r : Registry K V) (k : K)
      → get (f nil) (image f r) k ≡ (f (get nil r k).0, (get nil r k).1)
  unfolding get
  get-image nil r k = elim (Option-cases (lookup k r.entries)) [
    | inl p ↦ rw (get, lookup-image k r.entries, p)
    | inr (en, p) ↦ elim (Bool-cases en.has_value) [
      | inl q ↦ rw (get, lookup-image k r.entries, p, q)
      | inr q ↦ rw (get, lookup-image k r.entries, p, q)
    ]
  ]

  pub release-image :
      (r : Registry K V) (k : K)
      → release (image f r) k ≡ (image f (release r k).0, (release r k).1)
  unfolding release
  release-image r k = elim (Option-cases (lookup k r.entries)) [
    | inl p ↦ rw (release, lookup-image k r.entries, p)
    | inr (en, p) ↦ elim (Bool-cases (leb_ℤ en.refs (pos 0))) [
      | inl q ↦ rw (release, lookup-image k r.entries, p, q)
      | inr q ↦ elim (Bool-cases (beq_ℤ (dec64 en.refs) (pos 0))) [
        | inl z ↦ rw (release, lookup-image k r.entries, p, q, z, ← delete-image k)
        | inr z ↦ rw (release, lookup-image k r.entries, p, q, z, ← insert-image k)
      ]
    ]
  ]

  pub add-image :
      (nil : V) (r : Registry K V) (k : K) (v : V)
      → add (f nil) (image f r) k (f v) ≡ image_result f (add nil r k v)
  unfolding add close
  add-image nil r k v = elim (Option-cases (lookup k r.entries)) [
    | inl p ↦ elim (Bool-cases (contains r.next_chan r.closed)) [
      | inl q ↦ rw (lookup-image k r.entries, p, q)
      | inr q ↦ rw (lookup-image k r.entries, p, q, ← insert-image k)
    ]
    | inr (en, p) ↦ elim (Bool-cases en.has_value) [
      | inl z ↦ rw (lookup-image k r.entries, p, z, ← insert-image k)
      | inr z ↦ elim (Bool-cases (contains en.ready r.closed)) [
        | inl q ↦ rw (lookup-image k r.entries, p, z, q)
        | inr q ↦ rw (lookup-image k r.entries, p, z, q, ← insert-image k)
      ]
    ]
  ]

module _ {ℓ} {K V W : Type ℓ} (f g : V → W) where
  pub image_ext :
      (m : Map K (Entry V)) → AllValues (λ v. f v ≡ g v) m → image_entries f m ≡ image_entries g m
  image_ext [] h = refl
  image_ext ((k, en) ∷ m) (p, h) = rw (p, image_ext m h)
