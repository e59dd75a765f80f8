-- ===== src/Fm/Registry/Refinement.antt =====
-- The registry against its contract: a count of live references and an optional value for each key.
use dash_fabric.Base.{
  ℕ, zero, suc, ◌+◌, ◌≤◌, ◌<◌, ◌≡◌, refl, Bool, true, false, not, List, [], ◌∷◌, Option, none, some,
  arith, Eq, ◌==◌, Bytes, length, inl, inr, Bool-cases, Returns, Returns-some, if◌then◌else◌, ◌&&◌,
}
use dash_fabric.Base.Map.{lookup, lookup-insert, lookup-delete}
use dash_fabric.Base.Int.{ℤ, pos, inc64, dec64, leb_ℤ, beq_ℤ, max64}
use dash_fabric.Fm.Registry.{Registry, new, acquire, release, add, get, refcount}
use dash_fabric.Fm.Registry.Laws.{IsValid, new-IsValid, acquire-IsValid, release-IsValid, add_total}

-- What the registry promises of one key.
pub record Cell {ℓ} (V : Type ℓ) : Type ℓ where
  pub count : ℕ
  pub value : Option V

-- One reference less. The last one takes the value with it, and there is none to take from zero.
abbrev pub released_at {ℓ} : {V : Type ℓ} → ℕ → Option V → Cell V
released_at zero v = record { count = 0; value = v }
released_at (suc zero) v = record { count = 0; value = none }
released_at (suc (suc n)) v = record { count = suc n; value = v }

abbrev pub released {ℓ} : {V : Type ℓ} → Cell V → Cell V
released c = released_at c.count c.value

pub data Op {ℓ} (K V : Type ℓ) : Type ℓ where
  acquires : K → Op K V
  releases : K → Op K V
  adds : K → V → Op K V

abbrev pub read {ℓ} : {V : Type ℓ} → V → Option V → V × Bool
read nil none = (nil, false)
read nil (some v) = (v, true)

-- The reference that goes is the last one.
abbrev is_last : ℤ → Bool
is_last n = not (leb_ℤ n (pos 0)) && beq_ℤ (dec64 n) (pos 0)

released_at-count {ℓ} :
    {V : Type ℓ} (n : ℕ) (v : Option V)
    → (if leb_ℤ (pos n) (pos 0) then pos n else dec64 (pos n)) ≡ pos (released_at n v).count
released_at-count zero v = refl
released_at-count (suc zero) v = refl
released_at-count (suc (suc n)) v = ground arith

is_last_more : (n : ℕ) → is_last (pos (suc (suc n))) ≡ false
is_last_more n = ground arith

released_at-value {ℓ} :
    {V : Type ℓ} (nil : V) (n : ℕ) (v : Option V)
    → (if is_last (pos n) then (nil, false) else read nil v) ≡ read nil (released_at n v).value
released_at-value nil zero v = refl
released_at-value nil (suc zero) v = refl
released_at-value nil (suc (suc n)) v = rw (is_last_more n)

released_at-le {ℓ} : {V : Type ℓ} (n : ℕ) (v : Option V) → (released_at n v).count ≤ n
released_at-le zero v = omega arith
released_at-le (suc zero) v = omega arith
released_at-le (suc (suc n)) v = omega arith

module _ {ℓ} {K V : Type ℓ} ⦃e : Eq K⦄ where
  abbrev pub spec_step : (K → Cell V) → Op K V → K → Cell V
  spec_step s (acquires k) j = if k == j then record (s k) { count = suc (s k).count } else s j
  spec_step s (releases k) j = if k == j then released (s k) else s j
  spec_step s (adds k v) j = if k == j then record (s k) { value = some v } else s j

  abbrev pub spec_run : (K → Cell V) → List (Op K V) → K → Cell V
  spec_run s [] = s
  spec_run s (o ∷ os) = spec_run (spec_step s o) os

  -- No key has a reference or a value.
  abbrev pub spec_new : K → Cell V
  spec_new k = record { count = 0; value = none }

  -- There is room for so many more references to each key.
  abbrev pub HasRoom : ℕ → (K → Cell V) → Type ℓ
  HasRoom room s = (j : K) → (s j).count + room ≤ max64

  spec_step-HasRoom :
      (room : ℕ) (s : K → Cell V) (o : Op K V) → HasRoom (suc room) s → HasRoom room (spec_step s o)
  spec_step-HasRoom room s (acquires k) h j = ground (arith, h k, h j)
  spec_step-HasRoom room s (releases k) h j =
      ground (arith, h k, h j, released_at-le (s k).count (s k).value)
  spec_step-HasRoom room s (adds k v) h j = ground (arith, h k, h j)

  module _ (nil : V) where
    unfoldable pub step : Registry K V → Op K V → Option (Registry K V)
    step r (acquires k) = some (acquire nil r k).0
    step r (releases k) = some (release r k).0
    step r (adds k v) = add nil r k v

    -- The calls that observe a key return what the contract says.
    abbrev pub Shows : Registry K V → (K → Cell V) → Type ℓ
    Shows r s = (j : K) → (refcount r j ≡ pos (s j).count) × (get nil r j ≡ read nil (s j).value)

    module _ (r : Registry K V) (k j : K) where
      refcount-acquire :
          refcount (acquire nil r k).0 j ≡ (if k == j then inc64 (refcount r k) else refcount r j)
      unfolding acquire refcount
      refcount-acquire = grind (arith, lookup-insert, e.beq_iff k j)

      get-acquire : get nil (acquire nil r k).0 j ≡ get nil r j
      unfolding acquire get
      get-acquire = grind (arith, lookup-insert, e.beq_iff k j)

      refcount-release : refcount (release r k).0 j ≡ (
          if k == j
          then (if leb_ℤ (refcount r k) (pos 0) then refcount r k else dec64 (refcount r k))
          else refcount r j)
      unfolding release refcount
      refcount-release = grind (arith, lookup-insert, lookup-delete, e.beq_iff k j)

      get-release : get nil (release r k).0 j ≡ (
          if k == j
          then (if is_last (refcount r k) then (nil, false) else get nil r k)
          else get nil r j)
      unfolding release refcount get
      get-release = grind (arith, lookup-insert, lookup-delete, e.beq_iff k j)

      module _ (v : V) (r' : Registry K V) (h : add nil r k v ≡ some r') where
        refcount-add : refcount r' j ≡ refcount r j
        unfolding add refcount
        refcount-add = grind (arith, lookup-insert, e.beq_iff k j)

        get-add : get nil r' j ≡ (if k == j then (v, true) else get nil r j)
        unfolding add get
        get-add = grind (arith, lookup-insert, e.beq_iff k j)

    module _ (r : Registry K V) (s : K → Cell V) (shows : Shows r s) (k : K) where
      acquire-Shows : (s k).count < max64 → Shows (acquire nil r k).0 (spec_step s (acquires k))
      acquire-Shows small j = (
        rw (refcount-acquire r k j) (ground (arith, shows k, shows j)),
        rw (get-acquire r k j) (ground (arith, shows k, shows j, e.beq_iff k j)),
      )

      release-Shows : Shows (release r k).0 (spec_step s (releases k))
      release-Shows j = elim (Bool-cases (k == j)) [
        | inl p ↦ (
          rw (refcount-release r k j, p, (shows k).0) (released_at-count (s k).count (s k).value),
          rw (get-release r k j, p, (shows k).0, (shows k).1)
              (released_at-value nil (s k).count (s k).value),
        )
        | inr p ↦
            (rw (refcount-release r k j, p) (shows j).0, rw (get-release r k j, p) (shows j).1)
      ]

      add-Shows :
          (v : V) (r' : Registry K V) → add nil r k v ≡ some r' → Shows r' (spec_step s (adds k v))
      add-Shows v r' h j = (
        rw (refcount-add r k j v r' h) (ground (arith, shows k, shows j, e.beq_iff k j)),
        rw (get-add r k j v r' h) (ground (arith, shows j)),
      )

    Agrees : (K → Cell V) → Registry K V → Type ℓ
    Agrees s r = IsValid r × Shows r s

    step-Agrees :
        (room : ℕ) (r : Registry K V) (s : K → Cell V) (o : Op K V)
        → HasRoom (suc room) s
        → Agrees s r
        → Returns (Agrees (spec_step s o)) (step r o)
    unfolding step Agrees
    step-Agrees room r s (acquires k) h (v, g) =
        Returns-some _ _ (acquire-IsValid r k v nil, acquire-Shows r s g k (omega (arith, h k)))
    step-Agrees room r s (releases k) h (v, g) =
        Returns-some _ _ (release-IsValid r k v, release-Shows r s g k)
    step-Agrees room r s (adds k x) h (v, g) =
        let (r', e', v') = add_total r k v nil x in (r', e', (v', add-Shows r s g k x r' e'))

    unfoldable pub run : Registry K V → List (Op K V) → Option (Registry K V)
    run r [] = some r
    run r (o ∷ os) = elim (step r o) [ none ↦ none | some r' ↦ run r' os ]

    run-Agrees :
        (r : Registry K V) (s : K → Cell V) (os : List (Op K V))
        → HasRoom (length os) s
        → Agrees s r
        → Returns (Agrees (spec_run s os)) (run r os)
    unfolding run
    run-Agrees r s [] h a = Returns-some _ _ a
    run-Agrees r s (o ∷ os) h a =
        let (r', e', a') = step-Agrees (length os) r s o h a in
        rw (e', run) (run-Agrees r' (spec_step s o) os (spec_step-HasRoom (length os) s o h) a')

    -- Any history of calls on a new registry, shorter than 2^63, runs without a panic, keeps the
    -- invariant, and leaves every key with the reference count and the value of the contract.
    pub run-refines :
        (name : Bytes) (os : List (Op K V))
        → length os ≤ max64
        → (r : Registry K V) × (run (new name) os ≡ some r)
          × IsValid r
          × Shows r (spec_run spec_new os)
    unfolding new refcount get lookup Agrees
    run-refines name os h =
        let (r, e', a) =
          run-Agrees (new name) spec_new os (λ j. omega arith)
            (new-IsValid name, λ j. (refl, refl)) in
        (r, e', a.0, a.1)

  module _ (r : Registry K V) (k : K) where
    -- Release fails exactly when the key has no live reference, with the registry's name and the
    -- key, and then changes nothing.
    release_fails :
        ((release r k).1 ≡ (
          if leb_ℤ (refcount r k) (pos 0)
          then some (record { registry = r.name; key = k })
          else none))
        × (leb_ℤ (refcount r k) (pos 0) ≡ true → (release r k).0 ≡ r)
    unfolding release refcount
    release_fails = (grind arith, grind arith)
