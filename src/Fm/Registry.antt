-- ===== src/Fm/Registry.antt =====
-- src/FM/pkg/registry/semantics.go and refcount.go: the shared reference-counted registry.
-- A call runs under the registry's mutex, so a history is a sequence of calls. A ready channel is a
-- number; the record keeps the channels that are closed. `none` is a panic of `close`.
pub mod Channels
pub mod Image
pub mod Laws
pub mod Refinement
pub mod Snapshot
pub mod Values
mod Tests
use dash_fabric.Base.{
  ℕ, zero, suc, ◌≡◌, Bool, true, false, not, List, [], ◌∷◌, Option, none, some, Eq, nat_eq, Bytes,
  length, contains, if◌then◌else◌,
}
use dash_fabric.Base.Int.{ℤ, pos, inc64, dec64, leb_ℤ, beq_ℤ}
use dash_fabric.Base.Map.{Map, lookup, insert, delete}

pub record Entry {ℓ} (V : Type ℓ) : Type ℓ where
  pub value : V
  pub has_value : Bool
  pub refs : ℤ
  pub ready : ℕ

pub record Registry {ℓ} (K V : Type ℓ) : Type ℓ where
  pub entries : Map K (Entry V)
  pub name : Bytes
  pub next_chan : ℕ
  pub closed : List ℕ

-- REG_007_REFCOUNT_UNDERFLOW, with the registry's name and the key
pub record UnderflowError {ℓ} (K : Type ℓ) : Type ℓ where
  pub registry : Bytes
  pub key : K

unfoldable pub new {ℓ} : {K V : Type ℓ} → Bytes → Registry K V
new name = record { entries = []; name = name; next_chan = 0; closed = [] }

abbrev new_underflow {ℓ} : {K : Type ℓ} → Bytes → K → UnderflowError K
new_underflow name key = record { registry = name; key = key }

abbrev new_entry {ℓ} : {V : Type ℓ} → V → ℕ → Entry V
new_entry nil ch = record { value = nil; has_value = false; refs = pos 0; ready = ch }

-- close(ch)
close {ℓ} : {K V : Type ℓ} → ℕ → Registry K V → Option (Registry K V)
close ch r = if contains ch r.closed then none else some (record r { closed = ch ∷ r.closed })

-- `nil` is the zero value of V.
module _ {ℓ} {K V : Type ℓ} ⦃e : Eq K⦄ (nil : V) where
  -- e, ok := r.entries[key]; if !ok { e = newEntry() }: the entry, and the next free channel
  abbrev fetch : Registry K V → Option (Entry V) → Entry V × ℕ
  fetch r none = (new_entry nil r.next_chan, suc r.next_chan)
  fetch r (some en) = (en, r.next_chan)

  unfoldable pub acquire : Registry K V → K → Registry K V × ℕ
  acquire r k =
      let (en, next) = fetch r (lookup k r.entries) in
      let held = record en { refs = inc64 en.refs } in
      (record r { entries = insert k held r.entries; next_chan = next }, en.ready)

  unfoldable pub add : Registry K V → K → V → Option (Registry K V)
  unfolding close
  add r k v =
      let (en, next) = fetch r (lookup k r.entries) in
      let stored = record en { value = v; has_value = true } in
      let r' = record r { entries = insert k stored r.entries; next_chan = next } in
      if not en.has_value then close en.ready r' else some r'

  unfoldable pub get : Registry K V → K → V × Bool
  get r k = elim (lookup k r.entries) [
    | none ↦ (nil, false)
    | some en ↦ if not en.has_value then (nil, false) else (en.value, true)
  ]

module _ {ℓ} {K V : Type ℓ} ⦃e : Eq K⦄ where
  unfoldable pub release : Registry K V → K → Registry K V × Option (UnderflowError K)
  release r k = elim (lookup k r.entries) [
    | none ↦ (r, some (new_underflow r.name k))
    | some en ↦
        if leb_ℤ en.refs (pos 0)
        then (r, some (new_underflow r.name k))
        else (let left = record en { refs = dec64 en.refs } in
            if beq_ℤ left.refs (pos 0)
            then (record r { entries = delete k r.entries }, none)
            else (record r { entries = insert k left r.entries }, none))
  ]

  unfoldable pub ready : Registry K V → K → Bool
  ready r k = elim (lookup k r.entries) [ none ↦ false | some en ↦ en.has_value ]

  unfoldable pub refcount : Registry K V → K → ℤ
  refcount r k = elim (lookup k r.entries) [ none ↦ pos 0 | some en ↦ en.refs ]

  unfoldable pub len : Registry K V → ℕ
  len r = length r.entries

  abbrev collect : Map K (Entry V) → Map K V → Map K V
  collect [] out = out
  collect ((k, en) ∷ m) out = collect m (if en.has_value then insert k en.value out else out)

  unfoldable pub snapshot : Registry K V → Map K V
  snapshot r = collect r.entries []
