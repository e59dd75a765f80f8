-- ===== src/Fm/Aliasing.antt =====
-- The VNET registry of src/FM/pkg/registry/vnet/vnet.go over a store of objects and arrays, beside a
-- client that writes to all that it holds. A pointer and an array are numbers; a slice is an array
-- with a length, and what lies behind its length is left out, as nothing reads it. The generic
-- registry, whose values are pointers here, is that of Fm.Registry.
use dash_fabric.Base.{
  ℕ, suc, ◌+◌, ◌≡◌, Bool, true, false, not, ◌||◌, List, [], ◌∷◌, ◌++◌, Option, none, some, Bytes,
  bytes, bytes_eq, length, take, set, get_elem?, or_else, nat_beq, if◌then◌else◌,
}
use dash_fabric.Base.Int.{ℤ}
use dash_fabric.Fm.Registry
use dash_fabric.Fm.Registry.{Registry}
use dash_fabric.Fm.SortDedup.{sort_dedup}
use dash_fabric.Fm.Kinds.Vnet.{VnetState, Invalid, validate}
pub mod Frame
pub mod Fresh
pub mod Client
pub mod Laws
pub mod Isolation
pub mod Calls
mod Tests

pub record Slice : Type 0 where
  pub array : ℕ
  pub len : ℕ

-- A VnetState in the store; a nil slice is `none`.
pub record VnetObject : Type 0 where
  pub vnet_id : Bytes
  pub vni : ℕ
  pub peers : Option Slice
  pub spec_revision : ℤ
  pub last_updated : ℕ

pub record Heap : Type 0 where
  pub objects : List VnetObject
  pub arrays : List (List Bytes)

abbrev pub contents : Heap → Option Slice → List Bytes
contents h none = []
contents h (some s) = take s.len (or_else (get_elem? h.arrays s.array) [])

-- The state that an object stands for.
abbrev pub view : Heap → VnetObject → VnetState
view h o = record {
  vnet_id = o.vnet_id;
  vni = o.vni;
  peer_vnet_ids = contents h o.peers;
  spec_revision = o.spec_revision;
  last_updated = o.last_updated;
}

abbrev pub deref : Heap → Option ℕ → Option VnetObject
deref h none = none
deref h (some p) = get_elem? h.objects p

abbrev pub view_of : Heap → Option VnetObject → Option VnetState
view_of h none = none
view_of h (some o) = some (view h o)

-- The state behind a pointer.
abbrev pub read : Heap → Option ℕ → Option VnetState
read h p = view_of h (deref h p)

-- With a new object, and a new array that holds `xs` or a nil slice.
abbrev pub with_copy : Heap → VnetObject → Option Slice → List Bytes → Heap
with_copy h o none xs = record h { objects = h.objects ++ record o { peers = none } ∷ [] }
with_copy h o (some s) xs =
    let fresh : Slice = record { array = length h.arrays; len = length xs } in
    record {
      objects = h.objects ++ record o { peers = some fresh } ∷ [];
      arrays = h.arrays ++ xs ∷ [];
    }

abbrev pub with_slice : Heap → VnetObject → Option Slice → List Bytes → Heap × ℕ
with_slice h o s xs = (with_copy h o s xs, length h.objects)

unfoldable pub clone : Heap → VnetObject → Heap × ℕ
clone h o = with_slice h o o.peers (contents h o.peers)

-- sortDedupPeers on the object at `p`, in place
abbrev pub sorted_slice : Heap → ℕ → VnetObject → Option Slice → Heap
sorted_slice h p o none = h
sorted_slice h p o (some s) =
    let xs = sort_dedup (contents h (some s)) in
    record {
      objects = set h.objects p (record o { peers = some (record s { len = length xs }) });
      arrays = set h.arrays s.array xs;
    }

abbrev pub sorted_at : Heap → ℕ → Option VnetObject → Heap
sorted_at h p none = h
sorted_at h p (some o) = sorted_slice h p o o.peers

unfoldable pub sort_dedup_peers : Heap → ℕ → Heap
sort_dedup_peers h p = sorted_at h p (get_elem? h.objects p)

pub record Store : Type 0 where
  pub heap : Heap
  pub inner : Registry Bytes (Option ℕ)

abbrev pub packed : Heap → Option (Registry Bytes (Option ℕ)) → Option Store
packed h none = none
packed h (some r) = some (record { heap = h; inner = r })

-- The store with the object `o` cloned, sorted and added under its key; `none` is a panic.
abbrev pub stored : Store → VnetObject → Option Store
stored st o =
    let (h, q) = clone st.heap o in
    packed (sort_dedup_peers h q) (Registry.add none st.inner o.vnet_id (some q))

abbrev pub validated : Store → Option VnetObject → Option Invalid → Option Store × Option Invalid
validated st o (some e) = (some st, some e)
validated st none none = (none, none)
validated st (some o) none = (stored st o, none)

unfoldable pub add : Store → Option ℕ → Option Store × Option Invalid
add st p = validated st (deref st.heap p) (validate (read st.heap p))

-- A clone of what was found
abbrev pub handed_out : Store → Option VnetObject → Store × Option ℕ
handed_out st none = (st, none)
handed_out st (some o) = let (h, q) = clone st.heap o in (record st { heap = h }, some q)

abbrev pub got : Store → Option ℕ × Bool → Store × Option ℕ
got st (v, ok) = if not ok then (st, none) else handed_out st (deref st.heap v)

unfoldable pub get : Store → Bytes → Store × Option ℕ
get st k = got st (Registry.get none st.inner k)

-- The program around the registry: the objects and the arrays that the client holds.
pub record World : Type 0 where
  pub store : Store
  pub holds_object : ℕ → Bool
  pub holds_array : ℕ → Bool

abbrev pub also : (ℕ → Bool) → ℕ → ℕ → Bool
also holds i j = nat_beq i j || holds j

-- A slice that the client can write into an object.
abbrev pub HeldSlice : World → Option Slice → Type 0
HeldSlice w none = Unit
HeldSlice w (some s) = w.holds_array s.array ≡ true

abbrev pub new_world : World
new_world = record {
  store = record {
    heap = record { objects = []; arrays = [] };
    inner = Registry.new (bytes "vnet");
  };
  holds_object = λ i. false;
  holds_array = λ i. false;
}

abbrev pub slice_of : Option VnetObject → ℕ → Bool
slice_of none a = false
slice_of (some o) a = elim o.peers [ none ↦ false | some s ↦ nat_beq s.array a ]

abbrev pub heap_of : World → Heap
heap_of w = w.store.heap

abbrev pub with_heap : World → Heap → World
with_heap w h = record w { store = record w.store { heap = h } }

abbrev pub with_inner : World → Registry Bytes (Option ℕ) → World
with_inner w r = record w { store = record w.store { inner = r } }

-- The client writes to an object or an array that it holds, makes one, or calls the registry. A call
-- that panics has no step, and one of Get that finds nothing changes nothing.
pub data Step (w : World) : World → Type 0 where
  write_object :
      (p : ℕ) (o : VnetObject)
      → w.holds_object p ≡ true
      → HeldSlice w o.peers
      → Step w (with_heap w (record w.store.heap { objects = set w.store.heap.objects p o }))
  write_array :
      (a : ℕ) (xs : List Bytes)
      → w.holds_array a ≡ true
      → Step w (with_heap w (record w.store.heap { arrays = set w.store.heap.arrays a xs }))
  make_object :
      (o : VnetObject)
      → HeldSlice w o.peers
      → Step w
          (record (with_heap w (record w.store.heap { objects = w.store.heap.objects ++ o ∷ [] })) {
            holds_object = also w.holds_object (length w.store.heap.objects);
          })
  make_array :
      (xs : List Bytes)
      → Step w
          (record (with_heap w (record w.store.heap { arrays = w.store.heap.arrays ++ xs ∷ [] })) {
            holds_array = also w.holds_array (length w.store.heap.arrays);
          })
  adds :
      (p : ℕ) (st : Store)
      → w.holds_object p ≡ true
      → (add w.store (some p)).0 ≡ some st
      → Step w (record w { store = st })
  gets :
      (k : Bytes) (q : ℕ)
      → (get w.store k).1 ≡ some q
      → Step w (record w {
        store = (get w.store k).0;
        holds_object = also w.holds_object q;
        holds_array =
            λ a. slice_of (get_elem? (get w.store k).0.heap.objects q) a || w.holds_array a;
      })
  acquires : (k : Bytes) → Step w (with_inner w (Registry.acquire none w.store.inner k).0)
  releases : (k : Bytes) → Step w (with_inner w (Registry.release w.store.inner k).0)

pub data Reach (w : World) : World → Type 0 where
  here : Reach w w
  onward : {u v : World} → Reach w u → Step u v → Reach w v
