-- ===== src/Fm/Aliasing/Isolation.antt =====
-- A client of src/FM/pkg/registry/vnet/vnet.go changes the registry by its calls alone.
use dash_fabric.Base.{
  ℕ, ◌≡◌, refl, sym, ◌∙◌, ap, subst, Bool, true, false, not, Option, none, some, Bytes, bytes_eq,
  get_elem?, length, arith, ◌||◌, if◌then◌else◌,
}
use dash_fabric.Fm.Registry
use dash_fabric.Fm.Registry.{Registry}
use dash_fabric.Fm.Registry.Image.{image, acquire-image, release-image, get-image}
use dash_fabric.Fm.Registry.Values.{acquire-AllValues, release-AllValues}
use dash_fabric.Fm.Typed
use dash_fabric.Fm.Typed.{TypedRegistry, Call, acquires, releases, adds, run}
use dash_fabric.Fm.Kinds.Vnet.{VnetState}
use dash_fabric.Fm.Aliasing.{
  VnetObject, contents, view_of, deref, read, clone, Store, handed_out, got, get, also, slice_of,
}
use dash_fabric.Fm.Aliasing.Frame.{Memory, Private, Keeps, IsBounded}
use dash_fabric.Fm.Aliasing.Fresh.{read-clone}
use dash_fabric.Fm.Aliasing.Client.{handed, handed-Keeps, handed-IsBounded}
use dash_fabric.Fm.Aliasing.Laws.{states, IsSeparate, IsCall, AllValues-kept, image-kept}

module _ (objects arrays : ℕ → Bool) (st : Store) (k : Bytes)
    (sep : IsSeparate
      (record { heap = st.heap; objects = objects; arrays = arrays })
      st.inner) where
  pub acquire-IsCall :
      IsCall objects arrays st
        (acquires k)
        (record st { inner = (Registry.acquire none st.inner k).0 })
  unfolding Typed.step Typed.acquire
  acquire-IsCall = (
    record {
      bounded = sep.bounded;
      private = acquire-AllValues (Private _) none st.inner k tt sep.private;
    },
    ap (λ x. some x.0) (acquire-image (read st.heap) none st.inner k),
  )

  pub release-IsCall :
      IsCall objects arrays st (releases k) (record st { inner = (Registry.release st.inner k).0 })
  unfolding Typed.step Typed.release
  release-IsCall = (
    record {
      bounded = sep.bounded;
      private = release-AllValues (Private _) st.inner k sep.private;
    },
    ap (λ x. some x.0) (release-image (read st.heap) st.inner k),
  )

-- The client's own writes are no call.
module _ (m : Memory) (r : Registry Bytes (Option ℕ)) (sep : IsSeparate m r) where
  abbrev pub IsQuiet : Memory → Type 0
  IsQuiet n = IsSeparate n r × (some (image (read m.heap) r) ≡ some (image (read n.heap) r))

  pub quiet : (n : Memory) → Keeps m n → IsBounded n → IsQuiet n
  quiet n k b = (
    record { bounded = b; private = AllValues-kept r k sep.private },
    ap some (sym (image-kept r k sep.private)),
  )

handed_out-read :
    (st : Store) (d : Option VnetObject)
    → read (handed_out st d).0.heap (handed_out st d).1 ≡ view_of st.heap d
handed_out-read st none = refl
handed_out-read st (some o) = read-clone st.heap o

abbrev picked : Option VnetState × Bool → Option VnetState
picked (v, ok) =
    let p : Option VnetState × Bool = if not ok then (none, false) else (v, true) in p.0

got-read :
    (st : Store) (g : Option ℕ × Bool)
    → read (got st g).0.heap (got st g).1 ≡ picked (read st.heap g.0, g.1)
got-read st (v, false) = refl
got-read st (v, true) = handed_out-read st (deref st.heap v)

-- What Get hands out is a copy of what the registry of states holds.
pub get-read :
    (st : Store) (k : Bytes) → read (get st k).0.heap (get st k).1 ≡ (Typed.get (states st) k).0
unfolding get Typed.get
get-read st k =
    got-read st (Registry.get none st.inner k)
    ∙ ap picked (sym (get-image (read st.heap) none st.inner k))

handed_out-cases :
    (st : Store) (d : Option VnetObject) {q : ℕ}
    → (handed_out st d).1 ≡ some q
    → (o : VnetObject) × (handed_out st d ≡ handed_out st (some o)) × (q ≡ length st.heap.objects)
unfolding clone
handed_out-cases st none h = absurd (ground arith)
handed_out-cases st (some o) h = (o, refl, ground arith)

got-cases :
    (st : Store) (g : Option ℕ × Bool) {q : ℕ}
    → (got st g).1 ≡ some q
    → (o : VnetObject) × (got st g ≡ handed_out st (some o)) × (q ≡ length st.heap.objects)
got-cases st (v, false) h = absurd (ground arith)
got-cases st (v, true) {q = q} h = handed_out-cases st (deref st.heap v) {q = q} h

-- The client holds what Get hands out.
module _ (objects arrays : ℕ → Bool) (st : Store) where
  abbrev pub taken : Store → ℕ → Memory
  taken st' q = record {
    heap = st'.heap;
    objects = also objects q;
    arrays = λ a. slice_of (get_elem? st'.heap.objects q) a || arrays a;
  }

  pub get-IsQuiet :
      (k : Bytes) (q : ℕ)
      → IsSeparate (record { heap = st.heap; objects = objects; arrays = arrays }) st.inner
      → (get st k).1 ≡ some q
      → IsSeparate (taken (get st k).0 q) (get st k).0.inner
        × (some (states st) ≡ some (states (get st k).0))
  unfolding get clone
  get-IsQuiet k q sep h =
      let (o, same, new) = got-cases st (Registry.get none st.inner k) {q = q} h in
      let m : Memory = record { heap = st.heap; objects = objects; arrays = arrays } in
      let s = o.peers in
      let xs = contents st.heap s in
      rw new (
        subst
          (λ (g : Store × Option ℕ).
            IsSeparate (taken g.0 (length st.heap.objects)) g.0.inner
            × (some (states st) ≡ some (states g.0)))
          (sym same)
          (quiet m st.inner sep (handed m sep.bounded o s xs) (handed-Keeps m sep.bounded o s xs)
            (handed-IsBounded m sep.bounded o s xs)))
