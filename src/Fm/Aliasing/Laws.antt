-- ===== src/Fm/Aliasing/Laws.antt =====
-- The VNET registry over the store against the one over values, Fm.Typed and Fm.Kinds.Vnet.
use dash_fabric.Base.{
  ℕ, ◌≡◌, refl, sym, ◌∙◌, subst, ap, Bool, Option, none, some, Bytes, bytes_eq, length, arith, inl,
  inr, Option-cases,
}
use dash_fabric.Fm.Registry
use dash_fabric.Fm.Registry.{Registry, Entry}
use dash_fabric.Fm.Registry.Image.{image, image_result, image_ext, add-image}
use dash_fabric.Fm.Registry.Values.{AllValues, AllValues-weaken, add-AllValues}
use dash_fabric.Fm.Typed
use dash_fabric.Fm.Typed.Laws.{step-adds, step-refused}
use dash_fabric.Fm.Typed.{TypedRegistry, Call, acquires, releases, adds, run}
use dash_fabric.Fm.Kinds.Vnet
use dash_fabric.Fm.Kinds.Vnet.{VnetState, Invalid, validate, vnet_kind}
use dash_fabric.Fm.Aliasing.{
  VnetObject, Heap, contents, view, view_of, read, clone, Store, packed, stored, validated, World,
}
use dash_fabric.Fm.SortDedup.{sort_dedup}
use dash_fabric.Fm.Aliasing.Frame.{Memory, Private, Keeps, IsBounded, Private-kept, read-kept}
use dash_fabric.Fm.Aliasing.Fresh.{
  tidied, sort_dedup_peers-clone, read-tidied, grown, grown-Keeps, grown-IsBounded, grown-Private,
}

-- The registry of the states that the stored pointers stand for.
abbrev pub states : Store → TypedRegistry VnetState
states st = image (read st.heap) st.inner

-- What the client holds of the store's heap.
abbrev pub memory : World → Memory
memory w = record { heap = w.store.heap; objects = w.holds_object; arrays = w.holds_array }

-- The client holds nothing that a stored pointer leads to.
pub record IsSeparate (m : Memory) (r : Registry Bytes (Option ℕ)) : Type 0 where
  pub bounded : IsBounded m
  pub private : AllValues (Private m) r.entries

module _ {m n : Memory} (r : Registry Bytes (Option ℕ)) (k : Keeps m n)
    (h : AllValues (Private m) r.entries) where
  pub AllValues-kept : AllValues (Private n) r.entries
  AllValues-kept = AllValues-weaken (λ v. Private-kept v k) r.entries h

  pub image-kept : image (read n.heap) r ≡ image (read m.heap) r
  image-kept =
      ap (λ es. record { entries = es; name = r.name; next_chan = r.next_chan; closed = r.closed })
        (image_ext (read n.heap) (read m.heap) r.entries
          (AllValues-weaken (λ v. read-kept v k) r.entries h))

stored-tidied :
    (st : Store) (o : VnetObject)
    → stored st o
      ≡ packed
          (tidied st.heap o).0
          (Registry.add none st.inner o.vnet_id (some (tidied st.heap o).1))
unfolding clone
stored-tidied st o =
    ap (λ h. packed h (Registry.add none st.inner o.vnet_id (some (tidied st.heap o).1)))
      (sort_dedup_peers-clone st.heap o)

-- Storing a tidied copy, where the client holds what it did.
module _ (m : Memory) (r r' : Registry Bytes (Option ℕ)) (sep : IsSeparate m r) (o : VnetObject)
    (e : Registry.add none r o.vnet_id (some (length m.heap.objects)) ≡ some r') where
  abbrev after : Memory
  after = grown m sep.bounded o o.peers (sort_dedup (contents m.heap o.peers))

  after-Keeps : Keeps m after
  after-Keeps = grown-Keeps m sep.bounded o o.peers (sort_dedup (contents m.heap o.peers))

  stored-IsSeparate : IsSeparate after r'
  stored-IsSeparate = record {
    bounded = grown-IsBounded m sep.bounded o o.peers (sort_dedup (contents m.heap o.peers));
    private =
        add-AllValues (Private after) none r o.vnet_id (some (length m.heap.objects))
          (grown-Private m sep.bounded o o.peers (sort_dedup (contents m.heap o.peers)))
          (AllValues-kept r after-Keeps sep.private) e;
  }

  stored-states :
      Registry.add none
        (image (read m.heap) r)
        o.vnet_id
        (some (Vnet.sort_dedup_peers (view m.heap o)))
      ≡ some (image (read after.heap) r')
  stored-states =
      ap (λ s. Registry.add none s o.vnet_id (some (Vnet.sort_dedup_peers (view m.heap o))))
        (sym (image-kept r after-Keeps sep.private))
      ∙ ap (Registry.add none (image (read after.heap) r) o.vnet_id) (sym (read-tidied m.heap o))
      ∙ add-image (read after.heap) none r o.vnet_id (some (length m.heap.objects))
      ∙ ap (image_result (read after.heap)) e

pub some_inj : {A : Type 0} {x y : A} → some x ≡ some y → x ≡ y
some_inj h = cc

packed-some :
    (h : Heap) (p : Option (Registry Bytes (Option ℕ))) {st : Store}
    → packed h p ≡ some st
    → (p ≡ some st.inner) × (st.heap ≡ h)
packed-some h none e = absurd (ground arith)
packed-some h (some r) e = (ground arith, ground arith)

-- A call on the store that is the call `c` on the states, and leaves the client apart.
module _ (objects arrays : ℕ → Bool) (st : Store) where
  abbrev pub IsCall : Call VnetState → Store → Type 0
  IsCall c st' =
      IsSeparate (record { heap = st'.heap; objects = objects; arrays = arrays }) st'.inner
      × (Typed.step vnet_kind (states st) c ≡ some (states st'))

  abbrev held : Memory
  held = record { heap = st.heap; objects = objects; arrays = arrays }

  refused-IsCall :
      (p : Option VnetState) (st' : Store) {x : Invalid}
      → IsSeparate held st.inner
      → validate p ≡ some x
      → some st ≡ some st'
      → IsCall (adds p) st'
  refused-IsCall p st' sep bad e =
      subst (IsCall (adds p)) (some_inj e) (sep, step-refused vnet_kind (states st) p bad)

  stored-IsCall :
      (o : VnetObject) (st' : Store)
      → IsSeparate held st.inner
      → validate (some (view st.heap o)) ≡ none
      → stored st o ≡ some st'
      → IsCall (adds (some (view st.heap o))) st'
  stored-IsCall o st' sep ok e =
      let (written, heap) = packed-some (tidied st.heap o).0 _ (sym (stored-tidied st o) ∙ e) in
      (
        rw heap (stored-IsSeparate held st.inner st'.inner sep o written),
        step-adds vnet_kind (states st) (view st.heap o) (states st') ok (
            stored-states held st.inner st'.inner sep o written
            ∙ ap (λ h. some (image (read h) st'.inner)) (sym heap)),
      )

  pub validated-IsCall :
      (d : Option VnetObject) (st' : Store)
      → IsSeparate held st.inner
      → (validated st d (validate (view_of st.heap d))).0 ≡ some st'
      → IsCall (adds (view_of st.heap d)) st'
  unfolding validate
  validated-IsCall none st' sep e = refused-IsCall none st' sep refl e
  validated-IsCall (some o) st' sep e = elim (Option-cases (validate (some (view st.heap o)))) [
    | inl p ↦ stored-IsCall o st' sep p (ap (λ v. (validated st (some o) v).0) (sym p) ∙ e)
    | inr (x, p) ↦
        refused-IsCall (some (view st.heap o)) st' sep p
          (ap (λ v. (validated st (some o) v).0) (sym p) ∙ e)
  ]
