-- ===== src/Fm/Aliasing/Fresh.antt =====
-- Clone and sortDedupPeers of src/FM/pkg/registry/vnet/vnet.go: what a copy holds, and what making
-- one leaves as it is.
use dash_fabric.Base.{
  ℕ, ◌<◌, ◌≡◌, refl, ◌∙◌, ap, Bool, true, false, List, [], ◌∷◌, ◌++◌, Option, none, some, Bytes,
  length, take, set, or_else, arith, inl, inr, Bool-cases, length-append,
}
use dash_fabric.Fm.SortDedup.{sort_dedup}
use dash_fabric.Fm.Kinds.Vnet
use dash_fabric.Fm.Kinds.Vnet.{VnetState}
use dash_fabric.Fm.Aliasing.{
  Slice, VnetObject, Heap, contents, view, view_of, read, with_slice, clone, sort_dedup_peers,
  sorted_at,
}
use dash_fabric.Fm.Aliasing.Frame.{
  get_elem?-append_old, get_elem?-append_new, set-append_new, Memory, Private, Keeps, IsBounded,
}

take_all : (xs : List Bytes) → take (length xs) xs ≡ xs
take_all [] = refl
take_all (x ∷ xs) = ap (◌∷◌ x) (take_all xs)

-- What a new slice in place of `s` holds.
abbrev copied : Option Slice → List Bytes → List Bytes
copied none xs = []
copied (some s) xs = xs

contents-new :
    (h : Heap) (xs : List Bytes) (objects : List VnetObject)
    → contents
        (record { objects = objects; arrays = h.arrays ++ xs ∷ [] })
        (some (record { array = length h.arrays; len = length xs }))
      ≡ xs
contents-new h xs objects =
    ap (λ o. take (length xs) (or_else o [])) (get_elem?-append_new h.arrays xs) ∙ take_all xs

-- The state that the new object stands for.
read-with_slice :
    (h : Heap) (o : VnetObject) (s : Option Slice) (xs : List Bytes)
    → let (h', q) = with_slice h o s xs in
      read h' (some q) ≡ some (record (view h o) { peer_vnet_ids = copied s xs })
read-with_slice h o none xs =
    ap (view_of (with_slice h o none xs).0) (get_elem?-append_new h.objects _)
read-with_slice h o (some s) xs =
    ap (view_of (with_slice h o (some s) xs).0) (get_elem?-append_new h.objects _)
    ∙ ap (λ ps. some (record (view h o) { peer_vnet_ids = ps }))
        (contents-new h xs (with_slice h o (some s) xs).0.objects)

pub read-clone :
    (h : Heap) (o : VnetObject) → read (clone h o).0 (some (clone h o).1) ≡ some (view h o)
unfolding clone
read-clone h o = read-with_slice h o o.peers (contents h o.peers) ∙ go o.peers
  where
    go :
        (s : Option Slice)
        → some (record (view h o) { peer_vnet_ids = copied s (contents h s) })
          ≡ some (record (view h o) { peer_vnet_ids = contents h s })
    go none = refl
    go (some s) = refl

-- Sorting a new copy is making a sorted copy.
sort_dedup_peers-with_slice :
    (h : Heap) (o : VnetObject) (s : Option Slice) (xs : List Bytes)
    → let (h', q) = with_slice h o s xs in
      sort_dedup_peers h' q ≡ (with_slice h o s (sort_dedup xs)).0
unfolding sort_dedup_peers
sort_dedup_peers-with_slice h o none xs =
    let h' = (with_slice h o none xs).0 in
    ap (sorted_at h' (length h.objects))
      (get_elem?-append_new h.objects (record o { peers = none }))
sort_dedup_peers-with_slice h o (some s) xs =
    let h' = (with_slice h o (some s) xs).0 in
    let fresh : Slice = record { array = length h.arrays; len = length xs } in
    let copy = record o { peers = some fresh } in
    let shorter : List Bytes → VnetObject =
      λ ys. record o { peers = some (record { array = length h.arrays; len = length ys }) } in
    let write : List VnetObject → List (List Bytes) → Heap =
      λ os as'. record { objects = os; arrays = as' } in
    ap (sorted_at h' (length h.objects)) (get_elem?-append_new h.objects copy)
    ∙ ap
        (λ ys.
          write (set h'.objects (length h.objects) (shorter (sort_dedup ys)))
            (set h'.arrays (length h.arrays) (sort_dedup ys)))
        (contents-new h xs h'.objects)
    ∙ ap (λ os. write os (set h'.arrays (length h.arrays) (sort_dedup xs)))
        (set-append_new h.objects copy (shorter (sort_dedup xs)))
    ∙ ap (write (h.objects ++ shorter (sort_dedup xs) ∷ []))
        (set-append_new h.arrays xs (sort_dedup xs))

-- The heap after Clone and sortDedupPeers.
abbrev pub tidied : Heap → VnetObject → Heap × ℕ
tidied h o = with_slice h o o.peers (sort_dedup (contents h o.peers))

pub sort_dedup_peers-clone :
    (h : Heap) (o : VnetObject) → sort_dedup_peers (clone h o).0 (clone h o).1 ≡ (tidied h o).0
unfolding clone
sort_dedup_peers-clone h o = sort_dedup_peers-with_slice h o o.peers (contents h o.peers)

pub read-tidied :
    (h : Heap) (o : VnetObject)
    → read (tidied h o).0 (some (tidied h o).1) ≡ some (Vnet.sort_dedup_peers (view h o))
unfolding sort_dedup
read-tidied h o = read-with_slice h o o.peers (sort_dedup (contents h o.peers)) ∙ go o.peers
  where
    go :
        (s : Option Slice)
        → some (record (view h o) { peer_vnet_ids = copied s (sort_dedup (contents h s)) })
          ≡ some (record (view h o) { peer_vnet_ids = sort_dedup (contents h s) })
    go none = refl
    go (some s) = refl

pub lt-append_new {ℓ} :
    {A : Type ℓ} (xs : List A) (x : A) (i : ℕ) → i < length xs → i < length (xs ++ x ∷ [])
lt-append_new xs x i h = omega (arith, length-append xs (x ∷ []))

unheld : (n : ℕ) (holds : ℕ → Bool) → (holds n ≡ true → n < n) → holds n ≡ false
unheld n holds h = elim (Bool-cases (holds n)) [ inl p ↦ absurd (omega (arith, h p)) | inr p ↦ p ]

-- Making a new object with a new array leaves the rest, and the client holds no part of it before.
module _ (m : Memory) (b : IsBounded m) (o : VnetObject) where
  abbrev pub grown : Option Slice → List Bytes → Memory
  grown s xs = record m { heap = (with_slice m.heap o s xs).0 }

  pub grown-Keeps : (s : Option Slice) (xs : List Bytes) → Keeps m (grown s xs)
  grown-Keeps none xs = record {
    objects_kept = λ p x e f. (get_elem?-append_old m.heap.objects _ p e, f);
    arrays_kept = λ a ys e f. (e, f);
  }
  grown-Keeps (some s) xs = record {
    objects_kept = λ p x e f. (get_elem?-append_old m.heap.objects _ p e, f);
    arrays_kept = λ a ys e f. (get_elem?-append_old m.heap.arrays _ a e, f);
  }

  pub grown-IsBounded : (s : Option Slice) (xs : List Bytes) → IsBounded (grown s xs)
  grown-IsBounded none xs = record {
    objects_lt = λ p held. lt-append_new m.heap.objects _ p (b.objects_lt p held);
    arrays_lt = b.arrays_lt;
  }
  grown-IsBounded (some s) xs = record {
    objects_lt = λ p held. lt-append_new m.heap.objects _ p (b.objects_lt p held);
    arrays_lt = λ a held. lt-append_new m.heap.arrays xs a (b.arrays_lt a held);
  }

  pub grown-Private :
      (s : Option Slice) (xs : List Bytes)
      → Private (grown s xs) (some (with_slice m.heap o s xs).1)
  grown-Private none xs = (
    record o { peers = none },
    get_elem?-append_new m.heap.objects _,
    unheld (length m.heap.objects) m.objects (b.objects_lt (length m.heap.objects)),
    tt,
  )
  grown-Private (some s) xs = (
    record o { peers = some (record { array = length m.heap.arrays; len = length xs }) },
    get_elem?-append_new m.heap.objects _,
    unheld (length m.heap.objects) m.objects (b.objects_lt (length m.heap.objects)),
    (
      xs,
      get_elem?-append_new m.heap.arrays xs,
      unheld (length m.heap.arrays) m.arrays (b.arrays_lt (length m.heap.arrays)),
    ),
  )
