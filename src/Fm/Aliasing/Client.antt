-- ===== src/Fm/Aliasing/Client.antt =====
-- What a client of src/FM/pkg/registry/vnet/vnet.go writes or makes leaves the rest as it is.
use dash_fabric.Base.{
  ℕ, ◌<◌, ◌≡◌, ◌≢◌, sym, ◌∙◌, ap, Bool, true, false, List, [], ◌∷◌, ◌++◌, Option, none, some, Bytes,
  length, set, get_elem?, arith, length-append, length-set, ◌||◌,
}
use dash_fabric.Fm.Aliasing.{Slice, VnetObject, also, slice_of, with_slice}
use dash_fabric.Fm.Aliasing.Frame.{
  get_elem?-append_old, get_elem?-append_new, get_elem?_lt, get_elem?-set_other, Memory, Keeps,
  IsBounded,
}

module _ (m : Memory) (b : IsBounded m) where
  held_other : (holds : ℕ → Bool) (p q : ℕ) → holds p ≡ true → holds q ≡ false → p ≢ q
  held_other holds p q h n e = cc

  abbrev pub object_written : ℕ → VnetObject → Memory
  object_written p o = record m { heap = record m.heap { objects = set m.heap.objects p o } }

  pub object_written-Keeps :
      (p : ℕ) (o : VnetObject) → m.objects p ≡ true → Keeps m (object_written p o)
  object_written-Keeps p o held = record {
    objects_kept = λ q x e f.
        (get_elem?-set_other m.heap.objects p q o e (held_other m.objects p q held f), f);
    arrays_kept = λ a xs e f. (e, f);
  }

  pub object_written-IsBounded : (p : ℕ) (o : VnetObject) → IsBounded (object_written p o)
  object_written-IsBounded p o = record {
    objects_lt = λ q h. omega (arith, b.objects_lt q h, length-set m.heap.objects p o);
    arrays_lt = b.arrays_lt;
  }

  abbrev pub array_written : ℕ → List Bytes → Memory
  array_written a xs = record m { heap = record m.heap { arrays = set m.heap.arrays a xs } }

  pub array_written-Keeps :
      (a : ℕ) (xs : List Bytes) → m.arrays a ≡ true → Keeps m (array_written a xs)
  array_written-Keeps a xs held = record {
    objects_kept = λ q x e f. (e, f);
    arrays_kept = λ c ys e f.
        (get_elem?-set_other m.heap.arrays a c xs e (held_other m.arrays a c held f), f);
  }

  pub array_written-IsBounded : (a : ℕ) (xs : List Bytes) → IsBounded (array_written a xs)
  array_written-IsBounded a xs = record {
    objects_lt = b.objects_lt;
    arrays_lt = λ c h. omega (arith, b.arrays_lt c h, length-set m.heap.arrays a xs);
  }

  -- The number of a new object or array is no number in use.
  also-old : (holds : ℕ → Bool) (n p : ℕ) → p < n → holds p ≡ false → also holds n p ≡ false
  also-old holds n p l f = ground (arith)

  also-lt_append {ℓ} :
      {A : Type ℓ} (xs : List A) (x : A) (holds : ℕ → Bool) (p : ℕ)
      → (holds p ≡ true → p < length xs)
      → also holds (length xs) p ≡ true
      → p < length (xs ++ x ∷ [])
  also-lt_append xs x holds p l h = ground (arith, length-append xs (x ∷ []))

  abbrev pub object_made : VnetObject → Memory
  object_made o = record m {
    heap = record m.heap { objects = m.heap.objects ++ o ∷ [] };
    objects = also m.objects (length m.heap.objects);
  }

  pub object_made-Keeps : (o : VnetObject) → Keeps m (object_made o)
  object_made-Keeps o = record {
    objects_kept = λ q x e f. (
      get_elem?-append_old m.heap.objects _ q e,
      also-old m.objects (length m.heap.objects) q (get_elem?_lt m.heap.objects q e) f,
    );
    arrays_kept = λ a xs e f. (e, f);
  }

  pub object_made-IsBounded : (o : VnetObject) → IsBounded (object_made o)
  object_made-IsBounded o = record {
    objects_lt = λ q h. also-lt_append m.heap.objects o m.objects q (b.objects_lt q) h;
    arrays_lt = b.arrays_lt;
  }

  abbrev pub array_made : List Bytes → Memory
  array_made xs = record m {
    heap = record m.heap { arrays = m.heap.arrays ++ xs ∷ [] };
    arrays = also m.arrays (length m.heap.arrays);
  }

  pub array_made-Keeps : (xs : List Bytes) → Keeps m (array_made xs)
  array_made-Keeps xs = record {
    objects_kept = λ q x e f. (e, f);
    arrays_kept = λ a ys e f. (
      get_elem?-append_old m.heap.arrays _ a e,
      also-old m.arrays (length m.heap.arrays) a (get_elem?_lt m.heap.arrays a e) f,
    );
  }

  pub array_made-IsBounded : (xs : List Bytes) → IsBounded (array_made xs)
  array_made-IsBounded xs = record {
    objects_lt = b.objects_lt;
    arrays_lt = λ a h. also-lt_append m.heap.arrays xs m.arrays a (b.arrays_lt a) h;
  }

  -- The client holds the new object and its array.
  module _ (o : VnetObject) where
    abbrev pub handed : Option Slice → List Bytes → Memory
    handed s xs =
        let (h, q) = with_slice m.heap o s xs in
        record {
          heap = h;
          objects = also m.objects q;
          arrays = λ a. slice_of (get_elem? h.objects q) a || m.arrays a;
        }

    pub handed-Keeps : (s : Option Slice) (xs : List Bytes) → Keeps m (handed s xs)
    handed-Keeps none xs = record {
      objects_kept = λ q x e f. (
        get_elem?-append_old m.heap.objects _ q e,
        also-old m.objects (length m.heap.objects) q (get_elem?_lt m.heap.objects q e) f,
      );
      arrays_kept = λ a ys e f.
          (e, ap (λ v. slice_of v a || m.arrays a) (get_elem?-append_new m.heap.objects _) ∙ f);
    }
    handed-Keeps (some s) xs = record {
      objects_kept = λ q x e f. (
        get_elem?-append_old m.heap.objects _ q e,
        also-old m.objects (length m.heap.objects) q (get_elem?_lt m.heap.objects q e) f,
      );
      arrays_kept = λ a ys e f. (
        get_elem?-append_old m.heap.arrays _ a e,
        ap (λ v. slice_of v a || m.arrays a) (get_elem?-append_new m.heap.objects _)
            ∙ also-old m.arrays (length m.heap.arrays) a (get_elem?_lt m.heap.arrays a e) f,
      );
    }

    pub handed-IsBounded : (s : Option Slice) (xs : List Bytes) → IsBounded (handed s xs)
    handed-IsBounded none xs = record {
      objects_lt = λ q h. also-lt_append m.heap.objects _ m.objects q (b.objects_lt q) h;
      arrays_lt = λ a h.
          b.arrays_lt a (
            ap (λ v. slice_of v a || m.arrays a) (sym (get_elem?-append_new m.heap.objects _)) ∙ h);
    }
    handed-IsBounded (some s) xs = record {
      objects_lt = λ q h. also-lt_append m.heap.objects _ m.objects q (b.objects_lt q) h;
      arrays_lt = λ a h.
          also-lt_append m.heap.arrays xs m.arrays a (b.arrays_lt a) (
            ap (λ v. slice_of v a || m.arrays a) (sym (get_elem?-append_new m.heap.objects _)) ∙ h);
    }
