-- ===== src/Fm/Aliasing/Frame.antt =====
-- What the client does not hold stays as it is.
use dash_fabric.Base.{
  ℕ, zero, suc, ◌<◌, ◌≡◌, ◌≢◌, refl, sym, ◌∙◌, ap, Bool, true, false, List, [], ◌∷◌, ◌++◌, Option,
  none, some, Bytes, length, take, set, get_elem?, or_else, arith,
}
use dash_fabric.Fm.Aliasing.{Slice, VnetObject, Heap, contents, view, view_of, read}

module _ {ℓ} {A : Type ℓ} where
  pub get_elem?-append_old :
      (xs ys : List A) (i : ℕ) {x : A} → get_elem? xs i ≡ some x → get_elem? (xs ++ ys) i ≡ some x
  get_elem?-append_old [] ys i h = cc
  get_elem?-append_old (z ∷ xs) ys zero h = h
  get_elem?-append_old (z ∷ xs) ys (suc i) {x = x} h = get_elem?-append_old xs ys i {x = x} h

  pub get_elem?-append_new : (xs : List A) (y : A) → get_elem? (xs ++ y ∷ []) (length xs) ≡ some y
  get_elem?-append_new [] y = refl
  get_elem?-append_new (x ∷ xs) y = get_elem?-append_new xs y

  pub set-append_new : (xs : List A) (y z : A) → set (xs ++ y ∷ []) (length xs) z ≡ xs ++ z ∷ []
  set-append_new [] y z = refl
  set-append_new (x ∷ xs) y z = ap (◌∷◌ x) (set-append_new xs y z)

  pub get_elem?_lt : (xs : List A) (i : ℕ) {x : A} → get_elem? xs i ≡ some x → i < length xs
  get_elem?_lt [] i h = cc
  get_elem?_lt (z ∷ xs) zero h = omega arith
  get_elem?_lt (z ∷ xs) (suc i) {x = x} h = omega (arith, get_elem?_lt xs i {x = x} h)

  pub get_elem?-set_other :
      (xs : List A) (j i : ℕ) (y : A) {x : A}
      → get_elem? xs i ≡ some x
      → j ≢ i
      → get_elem? (set xs j y) i ≡ some x
  get_elem?-set_other [] j i y h n = cc
  get_elem?-set_other (z ∷ xs) zero zero y h n = absurd (n refl)
  get_elem?-set_other (z ∷ xs) zero (suc i) y h n = h
  get_elem?-set_other (z ∷ xs) (suc j) zero y h n = h
  get_elem?-set_other (z ∷ xs) (suc j) (suc i) y {x = x} h n =
      get_elem?-set_other xs j i y {x = x} h (λ e. n (ap suc e))

-- A heap, and what the client holds of it.
pub record Memory : Type 0 where
  pub heap : Heap
  pub objects : ℕ → Bool
  pub arrays : ℕ → Bool

abbrev pub PrivateSlice : Memory → Option Slice → Type 0
PrivateSlice m none = Unit
PrivateSlice m (some s) =
    (xs : List Bytes) × (get_elem? m.heap.arrays s.array ≡ some xs) × (m.arrays s.array ≡ false)

abbrev pub PrivateObject : Memory → ℕ → Type 0
PrivateObject m p =
    (o : VnetObject) × (get_elem? m.heap.objects p ≡ some o)
    × (m.objects p ≡ false)
    × PrivateSlice m o.peers

-- A pointer to an object that the client does not hold, nor its array.
abbrev pub Private : Memory → Option ℕ → Type 0
Private m none = Unit
Private m (some p) = PrivateObject m p

-- All that the client does not hold stays as it is, and not held.
pub record Keeps (m n : Memory) : Type 0 where
  pub objects_kept :
      (p : ℕ) (o : VnetObject)
      → get_elem? m.heap.objects p ≡ some o
      → m.objects p ≡ false
      → (get_elem? n.heap.objects p ≡ some o) × (n.objects p ≡ false)
  pub arrays_kept :
      (a : ℕ) (xs : List Bytes)
      → get_elem? m.heap.arrays a ≡ some xs
      → m.arrays a ≡ false
      → (get_elem? n.heap.arrays a ≡ some xs) × (n.arrays a ≡ false)

-- The client holds only what there is.
pub record IsBounded (m : Memory) : Type 0 where
  pub objects_lt : (p : ℕ) → m.objects p ≡ true → p < length m.heap.objects
  pub arrays_lt : (a : ℕ) → m.arrays a ≡ true → a < length m.heap.arrays

PrivateSlice-kept :
    {m n : Memory} (s : Option Slice) → Keeps m n → PrivateSlice m s → PrivateSlice n s
PrivateSlice-kept none k h = tt
PrivateSlice-kept (some s) k (xs, e, held) =
    let (e', held') = k.arrays_kept s.array xs e held in (xs, e', held')

pub Private-kept : {m n : Memory} (v : Option ℕ) → Keeps m n → Private m v → Private n v
Private-kept none k h = tt
Private-kept (some p) k (o, e, held, slice) =
    let (e', held') = k.objects_kept p o e held in (o, e', held', PrivateSlice-kept o.peers k slice)

contents-kept :
    {m n : Memory} (s : Option Slice)
    → Keeps m n
    → PrivateSlice m s
    → contents n.heap s ≡ contents m.heap s
contents-kept none k h = refl
contents-kept (some s) k (xs, e, held) =
    let (e', held') = k.arrays_kept s.array xs e held in
    ap (λ o. take s.len (or_else o [])) (e' ∙ sym e)

pub read-kept :
    {m n : Memory} (v : Option ℕ) → Keeps m n → Private m v → read n.heap v ≡ read m.heap v
read-kept none k h = refl
read-kept {m = m} {n = n} (some p) k (o, e, held, slice) =
    let (e', held') = k.objects_kept p o e held in
    ap (view_of n.heap) e'
    ∙ ap (λ xs. some (record (view m.heap o) { peer_vnet_ids = xs }))
        (contents-kept o.peers k slice)
    ∙ sym (ap (view_of m.heap) e)
