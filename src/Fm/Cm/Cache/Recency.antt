-- ===== src/Fm/Cm/Cache/Recency.antt =====
-- The deduplication cache against its contract: the fingerprints seen last, as many as fit.
use dash_fabric.Base.{
  ℕ, zero, suc, ◌≤◌, ◌<◌, ◌≡◌, refl, sym, ◌∙◌, ap, Bool, true, false, List, [], ◌∷◌, some, arith,
  Bytes, nat_eq, bytes_eq, nat_beq, nat_beq_iff, bytes_beq, bytes_beq_iff, if◌then◌else◌, length,
  inl, inr, Option-cases, Bool-cases, take, contains, is_some,
}
use native.Mathlib.Decide.{dec_lt}
use dash_fabric.Base.Map.{Map, lookup, delete, IsDistinct, delete_absent}
use dash_fabric.Base.Int.{pos}
use dash_fabric.Fm.Cm.Cache.{
  CacheEntry, LruCache, new, move_to_front, back, evict_lru, stored, check_and_store, size, clear,
}
use dash_fabric.Fm.Cm.Cache.Laws.{
  Inv, IsSound, check-IsSound, check_hit, check_full, check_room, stored-Inv, back-lookup,
  back-some, Inv-empty,
}

-- The contract: fingerprints, the one seen last in front.
abbrev pub remove : Bytes → List Bytes → List Bytes
remove v [] = []
remove v (w ∷ l) = if bytes_beq w v then l else w ∷ remove v l

abbrev pub spec_check : ℕ → List Bytes → Bytes → List Bytes × Bool
spec_check n l v = if contains v l then (v ∷ remove v l, true) else (take n (v ∷ l), false)

abbrev pub values : Map ℕ Bytes → List Bytes
values [] = []
values ((i, v) ∷ l) = v ∷ values l

length-values : (l : Map ℕ Bytes) → length (values l) ≡ length l
length-values [] = refl
length-values ((i, v) ∷ l) = ap suc (length-values l)

lookup-contains :
    (l : Map ℕ Bytes) (i : ℕ) (v : Bytes) → lookup i l ≡ some v → contains v (values l) ≡ true
unfolding lookup
lookup-contains [] i v h = cc
lookup-contains ((j, w) ∷ l) i v h = grind (arith, h, bytes_beq_iff w v, lookup-contains l i v)

contains-lookup :
    (l : Map ℕ Bytes) (v : Bytes)
    → IsDistinct l
    → contains v (values l) ≡ true
    → (i : ℕ) × (lookup i l ≡ some v)
unfolding lookup
contains-lookup [] v d h = cc
contains-lookup ((j, w) ∷ l) v d h = elim (Bool-cases (bytes_beq w v)) [
  | inl e ↦ (j, grind (arith, e, nat_beq_iff j j, bytes_beq_iff w v))
  | inr e ↦
      let (i, q) = contains-lookup l v d.1 (grind (arith, e, h)) in
      (i, grind (arith, q, d.0, nat_beq_iff j i))
]

values-delete :
    (l : Map ℕ Bytes) (i : ℕ) (v : Bytes)
    → IsDistinct l
    → ((j : ℕ) (w : Bytes) → lookup j l ≡ some w → nat_beq j i ≡ bytes_beq w v)
    → values (delete i l) ≡ remove v (values l)
unfolding lookup delete
values-delete [] i v d h = refl
values-delete ((j, w) ∷ l) i v d h =
    let here = h j w (grind (arith, nat_beq_iff j j)) in
    let ih = values-delete l i v d.1 λ k u q. h k u (grind (arith, q, d.0, nat_beq_iff j k)) in
    grind (arith, here, ih, delete_absent i l, d.0, nat_beq_iff j i)

values-delete-back :
    (l : Map ℕ Bytes) (k : ℕ) {i : ℕ} {v : Bytes}
    → IsDistinct l
    → back l ≡ some (i, v)
    → length l ≡ suc k
    → values (delete i l) ≡ take k (values l)
unfolding lookup delete back
values-delete-back [] k d h e = absurd (omega (arith, e))
values-delete-back ((j, w) ∷ []) zero {i} {v} d h e = grind (arith, h, nat_beq_iff j i)
values-delete-back ((j, w) ∷ []) (suc k) {i} {v} d h e = absurd (omega (arith, e))
values-delete-back ((j, w) ∷ y ∷ l) zero {i} {v} d h e = absurd (omega (arith, e))
values-delete-back ((j, w) ∷ y ∷ l) (suc k) {i} {v} d h e =
    let ih = values-delete-back (y ∷ l) k {i = i} {v = v} d.1 h (omega arith) in
    let there = back-lookup (y ∷ l) {i = i} {v = v} d.1 h in
    let apart : nat_beq j i ≡ false = elim (Bool-cases (nat_beq j i)) [
      | inl t ↦ absurd (grind (arith, t, there, d.0, nat_beq_iff j i))
      | inr f ↦ f
    ] in
    rw apart (ap (◌∷◌ w) ih)

take-all : (n : ℕ) (l : List Bytes) → length l ≤ n → take n l ≡ l
take-all zero [] h = refl
take-all zero (x ∷ l) h = absurd (omega arith)
take-all (suc n) [] h = refl
take-all (suc n) (x ∷ l) h = ap (◌∷◌ x) (take-all n l (omega arith))

-- What the cache remembers of its past.
abbrev pub Shows : LruCache → List Bytes → Type 0
Shows c l = values c.lru ≡ l

module _ (n : ℕ) (c : LruCache) (s : Inv n c) where
  known : (v : Bytes) → contains v (values c.lru) ≡ is_some (lookup v c.entries)
  known v = elim (Option-cases (lookup v c.entries)) [
    | inr (x, e) ↦ rw e (lookup-contains c.lru x.element v (s.element_of v x e))
    | inl e ↦ elim (Bool-cases (contains v (values c.lru))) [
      | inr f ↦ rw (e, f)
      | inl t ↦
          let (i, q) = contains-lookup c.lru v s.elements_once t in
          let (x, e', p) = s.entry_of i v q in absurd (grind (arith, e, e'))
    ]
  ]

  moved :
      (v : Bytes) (x : CacheEntry)
      → lookup v c.entries ≡ some x
      → values (move_to_front x.element c.lru) ≡ v ∷ remove v (values c.lru)
  moved v x e =
      let found = s.element_of v x e in
      let same : (j : ℕ) (w : Bytes)
          → lookup j c.lru ≡ some w
          → nat_beq j x.element ≡ bytes_beq w v =
        λ j w q. elim (Bool-cases (bytes_beq w v)) [
          | inl t ↦
              let (y, e', p) = s.entry_of j w q in
              grind (arith, t, e, e', p, bytes_beq_iff w v, nat_beq_iff j x.element)
          | inr f ↦ grind (arith, f, found, q, bytes_beq_iff w v, nat_beq_iff j x.element)
        ] in
      rw (found, move_to_front) (ap (◌∷◌ v) (values-delete c.lru x.element v s.elements_once same))

evict_lru-lru :
    (c : LruCache) {i : ℕ} {v : Bytes}
    → back c.lru ≡ some (i, v)
    → (evict_lru c).lru ≡ delete i c.lru
unfolding evict_lru
evict_lru-lru c h = rw (h, evict_lru)

-- A call answers as the contract does, and leaves what it leaves.
pub check-refines :
    (n : ℕ) (c : LruCache) (v : Bytes) (now : ℕ)
    → IsSound n c
    → let r = check_and_store c v now in
      let r' = spec_check n (values c.lru) v in (values r.0.lru ≡ r'.0) × (r.1 ≡ r'.1)
check-refines n c v now sound =
    let m = sound.capacity in
    let s = sound.inv in
    elim (Option-cases (lookup v c.entries)) [
      | inr (x, e) ↦
          let yes' : contains v (values c.lru) ≡ true = rw (known n c s v, e) in
          rw (check_hit n c v now m x e, yes') (moved n c s v x e, refl)
      | inl e ↦
          let no' : contains v (values c.lru) ≡ false = rw (known n c s v, e) in
          elim (dec_lt (length c.lru) n) [
            | yes room ↦
                rw (check_room n c v now m e room, no')
                  (sym (take-all n (v ∷ values c.lru) (omega (arith, length-values c.lru))), refl)
            | no full ↦
                let (y, b) = back-some (c.next_element, v) c.lru in
                let whole = (stored-Inv n c v now s e).elements_once in
                let left =
                  values-delete-back ((c.next_element, v) ∷ c.lru) n {i = y.0} {v = y.1} whole b
                    (omega (arith, s.within)) in
                rw (check_full n c v now m e (omega arith), no')
                  (ap values (evict_lru-lru (stored c v now) {i = y.0} {v = y.1} b) ∙ left, refl)
          ]
    ]

pub data Call : Type 0 where
  checks : Bytes → ℕ → Call
  clears : Call

-- The cache after a history, and the answers of its calls of CheckAndStore.
unfoldable pub run : LruCache → List Call → LruCache × List Bool
run c [] = (c, [])
run c (checks v now ∷ l) =
    let r = check_and_store c v now in let rest = run r.0 l in (rest.0, r.1 ∷ rest.1)
run c (clears ∷ l) = run (clear c) l

abbrev pub spec_run : ℕ → List Bytes → List Call → List Bytes × List Bool
spec_run n known [] = (known, [])
spec_run n known (checks v now ∷ l) =
    let r = spec_check n known v in let rest = spec_run n r.0 l in (rest.0, r.1 ∷ rest.1)
spec_run n known (clears ∷ l) = spec_run n [] l

clear-IsSound : (n : ℕ) (c : LruCache) → IsSound n c → IsSound n (clear c)
unfolding clear
clear-IsSound n c s = record { capacity = s.capacity; inv = Inv-empty n (clear c) refl refl }

clear-values : (c : LruCache) → values (clear c).lru ≡ []
unfolding clear
clear-values c = refl

run-spec :
    (n : ℕ) (c : LruCache) (known : List Bytes) (l : List Call)
    → IsSound n c
    → values c.lru ≡ known
    → let r = run c l in
      (values r.0.lru ≡ (spec_run n known l).0) × (r.1 ≡ (spec_run n known l).1) × IsSound n r.0
unfolding run
run-spec n c known [] s h = (h, refl, s)
run-spec n c known (clears ∷ l) s h =
    run-spec n (clear c) [] l (clear-IsSound n c s) (clear-values c)
run-spec n c known (checks v now ∷ l) s h =
    let (a, b) = check-refines n c v now s in
    let (x, y, z) =
      run-spec n (check_and_store c v now).0 (spec_check n known v).0 l (check-IsSound n c v now s)
        (rw (sym h) a) in
    (
      x,
      ap (◌∷◌ (check_and_store c v now).1) y
          ∙ ap (λ k. k ∷ (spec_run n (spec_check n known v).0 l).1) (rw (sym h) b),
      z,
    )

pub new-IsSound : (m : ℕ) → 0 < m → IsSound m (new (pos m))
unfolding new
new-IsSound m h = record { capacity = ground arith; inv = Inv-empty m (new (pos m)) refl refl }

new-values : (m : ℕ) → values (new (pos m)).lru ≡ []
unfolding new
new-values m = refl

-- Over any history of calls on a new cache of positive size, CheckAndStore answers "duplicate" for
-- exactly the fingerprints that the contract remembers: those seen last, as many as the size. The
-- cache's size is the number of these, and never above the size it was made with.
pub run-recency :
    (m : ℕ) (l : List Call)
    → 0 < m
    → let r = run (new (pos m)) l in
      let known = spec_run m [] l in
      (r.1 ≡ known.1) × (values r.0.lru ≡ known.0) × (size r.0 ≡ length known.0) × (size r.0 ≤ m)
unfolding size
run-recency m l h =
    let (x, y, z) = run-spec m (new (pos m)) [] l (new-IsSound m h) (new-values m) in
    (
      y,
      x,
      z.inv.same_length ∙ sym (length-values (run (new (pos m)) l).0.lru) ∙ ap length x,
      grind (arith, z.inv.within, z.inv.same_length),
    )
