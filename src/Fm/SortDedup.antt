-- ===== src/Fm/SortDedup.antt =====
-- sortDedupPeers of src/FM/pkg/registry/vnet/vnet.go and sortDedupAclGroups of
-- src/FM/pkg/registry/nic/nic.go: sort, then drop repetitions in place.
mod Tests
use mathlib.Core.List.{append-nil, append_assoc}
use native.Mathlib.Numerals.{add-one}
use native.Mathlib.Decide.{dec_lt}
use dash_fabric.Base.{
  ℕ, zero, suc, ◌+◌, ◌-◌, ◌≤◌, ◌<◌, ◌≡◌, refl, sym, ◌∙◌, ap, Bool, true, false, not, List, [], ◌∷◌,
  ◌++◌, Option, none, some, arith, Bytes, bytes_beq, bytes_beq_iff, bytes_eq, contains, ◌||◌,
  if◌then◌else◌, length, get_elem?, set, take, drop, take-set, drop-set, get_elem?-drop, drop-suc,
  length-drop_cons, length-set, get_elem?-set_self, get_elem?-set_lt, Bool-cases, inl, inr, ◌⊎◌,
  leb, or_else, nat_beq,
}
use dash_fabric.Base.Order.{
  ltb_bytes, ltb_bytes_irrefl, ltb_bytes_connex, sort, sort-IsSorted, contains-sort, SortedFrom,
  AscendingFrom, IsSorted, IsAscending, insert_sorted, length-sort, ascending_unique,
}

-- a[i]; an index out of range does not occur
abbrev at : List Bytes → ℕ → Bytes
at a i = or_else (get_elem? a i) []

-- The loop from `i` with `n` rounds left; `w` elements are kept so far.
unfoldable pub dedup_loop : ℕ → ℕ → ℕ → List Bytes → List Bytes
dedup_loop zero i w a = take w a
dedup_loop (suc n) i w a =
    let same = bytes_beq (at a i) (at a (i - 1)) in
    dedup_loop n (i + 1) (if same then w else w + 1) (if same then a else set a w (at a i))

unfoldable pub sort_dedup : List Bytes → List Bytes
unfolding dedup_loop
sort_dedup xs = if leb (length xs) 1 then xs else dedup_loop (length xs - 1) 1 1 (sort xs)

-- What the loop keeps of the elements that follow `x`.
squeeze : Bytes → List Bytes → List Bytes
squeeze x [] = []
squeeze x (y ∷ ys) = if bytes_beq y x then squeeze y ys else y ∷ squeeze y ys

-- The kept elements after a write at the end of them.
module _ (i w : ℕ) (a ys : List Bytes) (y : Bytes) (h : w ≤ suc i)
    (d : drop (suc i) a ≡ y ∷ ys) where
  in_range : suc i < length a
  in_range = omega (arith, length-drop_cons (suc i) a d)

  drop-write : drop (suc (suc i)) (set a w y) ≡ ys
  drop-write = drop-set w (suc (suc i)) a y (omega arith) ∙ drop-suc (suc i) a d

  get-write : get_elem? (set a w y) (suc i) ≡ some y
  get-write = elim (dec_lt w (suc i)) [
    | yes p ↦ get_elem?-set_lt a w (suc i) y p ∙ get_elem?-drop (suc i) a d
    | no p ↦ let e : w ≡ suc i = omega arith in rw e (get_elem?-set_self a (suc i) y in_range)
  ]

  take-write : take (w + 1) (set a w y) ≡ take w a ++ y ∷ []
  take-write = rw add-one (take-set w a y (omega (arith, in_range)))

-- The loop in place computes that, whatever lies between the kept elements and the index.
dedup_loop-squeeze :
    (rest : List Bytes) (i w : ℕ) (a : List Bytes) (x : Bytes)
    → w ≤ suc i
    → drop (suc i) a ≡ rest
    → get_elem? a i ≡ some x
    → dedup_loop (length rest) (suc i) w a ≡ take w a ++ squeeze x rest
unfolding dedup_loop squeeze
dedup_loop-squeeze [] i w a x h d g = rw append-nil
dedup_loop-squeeze (y ∷ ys) i w a x h d g =
    let e1 : suc i + 1 ≡ suc (suc i) = omega arith in
    let e2 : suc i - 1 ≡ i = omega arith in
    let gy = get_elem?-drop (suc i) a d in
    rw (dedup_loop, e1, e2, gy, g)
      (elim (Bool-cases (bytes_beq y x)) [
        | inl p ↦ rw p (dedup_loop-squeeze ys (suc i) w a y (omega arith) (drop-suc (suc i) a d) gy)
        | inr p ↦ rw p (
            dedup_loop-squeeze ys (suc i) (w + 1) (set a w y) y (omega arith)
              (drop-write i w a ys y h d) (get-write i w a ys y h d)
            ∙ rw (take-write i w a ys y h d) (append_assoc (take w a) (y ∷ []) (squeeze y ys)))
      ])

squeeze-AscendingFrom :
    (x z : Bytes) (ys : List Bytes)
    → bytes_beq x z ≡ true
    → SortedFrom x ys
    → AscendingFrom z (squeeze x ys)
unfolding squeeze
squeeze-AscendingFrom x z [] q s = tt
squeeze-AscendingFrom x z (y ∷ ys) q s = ground (
  arith,
  bytes_beq_iff x z,
  bytes_beq_iff y x,
  bytes_beq_iff y z,
  bytes_beq_iff y y,
  ltb_bytes_connex x y,
  squeeze-AscendingFrom y z ys,
  squeeze-AscendingFrom y y ys,
)

contains-squeeze :
    (b x : Bytes) (ys : List Bytes)
    → (bytes_beq x b || contains b (squeeze x ys)) ≡ (bytes_beq x b || contains b ys)
unfolding squeeze
contains-squeeze b x [] = refl
contains-squeeze b x (y ∷ ys) = ground (arith, bytes_beq_iff y x, contains-squeeze b y ys)

-- The same for a whole list.
squeezed : List Bytes → List Bytes
squeezed [] = []
squeezed (x ∷ xs) = x ∷ squeeze x xs

dedup_loop-squeezed :
    (xs : List Bytes) → 1 < length xs → dedup_loop (length xs - 1) 1 1 xs ≡ squeezed xs
unfolding squeezed
dedup_loop-squeezed [] h = absurd (omega arith)
dedup_loop-squeezed (x ∷ xs) h =
    let e : suc (length xs) - 1 ≡ length xs = omega arith in
    rw e (dedup_loop-squeeze xs 0 1 (x ∷ xs) x (omega arith) refl refl)

sort_dedup_long : (xs : List Bytes) → 1 < length xs → sort_dedup xs ≡ squeezed (sort xs)
unfolding sort_dedup
sort_dedup_long xs h =
    let long : leb (length xs) 1 ≡ false = ground arith in
    rw (long, ← length-sort xs) (dedup_loop-squeezed (sort xs) (omega (arith, length-sort xs)))

sort_dedup-squeezed : (xs : List Bytes) → sort_dedup xs ≡ squeezed (sort xs)
unfolding sort_dedup squeezed squeeze sort insert_sorted
sort_dedup-squeezed [] = refl
sort_dedup-squeezed (x ∷ []) = refl
sort_dedup-squeezed (x ∷ y ∷ zs) = sort_dedup_long (x ∷ y ∷ zs) (omega arith)

squeezed-IsAscending : (xs : List Bytes) → IsSorted xs → IsAscending (squeezed xs)
unfolding squeezed
squeezed-IsAscending [] s = tt
squeezed-IsAscending (x ∷ xs) s = squeeze-AscendingFrom x x xs ((bytes_beq_iff x x).1 refl) s

contains-squeezed : (b : Bytes) (xs : List Bytes) → contains b (squeezed xs) ≡ contains b xs
unfolding squeezed
contains-squeezed b [] = refl
contains-squeezed b (x ∷ xs) = contains-squeeze b x xs

-- Sorting and dropping repetitions in place gives a strictly ascending list, so sorted with no
-- repetition, that holds the same strings as what was given.
pub sort_dedup_lem :
    (xs : List Bytes)
    → IsAscending (sort_dedup xs) × ((b : Bytes) → contains b (sort_dedup xs) ≡ contains b xs)
sort_dedup_lem xs = rw (sort_dedup-squeezed xs) (
  squeezed-IsAscending (sort xs) (sort-IsSorted xs),
  λ b. contains-squeezed b (sort xs) ∙ contains-sort b xs,
)

-- Two lists that hold the same strings, in any order and as often as they like, are stored alike.
sort_dedup_canonical :
    (xs ys : List Bytes)
    → ((b : Bytes) → contains b xs ≡ contains b ys)
    → sort_dedup xs ≡ sort_dedup ys
sort_dedup_canonical xs ys h =
    ascending_unique (sort_dedup xs) (sort_dedup ys) (sort_dedup_lem xs).0 (sort_dedup_lem ys).0
      λ b. (sort_dedup_lem xs).1 b ∙ (h b ∙ sym ((sort_dedup_lem ys).1 b))
