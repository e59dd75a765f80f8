-- ===== src/Base/Order.antt =====
-- Go's order on strings, and the lists that it sorts.
use mathlib.Core.Path.{ap₂}
use dash_fabric.Base.{
  suc, length, ◌≡◌, refl, Bool, true, false, List, [], ◌∷◌, arith, Bytes, bytes_beq, bytes_beq_iff,
  ltb, bytes_eq, contains, ◌||◌, if◌then◌else◌,
}

-- a < b on strings, byte by byte
abbrev pub ltb_bytes : Bytes → Bytes → Bool
ltb_bytes [] [] = false
ltb_bytes [] (b ∷ bs) = true
ltb_bytes (a ∷ as') [] = false
ltb_bytes (a ∷ as') (b ∷ bs) = if ltb a b then true else if ltb b a then false else ltb_bytes as' bs

pub ltb_bytes_irrefl : (a : Bytes) → ltb_bytes a a ≡ false
ltb_bytes_irrefl [] = refl
ltb_bytes_irrefl (a ∷ as') = ground (arith, ltb_bytes_irrefl as')

pub ltb_bytes_asymm : (a b : Bytes) → ltb_bytes a b ≡ true → ltb_bytes b a ≡ false
ltb_bytes_asymm [] [] h = refl
ltb_bytes_asymm [] (b ∷ bs) h = refl
ltb_bytes_asymm (a ∷ as') [] h = cc
ltb_bytes_asymm (a ∷ as') (b ∷ bs) h = ground (arith, ltb_bytes_asymm as' bs)

pub ltb_bytes_connex : (a b : Bytes) → ltb_bytes a b ≡ false → ltb_bytes b a ≡ false → a ≡ b
ltb_bytes_connex [] [] h k = refl
ltb_bytes_connex [] (b ∷ bs) h k = cc
ltb_bytes_connex (a ∷ as') [] h k = cc
ltb_bytes_connex (a ∷ as') (b ∷ bs) h k = ground (arith, ltb_bytes_connex as' bs)

-- sort.Slice by `<`: equal strings are the same value, so the result is the one sorted list.
unfoldable pub insert_sorted : Bytes → List Bytes → List Bytes
insert_sorted x [] = x ∷ []
insert_sorted x (y ∷ ys) = if ltb_bytes y x then y ∷ insert_sorted x ys else x ∷ y ∷ ys

unfoldable pub sort : List Bytes → List Bytes
unfolding insert_sorted
sort [] = []
sort (x ∷ xs) = insert_sorted x (sort xs)

-- No element is below the one before it, starting from `x`; and each is above it.
abbrev pub SortedFrom : Bytes → List Bytes → Type 0
SortedFrom x [] = Unit
SortedFrom x (y ∷ ys) = (ltb_bytes y x ≡ false) × SortedFrom y ys

abbrev pub AscendingFrom : Bytes → List Bytes → Type 0
AscendingFrom x [] = Unit
AscendingFrom x (y ∷ ys) = (ltb_bytes x y ≡ true) × AscendingFrom y ys

abbrev pub IsSorted : List Bytes → Type 0
IsSorted [] = Unit
IsSorted (x ∷ xs) = SortedFrom x xs

-- Strictly ascending: sorted with no element twice.
abbrev pub IsAscending : List Bytes → Type 0
IsAscending [] = Unit
IsAscending (x ∷ xs) = AscendingFrom x xs

insert_sorted-SortedFrom :
    (y x : Bytes) (ys : List Bytes)
    → ltb_bytes x y ≡ false
    → SortedFrom y ys
    → SortedFrom y (insert_sorted x ys)
unfolding insert_sorted
insert_sorted-SortedFrom y x [] h s = (h, tt)
insert_sorted-SortedFrom y x (z ∷ zs) h s =
    ground (arith, insert_sorted-SortedFrom z x zs, ltb_bytes_asymm z x)

insert_sorted-IsSorted : (x : Bytes) (ys : List Bytes) → IsSorted ys → IsSorted (insert_sorted x ys)
unfolding insert_sorted
insert_sorted-IsSorted x [] s = tt
insert_sorted-IsSorted x (y ∷ ys) s =
    ground (arith, insert_sorted-SortedFrom y x ys, ltb_bytes_asymm y x)

pub sort-IsSorted : (xs : List Bytes) → IsSorted (sort xs)
unfolding sort
sort-IsSorted [] = tt
sort-IsSorted (x ∷ xs) = insert_sorted-IsSorted x (sort xs) (sort-IsSorted xs)

contains-insert_sorted :
    (a x : Bytes) (ys : List Bytes)
    → contains a (insert_sorted x ys) ≡ (bytes_beq x a || contains a ys)
unfolding insert_sorted
contains-insert_sorted a x [] = refl
contains-insert_sorted a x (y ∷ ys) = ground (arith, contains-insert_sorted a x ys)

pub contains-sort : (a : Bytes) (xs : List Bytes) → contains a (sort xs) ≡ contains a xs
unfolding sort
contains-sort a [] = refl
contains-sort a (x ∷ xs) = ground (arith, contains-insert_sorted a x (sort xs), contains-sort a xs)

length-insert_sorted : (x : Bytes) (ys : List Bytes) → length (insert_sorted x ys) ≡ suc (length ys)
unfolding insert_sorted
length-insert_sorted x [] = refl
length-insert_sorted x (y ∷ ys) = ground (arith, length-insert_sorted x ys)

pub length-sort : (xs : List Bytes) → length (sort xs) ≡ length xs
unfolding sort
length-sort [] = refl
length-sort (x ∷ xs) = omega (arith, length-insert_sorted x (sort xs), length-sort xs)

ltb_bytes_trans :
    (a b c : Bytes) → ltb_bytes a b ≡ true → ltb_bytes b c ≡ true → ltb_bytes a c ≡ true
ltb_bytes_trans a [] [] h k = cc
ltb_bytes_trans [] [] (c ∷ cs) h k = refl
ltb_bytes_trans (a ∷ as') [] (c ∷ cs) h k = cc
ltb_bytes_trans a (b ∷ bs) [] h k = cc
ltb_bytes_trans [] (b ∷ bs) (c ∷ cs) h k = refl
ltb_bytes_trans (a ∷ as') (b ∷ bs) (c ∷ cs) h k = ground (arith, ltb_bytes_trans as' bs cs)

-- All that an ascending list holds lies above its start.
above :
    (x b : Bytes) (xs : List Bytes)
    → AscendingFrom x xs
    → contains b xs ≡ true
    → ltb_bytes x b ≡ true
above x b [] s h = cc
above x b (y ∷ ys) s h =
    ground (arith, bytes_beq_iff y b, above y b ys s.1, ltb_bytes_trans x y b s.0)

not_own : (x : Bytes) (xs : List Bytes) → AscendingFrom x xs → contains x xs ≡ false
not_own x xs s = ground (arith, above x x xs s, ltb_bytes_irrefl x)

AscendingFrom-IsAscending : (x : Bytes) (xs : List Bytes) → AscendingFrom x xs → IsAscending xs
AscendingFrom-IsAscending x [] s = tt
AscendingFrom-IsAscending x (y ∷ ys) s = s.1

-- An ascending list is determined by what it holds.
pub ascending_unique :
    (xs ys : List Bytes)
    → IsAscending xs
    → IsAscending ys
    → ((b : Bytes) → contains b xs ≡ contains b ys)
    → xs ≡ ys
ascending_unique [] [] s t h = refl
ascending_unique [] (y ∷ ys) s t h = ground (arith, h y, bytes_beq_iff y y)
ascending_unique (x ∷ xs) [] s t h = ground (arith, h x, bytes_beq_iff x x)
ascending_unique (x ∷ xs) (y ∷ ys) s t h = ap₂ ◌∷◌ heads (
    ascending_unique xs ys (AscendingFrom-IsAscending x xs s) (AscendingFrom-IsAscending y ys t)
      same)
  where
    heads : x ≡ y
    heads = ground (
      arith,
      h x,
      h y,
      bytes_beq_iff x x,
      bytes_beq_iff y y,
      bytes_beq_iff x y,
      bytes_beq_iff y x,
      above x y xs s,
      above y x ys t,
      ltb_bytes_asymm x y,
    )

    same : (b : Bytes) → contains b xs ≡ contains b ys
    same b =
        ground
          (arith, h b, heads, bytes_beq_iff x b, bytes_beq_iff y b, not_own x xs s, not_own y ys t)
