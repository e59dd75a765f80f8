-- ===== src/Weaver/Balancer/Shares.antt =====
-- The shares of Weighted.
use dash_fabric.Base.{
  ℕ, zero, suc, ◌+◌, ◌%◌, ◌≤◌, ◌<◌, ◌≡◌, refl, ◌∙◌, ap, Bool, List, [], ◌∷◌, Option, none, some,
  Bytes, arith, if◌then◌else◌, ltb, All,
}
use native.Mathlib.Nat.{mod-eq_of_lt, add-mod_right}
use dash_fabric.Base.Map.{Map}
use dash_fabric.Base.Int.{ℤ, pos, negsuc, pos_part, inc64, add64, max64}
use dash_fabric.Weaver.Balancer.{
  Replica, Reply, selected, no_replicas, weight_of, total_weight, find_weighted, rem64,
  weighted_select,
}

abbrev pub bit : Bool → ℕ
bit b = if b then 1 else 0

-- How many of the numbers from `a` on, so many, pass a test.
hits : (ℕ → Bool) → ℕ → ℕ → ℕ
hits f a zero = 0
hits f a (suc n) = bit (f a) + hits f (suc a) n

hits_split : (f : ℕ → Bool) (a m n : ℕ) → hits f a (m + n) ≡ hits f a m + hits f (a + m) n
unfolding hits
hits_split f a zero n =
    let e : a + 0 ≡ a = omega arith in
    let e' : 0 + n ≡ n = omega arith in
    omega (arith, ap (λ z. hits f z n) e, ap (λ z. hits f a z) e')
hits_split f a (suc m) n =
    let e : suc a + m ≡ a + suc m = omega arith in
    let e' : suc m + n ≡ suc (m + n) = omega arith in
    omega (arith, ap (λ z. hits f z n) e, ap (λ z. hits f a z) e', hits_split f (suc a) m n)

hits_agree :
    (f g : ℕ → Bool) (a n : ℕ) → ((k : ℕ) → a ≤ k → k < a + n → f k ≡ g k) → hits f a n ≡ hits g a n
unfolding hits
hits_agree f g a zero h = refl
hits_agree f g a (suc n) h = ground (
  arith,
  h a (omega arith) (omega arith),
  hits_agree f g (suc a) n (λ k l m. h k (omega arith) (omega arith)),
)

hits_const : (b : Bool) (a n : ℕ) → hits (λ k. b) a n ≡ (if b then n else 0)
unfolding hits
hits_const b a zero = ground arith
hits_const b a (suc n) = ground (arith, hits_const b (suc a) n)

-- A window as long as the period of a test holds as many, wherever it begins.
hits_shift : (f : ℕ → Bool) (a n : ℕ) → f (a + n) ≡ f a → hits f (suc a) n ≡ hits f a n
unfolding hits
hits_shift f a n h =
    let e : a + n ≡ n + a = omega arith in
    let one_more = hits_split f a n 1 in
    let e' : n + 1 ≡ suc n = omega arith in
    omega (arith, one_more, ap (λ z. hits f a z) e', ap bit h)

hits_window :
    (f : ℕ → Bool) (n : ℕ) → ((k : ℕ) → f (k + n) ≡ f k) → (a : ℕ) → hits f a n ≡ hits f 0 n
hits_window f n h zero = refl
hits_window f n h (suc a) = hits_shift f a n (h a) ∙ hits_window f n h a

hits_cycle : (f : ℕ → Bool) (n a : ℕ) → 0 < n → hits (λ k. f (k % n)) a n ≡ hits f 0 n
hits_cycle f n a h =
    hits_window (λ k. f (k % n)) n (λ k. ap f (add-mod_right k n)) a
    ∙ hits_agree (λ k. f (k % n)) f 0 n (λ k l m. ap f (mod-eq_of_lt (omega arith)))

-- add64 without overflow
add64_pos : (a b : ℕ) → a + b ≤ max64 → add64 (pos a) (pos b) ≡ pos (a + b)
add64_pos a b h = ground arith

-- The share of a replica is its weight, 1 where there is none.
abbrev pub share : Map Bytes ℤ → Replica → ℕ
share weights r = pos_part (weight_of weights r)

abbrev pub shares : Map Bytes ℤ → List Replica → ℕ
shares weights [] = 0
shares weights (r ∷ rs) = share weights r + shares weights rs

-- The shares of the replicas that pass a test.
abbrev pub shares_if : (Replica → Bool) → Map Bytes ℤ → List Replica → ℕ
shares_if p weights [] = 0
shares_if p weights (r ∷ rs) = (if p r then share weights r else 0) + shares_if p weights rs

pos_of : (z : ℤ) → 0 < pos_part z → z ≡ pos (pos_part z)
pos_of (pos n) h = refl
pos_of (negsuc n) h = absurd (omega arith)

next_weight :
    (weights : Map Bytes ℤ) (r : Replica) (t : ℕ)
    → 0 < share weights r
    → t + share weights r ≤ max64
    → add64 (pos t) (weight_of weights r) ≡ pos (t + share weights r)
next_weight weights r t h m =
    ap (add64 (pos t)) (pos_of (weight_of weights r) h) ∙ add64_pos t (share weights r) m

total_weight_lem :
    (weights : Map Bytes ℤ) (rs : List Replica) (t : ℕ)
    → All (λ r. 0 < share weights r) rs
    → t + shares weights rs ≤ max64
    → total_weight weights rs (pos t) ≡ pos (t + shares weights rs)
total_weight_lem weights [] t h m = ap pos (omega arith)
total_weight_lem weights (r ∷ rs) t h m =
    let w = share weights r in
    let e = next_weight weights r t h.0 (omega arith) in
    rw e (total_weight_lem weights rs (t + w) h.1 (omega arith) ∙ ap pos (omega arith))

find_here :
    (weights : Map Bytes ℤ) (k : ℕ) (r last : Replica) (rs : List Replica) (t n : ℕ)
    → add64 (pos t) (weight_of weights r) ≡ pos n
    → find_weighted weights (pos k) (r ∷ rs) (pos t) last
      ≡ (if ltb k n then r else find_weighted weights (pos k) rs (pos n) r)
find_here weights k r last rs t n e = rw e (ground arith)

module _ (p : Replica → Bool) (weights : Map Bytes ℤ) where
  -- Of the numbers below the shares, beyond those of the replicas before, each finds its replica.
  find_hits :
      (rs : List Replica) (current : ℕ) (last : Replica)
      → All (λ r. 0 < share weights r) rs
      → current + shares weights rs ≤ max64
      → hits
          (λ k. p (find_weighted weights (pos k) rs (pos current) last))
          current
          (shares weights rs)
        ≡ shares_if p weights rs
  unfolding hits
  find_hits [] current last h m = refl
  find_hits (r ∷ rs) current last h m =
      let w = share weights r in
      let n = current + w in
      let e = next_weight weights r current h.0 (omega arith) in
      let f = λ (k : ℕ). p (find_weighted weights (pos k) (r ∷ rs) (pos current) last) in
      let g = λ (k : ℕ). p (find_weighted weights (pos k) rs (pos n) r) in
      let here =
        hits_agree f (λ k. p r) current w
          (λ k l u. ap p (find_here weights k r last rs current n e ∙ ground arith)) in
      let later =
        hits_agree f g n (shares weights rs)
          (λ k l u. ap p (find_here weights k r last rs current n e ∙ ground arith)) in
      omega (
        arith,
        hits_split f current w (shares weights rs),
        here,
        hits_const (p r) current w,
        later,
        find_hits rs n r h.1 (omega arith),
      )

-- How many of the next calls of Select, so many, return a replica that passes the test.
abbrev pub passes : (Replica → Bool) → Reply → ℕ
passes p (selected r) = bit (p r)
passes p no_replicas = 0

unfoldable pub served : (Replica → Bool) → Map Bytes ℤ → ℕ → ℤ → List Replica → ℕ
served p weights zero counter replicas = 0
served p weights (suc n) counter replicas =
    let (counter', reply) = weighted_select weights counter replicas in
    passes p reply + served p weights n counter' replicas

rem64_pos : (a t : ℕ) → 0 < t → rem64 (pos a) (pos t) ≡ some (pos (a % t))
rem64_pos a zero h = elim h [ ]
rem64_pos a (suc t) h = refl

chosen :
    (weights : Map Bytes ℤ) (next counter : ℤ) (r : Replica) (rs : List Replica) {o : Option ℤ}
    {target : ℤ}
    → o ≡ some target
    → ◌≡◌ {A = ℤ × Reply}
        (elim o [
          | none ↦ (counter, selected r)
          | some t ↦ (next, selected (find_weighted weights t (r ∷ rs) (pos 0) r))
        ])
        (next, selected (find_weighted weights target (r ∷ rs) (pos 0) r))
chosen weights next counter r rs h = rw h refl

weighted_select_lem :
    (weights : Map Bytes ℤ) (c : ℕ) (r : Replica) (rs : List Replica)
    → All (λ r. 0 < share weights r) (r ∷ rs)
    → shares weights (r ∷ rs) ≤ max64
    → c < max64
    → weighted_select weights (pos c) (r ∷ rs) ≡ (
      pos (suc c),
      selected (find_weighted weights (pos (suc c % shares weights (r ∷ rs))) (r ∷ rs) (pos 0) r),
    )
unfolding weighted_select
weighted_select_lem weights c r rs h m l =
    let t = shares weights (r ∷ rs) in
    let up : inc64 (pos c) ≡ pos (suc c) = ground arith in
    let total : total_weight weights (r ∷ rs) (pos 0) ≡ pos t =
      total_weight_lem weights (r ∷ rs) 0 h (omega arith) ∙ ap pos (omega arith) in
    let target : rem64 (inc64 (pos c)) (total_weight weights (r ∷ rs) (pos 0))
        ≡ some (pos (suc c % t)) =
      ap (λ z. rem64 z (total_weight weights (r ∷ rs) (pos 0))) up
      ∙ ap (rem64 (pos (suc c))) total
      ∙ rem64_pos (suc c) t (omega arith) in
    chosen weights (inc64 (pos c)) (pos c) r rs target
    ∙ ap (λ z. (z, selected (find_weighted weights (pos (suc c % t)) (r ∷ rs) (pos 0) r))) up

served-hits :
    (p : Replica → Bool) (weights : Map Bytes ℤ) (n c : ℕ) (r : Replica) (rs : List Replica)
    → All (λ r. 0 < share weights r) (r ∷ rs)
    → shares weights (r ∷ rs) ≤ max64
    → c + n ≤ max64
    → served p weights n (pos c) (r ∷ rs)
      ≡ hits
          (λ k. p (find_weighted weights (pos (k % shares weights (r ∷ rs))) (r ∷ rs) (pos 0) r))
          (suc c)
          n
unfolding served hits
served-hits p weights zero c r rs h m l = refl
served-hits p weights (suc n) c r rs h m l =
    let once = weighted_select_lem weights c r rs h m (omega arith) in
    ap (λ s. passes p s.1 + served p weights n s.0 (r ∷ rs)) once
    ∙ ap
        (λ z.
          bit (p (find_weighted weights (pos (suc c % shares weights (r ∷ rs))) (r ∷ rs) (pos 0) r))
          + z)
        (served-hits p weights n (suc c) r rs h m (omega arith))

-- Of the next calls of Select of Weighted, as many as the weights are in sum, from any counter that is
-- not negative, those that return a replica of some kind are as many as the weights of the replicas of
-- that kind; a replica without a weight has weight 1, no weight is negative, and neither the sum nor
-- the counter overflows.
pub weighted_shares :
    (p : Replica → Bool) (weights : Map Bytes ℤ) (c : ℕ) (r : Replica) (rs : List Replica)
    → All (λ r. 0 < share weights r) (r ∷ rs)
    → c + shares weights (r ∷ rs) ≤ max64
    → served p weights (shares weights (r ∷ rs)) (pos c) (r ∷ rs) ≡ shares_if p weights (r ∷ rs)
weighted_shares p weights c r rs h l =
    let t = shares weights (r ∷ rs) in
    let f = λ (k : ℕ). p (find_weighted weights (pos k) (r ∷ rs) (pos 0) r) in
    served-hits p weights t c r rs h (omega arith) l
    ∙ hits_cycle f t (suc c) (omega arith)
    ∙ find_hits p weights (r ∷ rs) 0 r h (omega arith)
