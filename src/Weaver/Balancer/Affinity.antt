-- ===== src/Weaver/Balancer/Affinity.antt =====
-- Sticky: a client stays with its replica, and the clients whose hash is negative.
use dash_fabric.Base.{
  ℕ, zero, suc, ◌%◌, ◌<◌, ◌≡◌, ◌≢◌, refl, ◌∙◌, ap, true, false, List, ◌∷◌, none, some, arith,
  length, bytes_eq, bytes_beq_iff, inl, inr, Option-cases, Bool-cases, ◌⊎◌,
}
use native.Mathlib.Nat.{mod-lt}
use dash_fabric.Base.Map.{Map, lookup, insert, lookup-insert}
use dash_fabric.Base.Int.{ℤ, pos, negsuc, ltb_ℤ, of_word}
use dash_fabric.Weaver.Balancer.{Replica, sticky_select, hash_client, choose, rem, at_index}

stays :
    (affinity : Map (List ℕ) ℤ) (client : List ℕ) (r : Replica) (rs : List Replica) {i : ℤ}
    → lookup client affinity ≡ some i
    → ltb_ℤ i (pos (length (r ∷ rs))) ≡ true
    → sticky_select affinity client (r ∷ rs) ≡ (affinity, at_index (r ∷ rs) i)
unfolding sticky_select
stays affinity client r rs {i} h l = rw (h, sticky_select) (rw l)

moves :
    (affinity : Map (List ℕ) ℤ) (client : List ℕ) (r : Replica) (rs : List Replica) {i : ℤ}
    → lookup client affinity ≡ some i
    → ltb_ℤ i (pos (length (r ∷ rs))) ≡ false
    → sticky_select affinity client (r ∷ rs) ≡ choose affinity client (r ∷ rs)
unfolding sticky_select
moves affinity client r rs {i} h l = rw (h, sticky_select) (rw l)

arrives :
    (affinity : Map (List ℕ) ℤ) (client : List ℕ) (r : Replica) (rs : List Replica)
    → lookup client affinity ≡ none
    → sticky_select affinity client (r ∷ rs) ≡ choose affinity client (r ∷ rs)
unfolding sticky_select
arrives affinity client r rs h = rw (h, sticky_select)

Zero-cases : (n : ℕ) → (n ≡ 0) ⊎ ((k : ℕ) × (n ≡ suc k))
Zero-cases zero = inl refl
Zero-cases (suc n) = inr (n, refl)

rem-lt : (z : ℤ) (n : ℕ) → 0 < n → ltb_ℤ (rem z n) (pos n) ≡ true
rem-lt (pos k) n h = ground (arith, mod-lt k h)
rem-lt (negsuc k) n h = elim (Zero-cases (suc k % n)) [
  | inl e ↦ rw (e, rem) (ground arith)
  | inr (j, e) ↦ rw (e, rem) (ground arith)
]

-- What was chosen is held to.
chosen_again :
    (affinity : Map (List ℕ) ℤ) (client : List ℕ) (r : Replica) (rs : List Replica)
    → (sticky_select (choose affinity client (r ∷ rs)).0 client (r ∷ rs)).1
      ≡ (choose affinity client (r ∷ rs)).1
chosen_again affinity client r rs =
    let n = length (r ∷ rs) in
    let idx = rem (of_word (hash_client client)) n in
    let found : lookup client (insert client idx affinity) ≡ some idx =
      grind (arith, lookup-insert client client idx affinity, bytes_beq_iff client client) in
    ap (λ s. s.1)
      (stays (insert client idx affinity) client r rs {i = idx} found
        (rem-lt (of_word (hash_client client)) n (omega arith)))

-- The next call for a client with the same replicas has the same reply, a panic included, whatever
-- the affinity map held before.
select_again :
    (affinity : Map (List ℕ) ℤ) (client : List ℕ) (r : Replica) (rs : List Replica)
    → (sticky_select (sticky_select affinity client (r ∷ rs)).0 client (r ∷ rs)).1
      ≡ (sticky_select affinity client (r ∷ rs)).1
select_again affinity client r rs =
    let chosen = chosen_again affinity client r rs in
    elim (Option-cases (lookup client affinity)) [
      | inl h ↦ rw (arrives affinity client r rs h) chosen
      | inr (i, h) ↦ elim (Bool-cases (ltb_ℤ i (pos (length (r ∷ rs))))) [
        | inl l ↦
            let s = stays affinity client r rs {i = i} h l in
            ap (λ z. (sticky_select z.0 client (r ∷ rs)).1) s
        | inr l ↦ rw (moves affinity client r rs {i = i} h l) chosen
      ]
    ]

rem_negative : (m n : ℕ) → suc m % n ≢ 0 → (k : ℕ) × (rem (negsuc m) n ≡ negsuc k)
rem_negative m n h = elim (Zero-cases (suc m % n)) [
  | inl e ↦ absurd (h e)
  | inr (j, e) ↦ (j, rw (e, rem))
]

-- Select panics for a client that has no replica yet and whose hash is negative as an int, if the
-- number of replicas does not divide it, on this call and on the next one with these replicas.
pub select_panics :
    (affinity : Map (List ℕ) ℤ) (client : List ℕ) (r : Replica) (rs : List Replica) (m : ℕ)
    → lookup client affinity ≡ none
    → of_word (hash_client client) ≡ negsuc m
    → suc m % length (r ∷ rs) ≢ 0
    → let s = sticky_select affinity client (r ∷ rs) in
      (s.1 ≡ none) × ((sticky_select s.0 client (r ∷ rs)).1 ≡ none)
select_panics affinity client r rs m h e d =
    let (k, q) = rem_negative m (length (r ∷ rs)) d in
    let s = arrives affinity client r rs h in
    let index : rem (of_word (hash_client client)) (length (r ∷ rs)) ≡ negsuc k = rw e q in
    let panics : (choose affinity client (r ∷ rs)).1 ≡ none = ap (at_index (r ∷ rs)) index in
    let first = ap (λ z. z.1) s ∙ panics in (first, select_again affinity client r rs ∙ first)
