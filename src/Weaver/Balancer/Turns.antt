-- ===== src/Weaver/Balancer/Turns.antt =====
-- The turns of RoundRobin.
use dash_fabric.Base.{
  ℕ, zero, suc, ◌+◌, ◌-◌, ◌%◌, ◌≤◌, ◌<◌, ◌≡◌, sym, ◌∙◌, ap, List, ◌∷◌, some, arith, length,
  get_elem?, get_elem?_total,
}
use native.Mathlib.Nat.{mod-add-mod, mod-lt, mod-eq_of_lt, add-mod_left}
use native.Mathlib.Decide.{dec_le}
use dash_fabric.Base.Int.{ℤ, pos, inc64, max64}
use dash_fabric.Weaver.Balancer.{Replica, selected, round_robin_select, at_index}

-- The counter after so many calls of Select.
unfoldable pub counter_after : ℕ → ℤ → List Replica → ℤ
counter_after zero counter rs = counter
counter_after (suc k) counter rs = counter_after k (round_robin_select counter rs).0 rs

counter_after_lem :
    (k c : ℕ) (r : Replica) (rs : List Replica)
    → c + k ≤ max64
    → counter_after k (pos c) (r ∷ rs) ≡ pos (c + k)
unfolding counter_after round_robin_select
counter_after_lem zero c r rs h = ap pos (omega arith)
counter_after_lem (suc k) c r rs h =
    let e : inc64 (pos c) ≡ pos (suc c) = ground arith in
    rw e (counter_after_lem k (suc c) r rs (omega arith) ∙ ap pos (omega arith))

at_index_lem :
    (rs : List Replica) (i : ℕ) {x : Replica}
    → get_elem? rs i ≡ some x
    → at_index rs (pos i) ≡ some (selected x)
at_index_lem rs i h = rw (h, at_index)

select_at :
    (c : ℕ) (r : Replica) (rs : List Replica) {x : Replica}
    → get_elem? (r ∷ rs) (c % length (r ∷ rs)) ≡ some x
    → (round_robin_select (pos c) (r ∷ rs)).1 ≡ some (selected x)
unfolding round_robin_select
select_at c r rs {x} h = at_index_lem (r ∷ rs) (c % length (r ∷ rs)) {x = x} h

-- A call that comes so many calls later has the turn wanted.
turn : (c n j : ℕ) → j < n → (k : ℕ) × (k < n) × ((c + k) % n ≡ j)
turn c n j h =
    let s = c % n in
    let lt : s < n = mod-lt c (omega arith) in
    let there : s ≤ j → s + (j - s) ≡ j = λ le. omega (arith, le) in
    let around : s + (n + j - s) ≡ n + j = omega (arith, lt) in
    elim (dec_le s j) [
      | yes le ↦ (
        j - s,
        omega arith,
        sym (mod-add-mod c n (j - s)) ∙ ap (λ z. z % n) (there le) ∙ mod-eq_of_lt h,
      )
      | no gt ↦ (
        n + j - s,
        omega arith,
        sym (mod-add-mod c n (n + j - s))
            ∙ ap (λ z. z % n) around
            ∙ add-mod_left n j
            ∙ mod-eq_of_lt h,
      )
    ]

-- From any counter and for each replica of the list, one of the next calls of Select, as many as
-- there are replicas, returns that replica, while the counter does not overflow.
pub served_in_turn :
    (c : ℕ) (r : Replica) (rs : List Replica) (j : ℕ)
    → j < length (r ∷ rs)
    → c + length (r ∷ rs) ≤ max64
    → (x : Replica) × (k : ℕ) × (get_elem? (r ∷ rs) j ≡ some x)
      × (k < length (r ∷ rs))
      × ((round_robin_select (counter_after k (pos c) (r ∷ rs)) (r ∷ rs)).1 ≡ some (selected x))
served_in_turn c r rs j h m =
    let (x, e) = get_elem?_total (r ∷ rs) j h in
    let (k, lt, t) = turn c (length (r ∷ rs)) j h in
    (
      x,
      k,
      e,
      lt,
      rw (counter_after_lem k c r rs (omega arith)) (select_at (c + k) r rs {x = x} (rw t e)),
    )
