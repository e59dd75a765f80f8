-- ===== src/Weaver/Timeout/Bounds.antt =====
-- How long an attempt may take.
use dash_fabric.Base.{
  ℕ, zero, suc, ◌-◌, ◌*◌, ◌/◌, ◌≤◌, ◌<◌, ◌≡◌, refl, some, arith, leb, ltb, inl, inr, Bool-cases, ap,
  leb→le, ◌∙◌,
}
use native.Mathlib.Nat.{div-le_self, mul-div-le, mul-le-mul_left}
use dash_fabric.Base.Int.{ℤ, pos, negsuc, add64, sub64, max64, pos_part, since}
use dash_fabric.Weaver.Timeout.{
  TimeoutConfig, calculate_attempt_timeout, timeout_for, div, divided, clamp, overhead,
}

sub64_pos : (a b : ℕ) → b ≤ a → a ≤ max64 → sub64 (pos a) (pos b) ≡ pos (a - b)
sub64_pos a b h k = ground arith

sub64_neg : (a b : ℕ) → a < b → b ≤ max64 → sub64 (pos a) (pos b) ≡ negsuc (b - a - 1)
sub64_neg a b h k = ground arith

attempts_left :
    (m c : ℕ)
    → 1 ≤ c
    → c ≤ m
    → m ≤ max64
    → add64 (sub64 (pos m) (pos c)) (pos 1) ≡ pos (suc (m - c))
attempts_left m c h k l = ground (arith, sub64_pos m c k l)

clamp_pos : (limit p : ℕ) → (r : ℕ) × (clamp (pos limit) (pos p) ≡ pos r) × (r ≤ limit) × (r ≤ p)
clamp_pos limit p = elim (Bool-cases (ltb limit p)) [
  | inl h ↦ (limit, ground arith, omega arith, ground arith)
  | inr h ↦ (p, ground arith, ground arith, omega arith)
]

clamp_negsuc : (limit n : ℕ) → clamp (pos limit) (negsuc n) ≡ pos 0
clamp_negsuc limit n = ground arith

-- What is left of a quotient is at most it, and at most the limit.
clamp_bounds :
    (limit q : ℕ)
    → q ≤ max64
    → (r : ℕ) × (clamp (pos limit) (sub64 (pos q) overhead) ≡ pos r) × (r ≤ limit) × (r ≤ q)
clamp_bounds limit q h = elim (Bool-cases (leb 50000000 q)) [
  | inl l ↦
      let (r, e, b, c) = clamp_pos limit (q - 50000000) in
      (r, ap (clamp (pos limit)) (sub64_pos q 50000000 (leb→le 50000000 q l) h) ∙ e, b, omega arith)
  | inr l ↦ (
    0,
    ap (clamp (pos limit)) (sub64_neg q 50000000 (ground arith) (omega arith))
        ∙ clamp_negsuc limit (50000000 - q - 1),
    omega arith,
    omega arith,
  )
]

-- An attempt's share of a time that is left, with `k` attempts after it.
share :
    (limit n k : ℕ)
    → n ≤ max64
    → (r : ℕ) × (divided (pos limit) (div n (pos (suc k))) ≡ some (pos r))
      × (r ≤ limit)
      × (suc k * r ≤ n)
share limit n k h =
    let fits = mul-div-le n (suc k) in
    let (r, e, b, c) = clamp_bounds limit (n / suc k) (omega (arith, div-le_self n (suc k))) in
    (r, ap some e, b, omega (arith, mul-le-mul_left (suc k) c, fits))

since-le : (a b : ℕ) → pos_part (since a b) ≤ max64
unfolding since
since-le a b = ground arith

since-sub : (a b : ℕ) → pos_part (since a b) ≤ a - b
unfolding since
since-sub a b = ground arith

timeout-share :
    (config : TimeoutConfig) (limit k : ℕ) (left : ℤ)
    → config.replica_timeout ≡ pos limit
    → pos_part left ≤ max64
    → (r : ℕ) × (timeout_for config left (pos (suc k)) ≡ some (pos r))
      × (r ≤ limit)
      × (suc k * r ≤ pos_part left)
unfolding timeout_for
timeout-share config limit k (negsuc n) e h = (0, refl, omega arith, omega arith)
timeout-share config limit k (pos zero) e h = (0, refl, omega arith, omega arith)
timeout-share config limit k (pos (suc n)) e h = rw e (share limit (suc n) k h)

-- An attempt `c` of `m`, with a limit for each attempt that is not negative, gets a time that is at
-- most the limit; and as often as there are attempts left, itself included, it fits into the time
-- that is left to the deadline. A deadline that has passed leaves no time.
pub fair_share :
    (config : TimeoutConfig) (limit now deadline m c : ℕ)
    → config.replica_timeout ≡ pos limit
    → 1 ≤ c
    → c ≤ m
    → m ≤ max64
    → (r : ℕ) × (calculate_attempt_timeout config now deadline (pos m) (pos c) ≡ some (pos r))
      × (r ≤ limit)
      × (suc (m - c) * r ≤ deadline - now)
unfolding calculate_attempt_timeout
fair_share config limit now deadline m c e h k l =
    let (r, eq, b, s) =
      timeout-share config limit (m - c) (since deadline now) e (since-le deadline now) in
    (
      r,
      ap (timeout_for config (since deadline now)) (attempts_left m c h k l) ∙ eq,
      b,
      omega (arith, s, since-sub deadline now),
    )
