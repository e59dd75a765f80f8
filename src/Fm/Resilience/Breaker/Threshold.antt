-- ===== src/Fm/Resilience/Breaker/Threshold.antt =====
-- How the circuit breaker counts failures up to its threshold.
use dash_fabric.Base.{
  ℕ, zero, suc, ◌+◌, ◌≤◌, ◌<◌, ◌≡◌, refl, Option, some, arith, if◌then◌else◌, ap, nat_beq, subst,
}
use native.Mathlib.Nat.{add-zero}
use native.Mathlib.Decide.{dec_lt}
use dash_fabric.Base.Int.{pos, max64}
use dash_fabric.Fm.Resilience.Breaker.{
  state_closed, state_open, CircuitBreaker, is_open, record_failure, call,
}
use dash_fabric.Fm.Resilience.Breaker.Laws.{call_running}

record_failure_counts :
    (cb : CircuitBreaker) (now c t : ℕ)
    → cb.state ≡ state_closed
    → cb.failure_count ≡ pos c
    → cb.failure_threshold ≡ pos t
    → t ≤ max64
    → c < t
    → let cb' = record_failure cb now in
      (cb'.failure_count ≡ pos (suc c))
      × (cb'.failure_threshold ≡ pos t)
      × (cb'.state ≡ (if nat_beq (suc c) t then state_open else state_closed))
unfolding record_failure
record_failure_counts cb now c t st fc ft hm hc = (ground arith, ground arith, ground arith)

module _ {ℓ} {W E : Type ℓ} (clock : W → ℕ) where
  -- The breaker and the world after so many calls.
  unfoldable pub calls : ℕ → CircuitBreaker → (W → W × Option E) → W → CircuitBreaker × W
  calls zero cb fn w = (cb, w)
  calls (suc n) cb fn w = let r = call clock cb fn w in calls n r.0 fn r.1

  module _ (fn : W → W × Option E) (fails : (w : W) → (x : E) × ((fn w).1 ≡ some x)) where
    call_failing :
        (cb : CircuitBreaker) (w : W)
        → cb.state ≡ state_closed
        → ((call clock cb fn w).0 ≡ record_failure cb (clock (fn w).0))
          × ((call clock cb fn w).1 ≡ (fn w).0)
    call_failing cb w c =
        let (x, e) = fails w in rw (call_running clock cb fn w (ap is_open c), e) (refl, refl)

    -- From `c` failures in a row on, the breaker counts every failure and opens at the threshold.
    counts_failures :
        (n c t : ℕ) (cb : CircuitBreaker) (w : W)
        → cb.state ≡ state_closed
        → cb.failure_count ≡ pos c
        → cb.failure_threshold ≡ pos t
        → t ≤ max64
        → c < t
        → c + n ≤ t
        → let cb' = (calls n cb fn w).0 in
          (cb'.failure_count ≡ pos (c + n))
          × (cb'.state ≡ (if nat_beq (c + n) t then state_open else state_closed))
    unfolding calls
    counts_failures zero c t cb w st fc ft hm hc hn = (rw (fc, add-zero), ground arith)
    counts_failures (suc n) c t cb w st fc ft hm hc hn =
        let (e0, e1) = call_failing cb w st in
        let (count, kept, next) = record_failure_counts cb (clock (fn w).0) c t st fc ft hm hc in
        let cb1 = (call clock cb fn w).0 in
        let w1 = (call clock cb fn w).1 in
        elim (dec_lt (suc c) t) [
          | yes p ↦
              let stays : cb1.state ≡ state_closed = rw e0 (ground arith) in
              let ih =
                counts_failures n (suc c) t cb1 w1 stays (rw e0 count) (rw e0 kept) hm p
                  (omega arith) in
              let same : suc c + n ≡ c + suc n = omega arith in
              subst
                (λ k.
                  ((calls n cb1 fn w1).0.failure_count ≡ pos k)
                  × ((calls n cb1 fn w1).0.state
                      ≡ (if nat_beq k t then state_open else state_closed)))
                same ih
          | no p ↦
              let done : n ≡ 0 = omega arith in
              let last : c + suc n ≡ suc c = omega arith in rw (last, done) (rw e0 (count, next))
        ]

    -- A closed breaker with no failure counted, and with a failure threshold from 1 to the greatest
    -- int64, stays closed for fewer calls than its threshold of a function that always fails, and
    -- is open after as many as the threshold.
    pub opens_at_threshold :
        (n t : ℕ) (cb : CircuitBreaker) (w : W)
        → cb.state ≡ state_closed
        → cb.failure_count ≡ pos 0
        → cb.failure_threshold ≡ pos t
        → t ≤ max64
        → 0 < t
        → n ≤ t
        → (calls n cb fn w).0.state ≡ (if nat_beq n t then state_open else state_closed)
    opens_at_threshold n t cb w st fc ft hm ht hn =
        let (_, state) = counts_failures n 0 t cb w st fc ft hm ht (omega arith) in
        let e : 0 + n ≡ n = omega arith in
        subst (λ k. (calls n cb fn w).0.state ≡ (if nat_beq k t then state_open else state_closed))
          e state
