-- ===== src/Weaver/Retry/Laws.antt =====
-- How often Execute calls the function, and when it gives up.
use dash_fabric.Base.{
  ℕ, zero, suc, ◌+◌, ◌≤◌, ◌≡◌, refl, Bool, true, false, Option, none, some, arith, if-elim,
}
use dash_fabric.Base.Int.{pos, negsuc}
use dash_fabric.Weaver.Retry.{ExecuteError, failed, after_wait, after_call, execute_loop, execute}

differ :
    {E : Type 0} (retryable : E → Bool) (e e' : E)
    → retryable e ≡ false
    → some (failed e) ≡ some (failed e')
    → retryable e' ≡ true
    → ⊥
differ retryable e e' f p t = cc

module _ {W E : Type 0} (retryable : E → Bool) (wait : ℕ → W → W × Bool)
    (fn : W → W × Option E) where
  -- The function and the wait over a world that counts the calls of the function.
  abbrev pub counted : W × ℕ → (W × ℕ) × Option E
  counted (w, k) = (((fn w).0, suc k), (fn w).1)

  abbrev pub counted_wait : ℕ → W × ℕ → (W × ℕ) × Bool
  counted_wait a (w, k) = (((wait a w).0, k), (wait a w).1)

  -- From `k` calls on, with `n` rounds left: at most `n` more; and an error worth another attempt is
  -- returned only after all of them.
  pub record Bounded (k n : ℕ) (r : (W × ℕ) × Option (ExecuteError E)) : Type 0 where
    pub called : suc k ≤ r.0.1
    pub calls : r.0.1 ≤ k + n
    pub spent : (e : E) → r.1 ≡ some (failed e) → retryable e ≡ true → r.0.1 ≡ k + n

  after_call-Bounded :
      (k n : ℕ) (w : W) (o : Option E) (go : W × ℕ → E → (W × ℕ) × Option (ExecuteError E))
      → ((e : E) → Bounded k (suc n) (go (w, suc k) e))
      → Bounded k (suc n) (after_call retryable counted_wait ((w, suc k), o) go)
  after_call-Bounded k n w none go h = record {
    called = omega arith;
    calls = omega arith;
    spent = λ e p. cc;
  }
  after_call-Bounded k n w (some e) go h =
      if-elim (Bounded k (suc n)) (retryable e) (λ _. h e)
        (λ f. record {
          called = omega arith;
          calls = omega arith;
          spent = λ e' p t. absurd (differ retryable e e' f p t);
        })

  after_wait-Bounded :
      (k n : ℕ) (w : W) (b : Bool) (go : W × ℕ → (W × ℕ) × Option (ExecuteError E))
      → Bounded (suc k) (suc n) (go (w, suc k))
      → Bounded k (suc (suc n)) (after_wait retryable counted_wait ((w, suc k), b) go)
  after_wait-Bounded k n w true go h = record {
    called = omega arith;
    calls = omega arith;
    spent = λ e p. cc;
  }
  after_wait-Bounded k n w false go h = record {
    called = omega (arith, h.called);
    calls = omega (arith, h.calls);
    spent = λ e p t. omega (arith, h.spent e p t);
  }

  loop-Bounded :
      (n a : ℕ) (last : Option (ExecuteError E)) (w : W) (k : ℕ)
      → Bounded k (suc n) (execute_loop retryable counted_wait counted (suc n) a last (w, k))
  unfolding execute_loop
  loop-Bounded zero a last w k =
      after_call-Bounded k 0 (fn w).0 (fn w).1 (λ w' e. (w', some (failed e)))
        (λ e. record { called = omega arith; calls = omega arith; spent = λ e' p t. omega arith })
  loop-Bounded (suc n) a last w k =
      let (w', o) = fn w in
      after_call-Bounded k (suc n) w' o
        (λ v e.
          after_wait retryable counted_wait (counted_wait a v)
            (execute_loop retryable counted_wait counted (suc n) (a + 1) (some (failed e))))
        (λ e.
          after_wait-Bounded k n (wait a w').0 (wait a w').1
            (execute_loop retryable counted_wait counted (suc n) (a + 1) (some (failed e)))
            (loop-Bounded n (a + 1) (some (failed e)) (wait a w').0 (suc k)))

  -- With MaxAttempts at `suc n`, Execute calls the function at least once and at most `suc n` times,
  -- and it returns an error that is worth another attempt only after all of them. With a negative
  -- MaxAttempts it calls nothing and returns no error.
  pub execute-Bounded :
      (n : ℕ) (w : W)
      → Bounded 0 (suc n) (execute retryable counted_wait counted (pos (suc n)) (w, 0))
        × (execute retryable counted_wait counted (negsuc n) (w, 0) ≡ ((w, 0), none))
  unfolding execute execute_loop
  execute-Bounded n w = (loop-Bounded n 0 none w 0, refl)
