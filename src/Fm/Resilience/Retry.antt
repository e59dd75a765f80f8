-- ===== src/Fm/Resilience/Retry.antt =====
-- src/FM/pkg/resilience/retry.go: Attempt. The length of a wait is not modelled: a wait takes the
-- world on, and tells whether the context was done before it was over.
use dash_fabric.Base.{
  ℕ, zero, suc, ◌+◌, ◌<◌, ◌≡◌, refl, ◌∙◌, ap, Bool, true, false, inl, inr, Option, none, some,
  arith, Bool-cases, Option-cases,
}
use dash_fabric.Base.Int.{ℤ, pos, negsuc, ltb_ℤ}

-- What `Attempt` returns: the context was done, or all attempts failed, the last with an error.
pub data RetryError {ℓ} (E : Type ℓ) : Type ℓ where
  cancelled : RetryError E
  exhausted : Option E → RetryError E

-- A context and the clock of a world: `done` asks ctx.Done(), and `wait` waits after an attempt.
pub record Context {ℓ} (W : Type ℓ) : Type ℓ where
  pub done : W → Bool
  pub wait : ℕ → W → W × Bool

module _ {ℓ} {W E : Type ℓ} (ctx : Context W) (max_retries : ℤ) (fn : W → W × Option E) where
  -- The loop from `attempt` with so many rounds left; `last` is the last error.
  unfoldable pub attempt_loop : ℕ → ℕ → Option E → W → W × Option (RetryError E)
  attempt_loop zero attempt last w = (w, some (exhausted last))
  attempt_loop (suc n) attempt last w = elim (ctx.done w) [
    | true ↦ (w, some cancelled)
    | false ↦ elim (fn w).1 [
      | none ↦ ((fn w).0, none)
      | some x ↦ elim (ltb_ℤ (pos attempt) max_retries) [
        | false ↦ attempt_loop n (attempt + 1) (some x) (fn w).0
        | true ↦ elim (ctx.wait attempt (fn w).0).1 [
          | true ↦ ((ctx.wait attempt (fn w).0).0, some cancelled)
          | false ↦ attempt_loop n (attempt + 1) (some x) (ctx.wait attempt (fn w).0).0
        ]
      ]
    ]
  ]

  -- attempt <= MaxRetries holds for so many rounds from 0
  abbrev rounds : ℤ → ℕ
  rounds (pos n) = suc n
  rounds (negsuc n) = 0

  unfoldable pub attempt : W → W × Option (RetryError E)
  attempt w = attempt_loop (rounds max_retries) 0 none w

  -- `k` attempts in a row failed, from `attempt` on, the context is not done before any of them or
  -- in a wait after one, and they led to the world `w'`.
  pub data Failed : ℕ → ℕ → W → W → Type ℓ where
    start : (a : ℕ) (w : W) → Failed 0 a w w
    waited :
        {k a : ℕ} {w w' : W} (x : E)
        → ctx.done w ≡ false
        → (fn w).1 ≡ some x
        → ltb_ℤ (pos a) max_retries ≡ true
        → (ctx.wait a (fn w).0).1 ≡ false
        → Failed k (a + 1) (ctx.wait a (fn w).0).0 w'
        → Failed (suc k) a w w'
    final :
        {a : ℕ} {w : W} (x : E)
        → ctx.done w ≡ false
        → (fn w).1 ≡ some x
        → ltb_ℤ (pos a) max_retries ≡ false
        → Failed 1 a w (fn w).0

  -- The error of the last of these calls, or `none` where there was no call.
  abbrev pub last_error : {k a : ℕ} {w w' : W} → Option E → Failed k a w w' → Option E
  last_error e (start a w) = e
  last_error e (waited x d h m c f) = last_error (some x) f
  last_error e (final x d h m) = some x

  -- After a call it does not matter what there was before.
  last_error-some :
      {k a : ℕ} {w w' : W} (e e' : Option E) (f : Failed k a w w')
      → 0 < k
      → last_error e f ≡ last_error e' f
  last_error-some e e' (start a w) h = absurd (omega arith)
  last_error-some e e' (waited x d p m c f) h = refl
  last_error-some e e' (final x d p m) h = refl

  -- A run of `Attempt`: success after at most `n - 1` failures, failure after exactly `n`, or a
  -- context that was done, which calls nothing further.
  pub data Run (n a : ℕ) (w : W) : W × Option (RetryError E) → Type ℓ where
    succeeds :
        (k : ℕ) (w' : W)
        → k < n
        → Failed k a w w'
        → ctx.done w' ≡ false
        → (fn w').1 ≡ none
        → Run n a w ((fn w').0, none)
    fails :
        (w' : W) (last : Option E) (f : Failed n a w w')
        → last ≡ last_error none f
        → Run n a w (w', some (exhausted last))
    stops :
        (k : ℕ) (w' : W)
        → k < n
        → Failed k a w w'
        → ctx.done w' ≡ true
        → Run n a w (w', some cancelled)
    stops_waiting :
        (k b : ℕ) (w' : W) (x : E)
        → k < n
        → b ≡ a + k
        → Failed k a w w'
        → (fn w').1 ≡ some x
        → (ctx.wait b (fn w').0).1 ≡ true
        → Run n a w ((ctx.wait b (fn w').0).0, some cancelled)

  Run-waited :
      {n a : ℕ} {w : W} {r : W × Option (RetryError E)} (x : E)
      → ctx.done w ≡ false
      → (fn w).1 ≡ some x
      → ltb_ℤ (pos a) max_retries ≡ true
      → (ctx.wait a (fn w).0).1 ≡ false
      → 0 < n
      → Run n (a + 1) (ctx.wait a (fn w).0).0 r
      → Run (suc n) a w r
  Run-waited x d e l c m (succeeds k w' h f d' e') =
      succeeds (suc k) w' (omega arith) (waited x d e l c f) d' e'
  Run-waited x d e l c m (fails w' last f is_last) =
      fails w' last (waited x d e l c f) (is_last ∙ last_error-some none (some x) f m)
  Run-waited x d e l c m (stops k w' h f d') =
      stops (suc k) w' (omega arith) (waited x d e l c f) d'
  Run-waited x d e l c m (stops_waiting k b w' y h p f e' c') =
      stops_waiting (suc k) b w' y (omega arith) (omega arith) (waited x d e l c f) e' c'

  module _ (m : ℕ) (bound : max_retries ≡ pos m) where
    -- A round ends at once, or its call fails.
    round_cases :
        (n a : ℕ) (last : Option E) (w : W)
        → ((x : E)
            → ctx.done w ≡ false
            → (fn w).1 ≡ some x
            → Run (suc n) a w (attempt_loop (suc n) a last w))
        → Run (suc n) a w (attempt_loop (suc n) a last w)
    unfolding attempt_loop
    round_cases n a last w failing = elim (Bool-cases (ctx.done w)) [
      | inl d ↦ rw (d, attempt_loop) (stops 0 w (omega arith) (start a w) d)
      | inr d ↦ elim (Option-cases (fn w).1) [
        | inl e ↦ rw (d, attempt_loop) (rw e (succeeds 0 w (omega arith) (start a w) d e))
        | inr (x, e) ↦ failing x d e
      ]
    ]

    attempt_loop-Run :
        (n a : ℕ) (last : Option E) (w : W)
        → a + n ≡ m
        → Run (suc n) a w (attempt_loop (suc n) a last w)
    unfolding attempt_loop
    attempt_loop-Run zero a last w h = round_cases 0 a last w λ x d e.
        let over : ltb_ℤ (pos a) max_retries ≡ false = rw bound (ground arith) in
        rw (d, attempt_loop) (rw (e, over) (fails (fn w).0 (some x) (final x d e over) refl))
    attempt_loop-Run (suc n) a last w h = round_cases (suc n) a last w λ x d e.
        let more : ltb_ℤ (pos a) max_retries ≡ true = rw bound (ground arith) in
        elim (Bool-cases (ctx.wait a (fn w).0).1) [
          | inl c ↦
              rw (d, attempt_loop)
                (rw (e, more, c)
                  (stops_waiting 0 a w x (omega arith) (omega arith) (start a w) e c))
          | inr c ↦
              rw (d, attempt_loop)
                (rw (e, more, c)
                  (Run-waited x d e more c (omega arith)
                    (attempt_loop-Run n (a + 1) (some x) (ctx.wait a (fn w).0).0 (omega arith))))
        ]

    -- With MaxRetries at `m`, not negative, Attempt ends in one of four ways. It succeeds with the
    -- first call that does, after at most `m` failed ones; it fails after `m + 1` failed calls,
    -- with the last one's error; or it stops where the context is done, before a call or in the
    -- wait after one, and calls no more.
    pub attempt-Run : (w : W) → Run (suc m) 0 w (attempt w)
    unfolding attempt
    attempt-Run w =
        let e : rounds max_retries ≡ suc m = ap rounds bound in
        rw (e, attempt) (attempt_loop-Run m 0 none w (omega arith))
