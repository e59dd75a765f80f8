-- ===== src/Fm/Dal/Dispatcher/Laws.antt =====
-- The counters of the dispatcher, and what an open breaker does to it.
use dash_fabric.Base.{
  not, ◌&&◌, ℕ, ◌≡◌, refl, sym, ◌∙◌, ap, subst, Bool, true, false, List, [], ◌∷◌, Option, none,
  some, arith, Bytes, bytes_eq, if◌then◌else◌, or_else, Bool-cases, if-elim, inl, inr,
  bytes_beq_iff,
}
use dash_fabric.Base.Map.{lookup, insert, lookup-insert}
use dash_fabric.Base.Int.{ℤ, inc64}
use dash_fabric.Fm.Resilience.Breaker.{CircuitBreaker, CallError, call, is_open}
use dash_fabric.Fm.Resilience.Retry.{Context, RetryError, attempt}
use dash_fabric.Fm.Dal.Dispatcher.{
  Dispatcher, DispatchError, ProgramError, Outcome, programmed, refused, breaker_open_for, Session,
  session_ctx, program, start, breaker_of, settle_call, if_refused, dispatch_with_resilience,
  try_fallbacks, dispatch, custom, dispatch_cancelled,
}

abbrev pub is_programmed : Outcome → Bool
is_programmed (programmed r) = true
is_programmed (refused e) = false

abbrev pub inc_if : Bool → ℤ → ℤ
inc_if b n = if b then inc64 n else n

-- What the counters of goals, failures and successes become, with the outcome.
abbrev pub Counts : {W Goal : Type 0} → ℤ → ℤ → ℤ → Bool → Dispatcher W Goal × W × Outcome → Type 0
Counts g f s fails r =
    (r.0.stats.goals_dispatched ≡ g)
    × (r.0.stats.failure_count ≡ inc_if (fails && not (is_programmed r.2)) f)
    × (r.0.stats.success_count ≡ inc_if (is_programmed r.2) s)

if_refused-Counts :
    {W Goal : Type 0} (g f s : ℤ) (r : Dispatcher W Goal × W × Outcome)
    (k : DispatchError → Dispatcher W Goal × W × Outcome)
    → Counts g f s false r
    → ((e : DispatchError)
        → Counts r.0.stats.goals_dispatched r.0.stats.failure_count r.0.stats.success_count true
            (k e))
    → Counts g f s true (if_refused r k)
if_refused-Counts g f s (d, w, programmed x) k (a, b, c) h = (a, b, c)
if_refused-Counts g f s (d, w, refused e) k (a, b, c) h =
    let (a', b', c') = h e in
    (
      a' ∙ a,
      b' ∙ ap (inc_if (not (is_programmed (k e).2))) b,
      c' ∙ ap (inc_if (is_programmed (k e).2)) c,
    )

module _ {W Goal : Type 0} (clock : W → ℕ) (ctx : Context W) where
  settle_call-Counts :
      (d : Dispatcher W Goal) (vendor : Bytes) (cb : CircuitBreaker) (s : Session W)
      (err : Option (CallError (RetryError ProgramError)))
      → Counts d.stats.goals_dispatched d.stats.failure_count d.stats.success_count false
          (settle_call d vendor (cb, s, err))
  settle_call-Counts d vendor cb s none = (refl, refl, refl)
  settle_call-Counts d vendor cb s (some e) = (refl, refl, refl)

  resilience-Counts :
      (d : Dispatcher W Goal) (vendor : Bytes) (goal : Goal) (w : W)
      → Counts d.stats.goals_dispatched d.stats.failure_count d.stats.success_count false
          (dispatch_with_resilience clock ctx d vendor goal w)
  unfolding dispatch_with_resilience
  resilience-Counts d vendor goal w =
      let cb = breaker_of d vendor in
      elim (Bool-cases (is_open cb.state)) [
        | inl o ↦ rw (o, dispatch_with_resilience) (refl, refl, refl)
        | inr c ↦
            let tries = attempt (session_ctx ctx) d.max_retries (program d vendor goal) in
            let r = call (λ s. clock s.world) cb tries (start d w) in
            rw (c, dispatch_with_resilience) (settle_call-Counts d vendor r.0 r.1 r.2)
      ]

  fallbacks-Counts :
      (d : Dispatcher W Goal) (vendors : List Bytes) (goal : Goal) (w : W) (e : DispatchError)
      → Counts d.stats.goals_dispatched d.stats.failure_count d.stats.success_count true
          (try_fallbacks clock ctx d vendors goal w e)
  unfolding try_fallbacks
  fallbacks-Counts d [] goal w e = (refl, refl, refl)
  fallbacks-Counts d (v ∷ vs) goal w e =
      let counted : Dispatcher W Goal = record d {
        stats = record d.stats { fallback_activated = inc64 d.stats.fallback_activated };
      } in
      let r = dispatch_with_resilience clock ctx counted v goal w in
      if_refused-Counts d.stats.goals_dispatched d.stats.failure_count d.stats.success_count r
        (λ e'. try_fallbacks clock ctx r.0 vs goal r.1 e') (resilience-Counts counted v goal w)
        (λ e'. fallbacks-Counts r.0 vs goal r.1 e')

  dispatch-none : (d : Dispatcher W Goal) (w : W) → (dispatch clock ctx d none w).0 ≡ d
  unfolding dispatch
  dispatch-none d w =
      if-elim (λ (r : Dispatcher W Goal × W × Outcome). r.0 ≡ d) (ctx.done w) (λ _. refl)
        (λ _. refl)

  -- A dispatch of a goal in a context that is not done counts one goal, and then either one
  -- success, when it returns a result, or one failure, when it returns an error, whatever the
  -- breakers, the retries and the fallback vendors did. In a context that is done, or without a
  -- goal, a dispatch leaves the dispatcher as it was.
  dispatch-Counts :
      (d : Dispatcher W Goal) (goal : Goal) (w : W)
      → (ctx.done w ≡ false
          → Counts
              (inc64 d.stats.goals_dispatched)
              d.stats.failure_count
              d.stats.success_count
              true
              (dispatch clock ctx d (some goal) w))
        × (ctx.done w ≡ true
            → dispatch clock ctx d (some goal) w ≡ (d, w, refused dispatch_cancelled))
        × ((dispatch clock ctx d none w).0 ≡ d)
  unfolding dispatch
  dispatch-Counts d goal w = (
    λ f.
        let counted : Dispatcher W Goal = record d {
          stats = record d.stats { goals_dispatched = inc64 d.stats.goals_dispatched };
        } in
        let r = dispatch_with_resilience clock ctx counted custom goal w in
        let vs = or_else (lookup custom d.vendor_fallbacks) [] in
        rw (f, dispatch)
          (if_refused-Counts (inc64 d.stats.goals_dispatched) d.stats.failure_count
            d.stats.success_count r (λ e. try_fallbacks clock ctx r.0 vs goal r.1 e)
            (resilience-Counts counted custom goal w) (λ e. fallbacks-Counts r.0 vs goal r.1 e)),
    λ t. rw (t, dispatch),
    dispatch-none d w,
  )

  -- The breaker of the vendor that every dispatch uses is open, and no vendor stands in for it.
  pub record IsShut (d : Dispatcher W Goal) : Type 0 where
    pub breaker : CircuitBreaker
    pub has_breaker : lookup custom d.circuit_breakers ≡ some breaker
    pub opened : is_open breaker.state ≡ true
    pub no_fallback : or_else (lookup custom d.vendor_fallbacks) [] ≡ []

  abbrev counted_open : Dispatcher W Goal → CircuitBreaker → Dispatcher W Goal
  counted_open d cb = record d {
    circuit_breakers = insert custom cb d.circuit_breakers;
    stats = record d.stats { circuit_open_count = inc64 d.stats.circuit_open_count };
  }

  resilience_shut :
      (d : Dispatcher W Goal) (goal : Goal) (w : W) (cb : CircuitBreaker)
      → lookup custom d.circuit_breakers ≡ some cb
      → is_open cb.state ≡ true
      → dispatch_with_resilience clock ctx d custom goal w
        ≡ (counted_open d cb, w, refused (breaker_open_for custom))
  unfolding dispatch_with_resilience
  resilience_shut d goal w cb h o = rw (h, dispatch_with_resilience) (rw o)

  -- The dispatcher after a dispatch that an open breaker refused.
  abbrev turned_away : Dispatcher W Goal → CircuitBreaker → Dispatcher W Goal
  turned_away d cb = record d {
    circuit_breakers = insert custom cb d.circuit_breakers;
    stats = record d.stats {
      goals_dispatched = inc64 d.stats.goals_dispatched;
      circuit_open_count = inc64 d.stats.circuit_open_count;
      failure_count = inc64 d.stats.failure_count;
    };
  }

  shut_dispatch :
      (d : Dispatcher W Goal) (goal : Goal) (w : W) (s : IsShut d)
      → ctx.done w ≡ false
      → dispatch clock ctx d (some goal) w
        ≡ (turned_away d s.breaker, w, refused (breaker_open_for custom))
  unfolding dispatch try_fallbacks
  shut_dispatch d goal w s f =
      let counted : Dispatcher W Goal = record d {
        stats = record d.stats { goals_dispatched = inc64 d.stats.goals_dispatched };
      } in
      rw (f, dispatch)
        (rw (resilience_shut counted goal w s.breaker s.has_breaker s.opened) (rw s.no_fallback))

  turned_away-IsShut : (d : Dispatcher W Goal) (s : IsShut d) → IsShut (turned_away d s.breaker)
  turned_away-IsShut d s = record {
    breaker = s.breaker;
    has_breaker = grind (
      arith,
      lookup-insert custom custom s.breaker d.circuit_breakers,
      bytes_beq_iff custom custom,
    );
    opened = s.opened;
    no_fallback = s.no_fallback;
  }

  step-IsShut :
      (d : Dispatcher W Goal) (goal : Option Goal) (w : W)
      → IsShut d
      → IsShut (dispatch clock ctx d goal w).0
  step-IsShut d none w s = subst IsShut (sym (dispatch-none d w)) s
  step-IsShut d (some goal) w s = elim (Bool-cases (ctx.done w)) [
    | inl t ↦ subst (λ r. IsShut r.0) (sym ((dispatch-Counts d goal w).1 t)) s
    | inr f ↦ subst (λ r. IsShut r.0) (sym (shut_dispatch d goal w s f)) (turned_away-IsShut d s)
  ]

  -- A history of dispatches, each in the world that it finds.
  unfoldable pub dispatches : Dispatcher W Goal → List (Option Goal × W) → Dispatcher W Goal
  dispatches d [] = d
  dispatches d ((goal, w) ∷ l) = dispatches (dispatch clock ctx d goal w).0 l

  dispatches-IsShut :
      (d : Dispatcher W Goal) (l : List (Option Goal × W)) → IsShut d → IsShut (dispatches d l)
  unfolding dispatches
  dispatches-IsShut d [] s = s
  dispatches-IsShut d ((goal, w) ∷ l) s =
      dispatches-IsShut (dispatch clock ctx d goal w).0 l (step-IsShut d goal w s)

  -- Once the breaker of the vendor "Custom" is open, and no vendor stands in for "Custom", every
  -- later dispatch of a goal is refused and leaves the world as it was: no plugin is called. This
  -- holds after any number of dispatches and at any time, also long after the breaker's time-out.
  pub shut_forever :
      (d : Dispatcher W Goal) (l : List (Option Goal × W)) (goal : Goal) (w : W)
      → IsShut d
      → ctx.done w ≡ false
      → let r = dispatch clock ctx (dispatches d l) (some goal) w in
        (r.1 ≡ w) × (r.2 ≡ refused (breaker_open_for custom))
  shut_forever d l goal w s f =
      let e = shut_dispatch (dispatches d l) goal w (dispatches-IsShut d l s) f in
      (ap (λ r. r.1) e, ap (λ r. r.2) e)
