-- ===== src/Fm/Dal/Factory/Laws.antt =====
-- The dispatcher over the plugins of the factory, from the first goal on.
use dash_fabric.Base.{
  ℕ, ◌≡◌, ap, refl, ◌∙◌, Bool, true, false, List, [], ◌∷◌, Option, none, some, Bytes, bytes_eq,
  arith, map, ◌==◌, ◌&&◌, not, is_some,
}
use dash_fabric.Base.Map.{Map, lookup, insert, lookup-insert_self}
use dash_fabric.Base.Int.{ℤ, pos, inc64}
use dash_fabric.Fm.Gm.Types.{PerEniGoalState}
use dash_fabric.Fm.Resilience.Breaker.{
  CircuitBreaker, call, state_closed, record_success, try_half_open, new_circuit_breaker,
}
use dash_fabric.Fm.Resilience.Retry.{Context, RetryError, attempt, attempt_loop}
use dash_fabric.Fm.Dal.Plugins.{get, found, register}
use dash_fabric.Fm.Dal.Dispatcher.{
  Dispatcher, Outcome, ProgramError, ProgramResult, programmed, custom, new, Session, session_ctx,
  program, start, breaker_of, settle_call, dispatch_with_resilience, dispatch, Plugin,
}
use dash_fabric.Fm.Dal.Factory.{
  Made, made, not_made, custom_plugin, create_plugin, initialize_default_plugins,
}

-- A closed breaker lets a call through and counts its success.
call_closed :
    {W E : Type 0} (clock : W → ℕ) (cb : CircuitBreaker) (fn : W → W × Option E) (w : W)
    → cb.state ≡ state_closed
    → (fn w).1 ≡ none
    → call clock cb fn w ≡ (record_success cb, (fn w).0, none)
unfolding call try_half_open
call_closed clock cb fn w c n = rw c (rw n refl)

record_success-closed :
    (cb : CircuitBreaker) → cb.state ≡ state_closed → (record_success cb).state ≡ state_closed
unfolding record_success
record_success-closed cb c = ground (arith, c)

-- An attempt whose first round succeeds.
attempt_once :
    {W E : Type 0} (ctx : Context W) (m : ℤ) (n : ℕ) (fn : W → W × Option E) (w : W)
    → m ≡ pos n
    → ctx.done w ≡ false
    → (fn w).1 ≡ none
    → attempt ctx m fn w ≡ ((fn w).0, none)
unfolding attempt attempt_loop
attempt_once ctx m n fn w b d e = rw b (rw d (rw e refl))

module _ {W : Type 0} (clock : W → ℕ) (ctx : Context W) (ctx_error : W → Bytes) where
  -- What the plugin reports of a goal.
  abbrev pub applied : PerEniGoalState → ProgramResult
  applied goal = record {
    eni_id = goal.eni_id;
    success = true;
    error = [];
    applied_version = goal.version;
    duration = pos 0;
  }

  record IsReady (d : Dispatcher W PerEniGoalState) : Type 0 where
    plugged : get d.registry custom ≡ found (custom_plugin ctx ctx_error)
    retries : d.max_retries ≡ pos 3
    closed : (breaker_of d custom).state ≡ state_closed

  program-applied :
      (d : Dispatcher W PerEniGoalState) (goal : PerEniGoalState) (s : Session W)
      → get d.registry custom ≡ found (custom_plugin ctx ctx_error)
      → ctx.done s.world ≡ false
      → program d custom goal s ≡ (record s { result = some (applied goal) }, none)
  unfolding program custom_plugin
  program-applied d goal s p f = rw (p, program) (rw f refl)

  -- The dispatcher after a goal that was programmed.
  abbrev next : Dispatcher W PerEniGoalState → Dispatcher W PerEniGoalState
  next d = record d {
    circuit_breakers = insert custom (record_success (breaker_of d custom)) d.circuit_breakers;
    stats = record d.stats {
      goals_dispatched = inc64 d.stats.goals_dispatched;
      success_count = inc64 d.stats.success_count;
    };
  }

  abbrev session_of : Dispatcher W PerEniGoalState → PerEniGoalState → W → Session W
  session_of d goal w = record (start d w) { result = some (applied goal) }

  abbrev tries :
      Dispatcher W PerEniGoalState
      → PerEniGoalState
      → Session W
      → Session W × Option (RetryError ProgramError)
  tries d goal = attempt (session_ctx ctx) d.max_retries (program d custom goal)

  tries_once :
      (d : Dispatcher W PerEniGoalState) (goal : PerEniGoalState) (w : W)
      → IsReady d
      → ctx.done w ≡ false
      → tries d goal (start d w) ≡ (session_of d goal w, none)
  tries_once d goal w r f =
      let p = program-applied d goal (start d w) r.plugged f in
      attempt_once (session_ctx ctx) d.max_retries 3 (program d custom goal) (start d w) r.retries f
        (ap (λ x. x.1) p)
      ∙ ap (λ x. (x.0, none)) p

  call_once :
      (d : Dispatcher W PerEniGoalState) (goal : PerEniGoalState) (w : W)
      → IsReady d
      → ctx.done w ≡ false
      → call (λ s. clock s.world) (breaker_of d custom) (tries d goal) (start d w)
        ≡ (record_success (breaker_of d custom), session_of d goal w, none)
  call_once d goal w r f =
      let t = tries_once d goal w r f in
      call_closed (λ s. clock s.world) (breaker_of d custom) (tries d goal) (start d w) r.closed
        (ap (λ x. x.1) t)
      ∙ ap (λ x. (record_success (breaker_of d custom), x.0, none)) t

  resilience_ready :
      (d : Dispatcher W PerEniGoalState) (goal : PerEniGoalState) (w : W)
      → IsReady d
      → ctx.done w ≡ false
      → dispatch_with_resilience clock ctx d custom goal w
        ≡ settle_call d custom (record_success (breaker_of d custom), session_of d goal w, none)
  unfolding dispatch_with_resilience
  resilience_ready d goal w r f =
      rw (r.closed, dispatch_with_resilience) (ap (settle_call d custom) (call_once d goal w r f))

  dispatch_ready :
      (d : Dispatcher W PerEniGoalState) (goal : PerEniGoalState) (w : W)
      → IsReady d
      → ctx.done w ≡ false
      → dispatch clock ctx d (some goal) w ≡ (next d, w, programmed (some (applied goal)))
  unfolding dispatch
  dispatch_ready d goal w r f =
      let counted = record d {
        stats = record d.stats { goals_dispatched = inc64 d.stats.goals_dispatched };
      } in
      let ready : IsReady counted = record {
        plugged = r.plugged;
        retries = r.retries;
        closed = r.closed;
      } in
      rw (f, dispatch) (rw (resilience_ready counted goal w ready f) refl)

  next-IsReady : (d : Dispatcher W PerEniGoalState) → IsReady d → IsReady (next d)
  next-IsReady d r = record {
    plugged = r.plugged;
    retries = r.retries;
    closed =
        rw (lookup-insert_self custom (record_success (breaker_of d custom)) d.circuit_breakers)
          (record_success-closed (breaker_of d custom) r.closed);
  }

  -- Goals that are dispatched one after the other, with the outcome of each.
  abbrev pub dispatch_all :
      Dispatcher W PerEniGoalState → List PerEniGoalState → W → W × List Outcome
  dispatch_all d [] w = (w, [])
  dispatch_all d (g ∷ gs) w =
      let (d', w', o) = dispatch clock ctx d (some g) w in
      let (w'', os) = dispatch_all d' gs w' in (w'', o ∷ os)

  all_ready :
      (d : Dispatcher W PerEniGoalState) (goals : List PerEniGoalState) (w : W)
      → IsReady d
      → ctx.done w ≡ false
      → dispatch_all d goals w ≡ (w, map (λ g. programmed (some (applied g))) goals)
  all_ready d [] w r f = refl
  all_ready d (g ∷ gs) w r f =
      rw (dispatch_ready d g w r f) (rw (all_ready (next d) gs w (next-IsReady d r) f) refl)

  -- A dispatcher with the plugins that the factory registers reports every goal as programmed, in
  -- its version, as long as the context is not done: no breaker opens, nothing is tried again, and
  -- no device is asked.
  pub custom_programs :
      (goals : List PerEniGoalState) (w : W)
      → ctx.done w ≡ false
      → let r = initialize_default_plugins ctx ctx_error [] in
        (r.1 ≡ none)
        × (dispatch_all (new r.0) goals w ≡ (w, map (λ g. programmed (some (applied g))) goals))
  unfolding initialize_default_plugins create_plugin register new lookup insert get
      new_circuit_breaker
  custom_programs goals w f = (
    refl,
    all_ready (new ((custom, custom_plugin ctx ctx_error) ∷ [])) goals w
        (record { plugged = refl; retries = refl; closed = refl }) f,
  )

abbrev pub is_made : {A : Type 0} → Made A → Bool
is_made (made a) = true
is_made (not_made e) = false

module _ {W : Type 0} (ctx : Context W) (ctx_error : W → Bytes) where
  -- The factory makes a plugin exactly for the vendor Custom, and once: only while the registry has
  -- no plugin for it. If it does not, the registry stays as it was.
  pub create_plugin_iff :
      (registry : Map Bytes (Plugin W PerEniGoalState)) (vendor : Bytes)
      → let r = create_plugin ctx ctx_error registry vendor in
        (is_made r.1 ≡ (vendor == custom && not (is_some (lookup vendor registry))))
        × (is_made r.1 ≡ false → r.0 ≡ registry)
  unfolding create_plugin register
  create_plugin_iff registry [] = (refl, λ h. refl)
  create_plugin_iff registry (b ∷ bs) = ground arith
