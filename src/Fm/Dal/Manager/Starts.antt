-- ===== src/Fm/Dal/Manager/Starts.antt =====
-- What the start and the end of the manager do to its counters.
use dash_fabric.Base.{
  ◌≡◌, sym, ap, refl, true, false, List, ◌∷◌, Option, none, some, arith, inl, inr, if-elim, subst,
  if◌then◌else◌,
}
use dash_fabric.Base.Int.{pos}
use dash_fabric.Fm.Dal.Pool.{started, shut_down}
use dash_fabric.Fm.Dal.Manager.{
  DpuManager, ManagerError, already_running, not_running, start, stop, start_pool, shutdown_pool,
}
use dash_fabric.Fm.Dal.Manager.History.{
  to_stop, Answer, handled, replies, IsOwn, serve, Tally, Counted, handled_stop,
}

module _ {G : Type 0} where
  -- An answer of which the counters take no notice.
  pub unnoticed :
      (m m' : DpuManager G) (as' : List Answer) (a : Answer)
      → m'.pool.running ≡ m'.running
      → m'.stats ≡ m.stats
      → replies true a ≡ 0
      → replies false a ≡ 0
      → IsOwn a
      → Tally m as'
      → Tally m' (a ∷ as')
  unnoticed m m' as' a g s x y o t = record {
    submitted = t.submitted;
    agrees = g;
    submitted_is = rw s t.submitted_is;
    succeeded_is = rw (s, t.succeeded_is) (ap pos (omega arith));
    failed_is = rw (s, t.failed_is) (ap pos (omega arith));
    replied_le = omega arith;
    submitted_le = omega arith;
    own = (o, t.own);
  }

  -- What Start and Stop do while the manager runs exactly if its pool does.
  pub start_agreeing :
      (m : DpuManager G)
      → m.pool.running ≡ m.running
      → start m ≡ (
          if m.running
          then (m, some already_running)
          else (record m { running = true; pool = started m.pool }, none))
  unfolding start start_pool started
  start_agreeing m g = ground arith

  pub stop_agreeing :
      (m : DpuManager G)
      → m.pool.running ≡ m.running
      → stop m ≡ (
          if m.running
          then (if m.pool.queue_closed
              then none
              else some (record m { running = false; pool = shut_down m.pool }, none))
          else some (m, some not_running))
  unfolding stop shutdown_pool shut_down
  stop_agreeing m g = ground arith

  pub start-Tally :
      (m : DpuManager G) (as' : List Answer)
      → Tally m as'
      → Tally (start m).0 (handled (start m).1 ∷ as')
  unfolding started
  start-Tally m as' t = rw (start_agreeing m t.agrees) (
      if-elim (λ (r : DpuManager G × Option ManagerError). Tally r.0 (handled r.1 ∷ as')) m.running
        (λ _.
          unnoticed m m as' (handled (some already_running)) t.agrees refl refl refl (inl refl) t)
        (λ _.
          unnoticed m (record m { running = true; pool = started m.pool }) as' (handled none) refl
            refl refl refl tt t))

  pub stop-Counted :
      (m : DpuManager G) (as' : List Answer) → Tally m as' → Counted as' (serve m to_stop)
  unfolding shut_down
  stop-Counted m as' t =
      let P = λ (r : Option (DpuManager G × Option ManagerError)). Counted as' (handled_stop r) in
      subst P (sym (stop_agreeing m t.agrees)) (
        if-elim P m.running
          (λ _.
            if-elim P m.pool.queue_closed (λ _. tt)
              (λ _.
                unnoticed m (record m { running = false; pool = shut_down m.pool }) as'
                  (handled none) refl refl refl refl tt t))
          (λ _.
            unnoticed m m as' (handled (some not_running)) t.agrees refl refl refl (inr refl) t))
