-- ===== src/Fm/Dal/Pool/Tests.antt =====
-- A run of a pool of one worker: a goal is submitted, taken and answered while a second one waits.
use dash_fabric.Base.{ℕ, refl, Bool, true, false, [], ◌∷◌, some, arith}
use dash_fabric.Base.Int.{pos}
use dash_fabric.Fm.Dal.Pool.{
  PluginPool, GoalJob, waiting, answered, new_plugin_pool, Reach, start, submit, enqueue, take_job,
  answer, here, onward, started, enqueued, settled,
}
use dash_fabric.Fm.Dal.Pool.Laws.{Inv, UnlessPanic, Reach-Inv}

abbrev job : ℕ → ℕ → GoalJob ℕ
job g c = record { goal = g; result_chan = c }

abbrev busy_pool : PluginPool ℕ Bool
busy_pool = record {
  workers = 1;
  job_queue = job 8 1 ∷ [];
  queue_closed = false;
  running = true;
  cancelled = false;
  idle = 1;
  busy = [];
  entering = [];
  channels = answered true ∷ waiting ∷ [];
}

busy_run : Reach (new_plugin_pool (pos 1)) (some busy_pool)
unfolding new_plugin_pool started enqueued settled
busy_run =
    onward
      (onward
        (onward
          (onward
            (onward (onward (onward here (start refl)) (submit 7 refl refl))
              (enqueue [] 7 [] refl refl (omega arith)))
            (submit 8 refl refl))
          (enqueue [] 8 [] refl refl (omega arith)))
        (take_job 0 (job 7 0) (job 8 1 ∷ []) refl refl))
      (answer [] (job 7 0) [] true refl)

Reach-Inv_example : UnlessPanic Inv (some busy_pool)
Reach-Inv_example = Reach-Inv (pos 1) busy_run
