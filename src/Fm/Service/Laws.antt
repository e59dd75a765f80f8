-- ===== src/Fm/Service/Laws.antt =====
-- The services through starts and shutdowns.
use dash_fabric.Base.{
  ◌≡◌, sym, ◌∙◌, subst, refl, true, false, List, [], ◌∷◌, Option, none, some, Bytes, bytes_eq,
}
use dash_fabric.Base.Map.{lookup}
use dash_fabric.Fm.Gm.Manager.{GoalStateManager}
use dash_fabric.Fm.Gm.Manager as Gm
use dash_fabric.Fm.Resilience.Retry.{Context}
use dash_fabric.Fm.Dal.Pool.{started, shut_down}
use dash_fabric.Fm.Dal.Manager.{DpuManager}
use dash_fabric.Fm.Dal.Manager as Dal
use dash_fabric.Fm.Cm.Pipeline.{EventPipeline, no_stats}
use dash_fabric.Fm.Cm.Pipeline as Cm
use dash_fabric.Fm.Health.{HealthChecker, new_health_checker, is_ready}
use dash_fabric.Fm.Service.{
  Services, load_config, initialize_services, initialized, start, shutdown, set_all,
}
use dash_fabric.Base.Int.{pos}
use dash_fabric.Fm.Cm.Cache as Cache
use dash_fabric.Fm.Gm.Cache as GoalCache
use dash_fabric.Fm.Dal.Pool.{new_plugin_pool}
use dash_fabric.Fm.Dal.Plugins.{register}
use dash_fabric.Fm.Dal.Factory.{create_dpu_manager, initialize_default_plugins, create_plugin}
use dash_fabric.Fm.Config.{
  create_all_services, create_gm_service, create_dal_service, new_service_factory,
}
use dash_fabric.Fm.Service.Steps.{
  dm, lagging, set_all-dm, started_all, stopped_all, start_idle, start_running, shutdown_idle,
  shutdown_up, shutdown_closed, with_health,
}
use dash_fabric.Fm.Service.Phases.{
  Command, to_start, to_shutdown, Phase, fresh, up, down, up_again, crashed, next_phase, is_up,
  is_closed, phase_after, IsIn, Abstracts,
}

-- A panic ends the history.
abbrev pub and_then : {A B : Type 0} → Option A → (A → Option B) → Option B
and_then none k = none
and_then (some a) k = k a

lagging_dm : (hc : HealthChecker) → lookup dm hc.services ≡ some false → is_ready hc ≡ false
unfolding is_ready
lagging_dm hc h = lagging hc.services dm h

module _ {Float : Type 0} where
  abbrev pub execute : Services Float → Command → Option (Services Float)
  execute s to_start = some (start s).0
  execute s to_shutdown = shutdown s

  -- The commands one after the other, until a panic.
  abbrev pub run : Option (Services Float) → List Command → Option (Services Float)
  run o [] = o
  run o (c ∷ cs) = run (and_then o λ s. execute s c) cs

  started-IsIn :
      (p q : Phase) (s : Services Float)
      → is_up q ≡ true
      → is_closed q ≡ is_closed p
      → IsIn p s
      → IsIn q (started_all s)
  unfolding started_all started
  started-IsIn p q s u c i = record {
    cm_is = sym u;
    gm_is = sym u;
    dal_is = sym u;
    pool_is = sym u;
    stream_is = i.stream_is ∙ sym c;
    queue_is = i.queue_is ∙ sym c;
    dm_is = set_all-dm s.health_checker true i.dm_is;
    unready = lagging_dm (set_all s.health_checker true) (set_all-dm s.health_checker true i.dm_is);
  }

  stopped-IsIn : (s : Services Float) → IsIn up s → IsIn down (stopped_all s)
  unfolding stopped_all shut_down
  stopped-IsIn s i = record {
    cm_is = refl;
    gm_is = refl;
    dal_is = refl;
    pool_is = refl;
    stream_is = refl;
    queue_is = refl;
    dm_is = set_all-dm s.health_checker false i.dm_is;
    unready =
        lagging_dm (set_all s.health_checker false) (set_all-dm s.health_checker false i.dm_is);
  }

  marked-IsIn :
      (p : Phase) (s : Services Float)
      → IsIn p s
      → IsIn p (with_health s (set_all s.health_checker false))
  marked-IsIn p s i = record {
    cm_is = i.cm_is;
    gm_is = i.gm_is;
    dal_is = i.dal_is;
    pool_is = i.pool_is;
    stream_is = i.stream_is;
    queue_is = i.queue_is;
    dm_is = set_all-dm s.health_checker false i.dm_is;
    unready =
        lagging_dm (set_all s.health_checker false) (set_all-dm s.health_checker false i.dm_is);
  }

  idle_start :
      (p q : Phase) (s : Services Float)
      → is_up p ≡ false
      → is_up q ≡ true
      → is_closed q ≡ is_closed p
      → IsIn p s
      → IsIn q (start s).0
  idle_start p q s d u c i =
      rw (start_idle s (i.cm_is ∙ d) (i.gm_is ∙ d) (i.dal_is ∙ d) (i.pool_is ∙ d))
        (started-IsIn p q s u c i)

  idle_shutdown :
      (p : Phase) (s : Services Float)
      → is_up p ≡ false
      → IsIn p s
      → shutdown s ≡ some (with_health s (set_all s.health_checker false))
  idle_shutdown p s d i = shutdown_idle s (i.cm_is ∙ d) (i.gm_is ∙ d) (i.dal_is ∙ d)

  up_start : (p : Phase) (s : Services Float) → is_up p ≡ true → IsIn p s → IsIn p (start s).0
  up_start p s u i = rw (start_running s (i.cm_is ∙ u)) i

  pub step-Abstracts :
      (p : Phase) (o : Option (Services Float)) (c : Command)
      → Abstracts p o
      → Abstracts (next_phase p c) (and_then o λ s. execute s c)
  step-Abstracts crashed none to_start i = tt
  step-Abstracts crashed none to_shutdown i = tt
  step-Abstracts crashed (some s) c i = absurd i
  step-Abstracts fresh none c i = absurd i
  step-Abstracts up none c i = absurd i
  step-Abstracts down none c i = absurd i
  step-Abstracts up_again none c i = absurd i
  step-Abstracts fresh (some s) to_start i = idle_start fresh up s refl refl refl i
  step-Abstracts down (some s) to_start i = idle_start down up_again s refl refl refl i
  step-Abstracts up (some s) to_start i = up_start up s refl i
  step-Abstracts up_again (some s) to_start i = up_start up_again s refl i
  step-Abstracts fresh (some s) to_shutdown i =
      subst (Abstracts fresh) (sym (idle_shutdown fresh s refl i)) (marked-IsIn fresh s i)
  step-Abstracts down (some s) to_shutdown i =
      subst (Abstracts down) (sym (idle_shutdown down s refl i)) (marked-IsIn down s i)
  step-Abstracts up (some s) to_shutdown i =
      subst (Abstracts down)
        (sym (shutdown_up s i.cm_is i.gm_is i.dal_is i.pool_is i.stream_is i.queue_is))
        (stopped-IsIn s i)
  step-Abstracts up_again (some s) to_shutdown i =
      subst (Abstracts crashed) (sym (shutdown_closed s i.dal_is i.pool_is i.queue_is)) tt

  run-Abstracts :
      (p : Phase) (o : Option (Services Float)) (cs : List Command)
      → Abstracts p o
      → Abstracts (phase_after p cs) (run o cs)
  run-Abstracts p o [] i = i
  run-Abstracts p o (c ∷ cs) i =
      run-Abstracts (next_phase p c) (and_then o λ s. execute s c) cs (step-Abstracts p o c i)

  abbrev first : Services Float
  first = record {
    health_checker = new_health_checker;
    cm_pipeline = Cm.new (Cache.new (pos 10000));
    gm_service = Gm.new GoalCache.new;
    dal_service = Dal.new (pos 4);
  }

  first-IsIn : IsIn fresh first
  unfolding new_health_checker Cm.new Gm.new Dal.new new_plugin_pool lookup
  first-IsIn = record {
    cm_is = refl;
    gm_is = refl;
    dal_is = refl;
    pool_is = refl;
    stream_is = refl;
    queue_is = refl;
    dm_is = refl;
    unready = lagging_dm new_health_checker refl;
  }

  -- The services that InitializeServices makes go through the phases of a machine with five states,
  -- whatever the order of starts and shutdowns. After the first start all of them run, with the
  -- worker pool of the devices; a shutdown ends all of them; and the shutdown after a second start
  -- panics. In no phase does the health checker report them as ready.
  pub services_refine :
      {W : Type 0} (ctx : Context W) (ctx_error : W → Bytes) (path : Bytes) (cs : List Command)
      → (s : Services Float) × (initialize_services ctx ctx_error (load_config path)
          ≡ initialized s)
        × Abstracts (phase_after fresh cs) (run (some s) cs)
  unfolding initialize_services create_all_services create_gm_service create_dal_service
      new_service_factory create_dpu_manager initialize_default_plugins create_plugin register
      lookup
  services_refine ctx ctx_error path cs =
      (first, refl, run-Abstracts fresh (some first) cs first-IsIn)
