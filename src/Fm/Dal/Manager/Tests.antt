-- ===== src/Fm/Dal/Manager/Tests.antt =====
-- A manager is started, programs two goals, one of them in vain, and is stopped.
use dash_fabric.Base.{refl, Bool, true, false, List, [], ◌∷◌, none, some, ◌≡◌}
use dash_fabric.Base.Int.{pos}
use dash_fabric.Fm.Dal.Dispatcher.{ProgramResult}
use dash_fabric.Fm.Dal.Manager.{
  new, start, start_pool, stop, shutdown_pool, program, submit, sent, gone_waiting, proceed,
  received, caller_gone,
}
use dash_fabric.Fm.Dal.Manager.History.{Request, to_start, to_stop, to_program, serve_all}
use dash_fabric.Fm.Dal.Pool.{started, shut_down, new_plugin_pool}

abbrev programmed_result : ProgramResult
programmed_result = record {
  eni_id = 1 ∷ [];
  success = true;
  error = [];
  applied_version = pos 3;
  duration = pos 0;
}

abbrev requests : List (Request Bool)
requests =
    to_start
    ∷ to_program proceed (some true) sent (received (some programmed_result))
    ∷ to_program proceed (some true) sent (received none)
    ∷ to_program proceed (some false) gone_waiting caller_gone
    ∷ to_stop
    ∷ []

-- After a stop and a second start the queue is closed, and a goal that is sent to it is a panic.
restart_panics :
    serve_all {G = Bool}
      (new (pos 2), [])
      (to_start ∷ to_stop ∷ to_start ∷ to_program proceed (some true) sent caller_gone ∷ [])
    ≡ none
unfolding new start start_pool stop shutdown_pool program submit started shut_down new_plugin_pool
restart_panics = refl
