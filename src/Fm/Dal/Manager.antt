-- ===== src/Fm/Dal/Manager.antt =====
-- src/FM/pkg/dal/manager.go: the start and the end of the pool, and the count of the programmed
-- goals. What Program, and Submit of the pool in it, find at their selects is told to them. The
-- workers, which take the jobs from the queue, are those of Fm.Dal.Pool.
use dash_fabric.Base.{Bool, true, false, not, Option, none, some, if◌then◌else◌}
use dash_fabric.Base.Int.{ℤ, pos, inc64}
use dash_fabric.Fm.Dal.Dispatcher.{ProgramResult}
use dash_fabric.Fm.Dal.Pool.{PluginPool, new_plugin_pool, started, shut_down, refused, enqueued}
pub mod History
pub mod Laws
pub mod Once
pub mod Programs
pub mod Starts
mod Tests

-- The workers and queue depths by vendor and the uptime, which nothing writes, are left out.
pub record ManagerStats : Type 0 where
  pub programs_submitted : ℤ
  pub programs_succeeded : ℤ
  pub programs_failed : ℤ

pub record DpuManager (G : Type 0) : Type 0 where
  pub pool : PluginPool G (Option ProgramResult)
  pub running : Bool
  pub stats : ManagerStats

pub data PoolError : Type 0 where
  pool_already_running : PoolError
  pool_not_running : PoolError

pub data ManagerError : Type 0 where
  already_running : ManagerError
  not_running : ManagerError
  pool_startup_failed : PoolError → ManagerError
  pool_shutdown_failed : PoolError → ManagerError
  programming_cancelled : ManagerError
  manager_stopped : ManagerError
  goal_state_required : ManagerError
  result_wait_cancelled : ManagerError

-- What the select before a submission found, and what the one after it did.
pub data Check : Type 0 where
  caller_done : Check
  manager_done : Check
  proceed : Check

-- What Submit found at its two selects: a context that is done before, a send on the queue, or a
-- context that is done while it waits for room.
pub data Entry : Type 0 where
  gone_before : Entry
  sent : Entry
  gone_waiting : Entry

pub data Wait : Type 0 where
  -- a value of the channel, or nil if it is closed
  received : Option ProgramResult → Wait
  caller_gone : Wait
  manager_gone : Wait

pub data Reply : Type 0 where
  replied : Option ProgramResult → Reply
  errored : ManagerError → Reply

abbrev no_stats : ManagerStats
no_stats = record {
  programs_submitted = pos 0;
  programs_succeeded = pos 0;
  programs_failed = pos 0;
}

abbrev succeeded : Option ProgramResult → Bool
succeeded none = false
succeeded (some r) = r.success

module _ {G : Type 0} where
  unfoldable pub new : ℤ → DpuManager G
  new pool_workers = record {
    pool = new_plugin_pool pool_workers;
    running = false;
    stats = no_stats;
  }

  -- Start of the pool, and its Shutdown, whose panic is `none`
  unfoldable pub start_pool :
      PluginPool G (Option ProgramResult) → PluginPool G (Option ProgramResult) × Option PoolError
  start_pool p = if p.running then (p, some pool_already_running) else (started p, none)

  unfoldable pub shutdown_pool :
      PluginPool G (Option ProgramResult)
      → Option (PluginPool G (Option ProgramResult) × Option PoolError)
  shutdown_pool p =
      if not p.running
      then some (p, some pool_not_running)
      else (if p.queue_closed then none else some (shut_down p, none))

  unfoldable pub start : DpuManager G → DpuManager G × Option ManagerError
  start m =
      if m.running
      then (m, some already_running)
      else (let r = start_pool m.pool in
          elim r.1 [
            | none ↦ (record m { running = true; pool = r.0 }, none)
            | some e ↦ (record m { running = false; pool = r.0 }, some (pool_startup_failed e))
          ])

  unfoldable pub stop : DpuManager G → Option (DpuManager G × Option ManagerError)
  stop m = if not m.running then some (m, some not_running) else (elim (shutdown_pool m.pool) [
    | none ↦ none
    | some (p, some e) ↦ some (record m { pool = p }, some (pool_shutdown_failed e))
    | some (p, none) ↦ some (record m { pool = p; running = false }, none)
  ])

  -- The wait for the result.
  unfoldable pub await : DpuManager G → Wait → DpuManager G × Reply
  await m caller_gone = (m, errored result_wait_cancelled)
  await m manager_gone = (m, errored manager_stopped)
  await m (received result) = (
    record m {
      stats =
          if succeeded result
          then record m.stats { programs_succeeded = inc64 m.stats.programs_succeeded }
          else record m.stats { programs_failed = inc64 m.stats.programs_failed };
    },
    replied result,
  )

  -- ProgramsSubmitted++
  abbrev pub submitted_once : DpuManager G → DpuManager G
  submitted_once m = record m {
    stats = record m.stats { programs_submitted = inc64 m.stats.programs_submitted };
  }

  -- Submit of the pool, whose panic is `none`: a send on the queue that a Shutdown closed, after a
  -- second Start.
  unfoldable pub submit :
      PluginPool G (Option ProgramResult) → G → Entry → Option (PluginPool G (Option ProgramResult))
  submit p g entry = if not p.running then some (refused p) else (elim entry [
    | gone_before ↦ some (refused p)
    | gone_waiting ↦ some (refused p)
    | sent ↦ if p.queue_closed then none else some (enqueued p g)
  ])

  -- The wait, on the channel that Submit gave.
  abbrev pub awaited :
      DpuManager G
      → Wait
      → Option (PluginPool G (Option ProgramResult))
      → Option (DpuManager G × Reply)
  awaited m w none = none
  awaited m w (some p) = some (await (submitted_once (record m { pool = p })) w)

  unfoldable pub program :
      DpuManager G → Check → Option G → Entry → Wait → Option (DpuManager G × Reply)
  program m check goal entry waited =
      if not m.running then some (m, errored not_running) else (elim check [
        | caller_done ↦ some (m, errored programming_cancelled)
        | manager_done ↦ some (m, errored manager_stopped)
        | proceed ↦ elim goal [
          | none ↦ some (m, errored goal_state_required)
          | some g ↦ awaited m waited (submit m.pool g entry)
        ]
      ])
