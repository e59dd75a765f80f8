-- ===== src/Fm/Dal/Pool.antt =====
-- src/FM/pkg/dal/pool.go: the workers that dispatch the goals of a bounded queue. Callers and
-- workers interleave, so the pool is a step relation, in which `none` is a panic.
use dash_fabric.Base.{
  ℕ, zero, suc, ◌+◌, ◌*◌, ◌<◌, ◌≡◌, Bool, true, false, List, [], ◌∷◌, ◌++◌, Option, none, some,
  length, set, if◌then◌else◌,
}
use dash_fabric.Base.Int.{ℤ, pos, ltb_ℤ, pos_part}
pub mod Laws
mod Tests

-- A result channel with room for one: empty, with a result, or closed.
pub data Channel (R : Type 0) : Type 0 where
  waiting : Channel R
  answered : R → Channel R
  shut : Channel R

-- goalJob, with the number of its channel
pub record GoalJob (G : Type 0) : Type 0 where
  pub goal : G
  pub result_chan : ℕ

pub record PluginPool (G R : Type 0) : Type 0 where
  pub workers : ℕ
  pub job_queue : List (GoalJob G)
  pub queue_closed : Bool
  pub running : Bool
  -- the context of the last start is done
  pub cancelled : Bool
  -- workers that wait for a job, and jobs that a worker has
  pub idle : ℕ
  pub busy : List (GoalJob G)
  -- goals whose Submit is past its checks and not yet in the queue
  pub entering : List G
  -- every channel ever made
  pub channels : List (Channel R)

module _ {G R : Type 0} where
  unfoldable pub new_plugin_pool : ℤ → PluginPool G R
  new_plugin_pool workers = record {
    workers = if ltb_ℤ workers (pos 1) then 4 else pos_part workers;
    job_queue = [];
    queue_closed = false;
    running = false;
    cancelled = false;
    idle = 0;
    busy = [];
    entering = [];
    channels = [];
  }

  abbrev pub capacity : PluginPool G R → ℕ
  capacity p = p.workers * 2

  -- Start and Shutdown of a pool that may be started or shut down.
  unfoldable pub started : PluginPool G R → PluginPool G R
  started p = record p { running = true; cancelled = false; idle = p.idle + p.workers }

  unfoldable pub shut_down : PluginPool G R → PluginPool G R
  shut_down p = record p { running = false; cancelled = true; queue_closed = true }

  -- A channel that Submit returns closed.
  unfoldable pub refused : PluginPool G R → PluginPool G R
  refused p = record p { channels = p.channels ++ shut ∷ [] }

  unfoldable pub enqueued : PluginPool G R → G → PluginPool G R
  enqueued p g = record p {
    job_queue = p.job_queue ++ (record { goal = g; result_chan = length p.channels }) ∷ [];
    channels = p.channels ++ waiting ∷ [];
  }

  -- What a worker writes to the channel of a job.
  unfoldable pub settled : PluginPool G R → GoalJob G → Channel R → PluginPool G R
  settled p j c = record p { channels = set p.channels j.result_chan c }

  pub data Step (p : PluginPool G R) : Option (PluginPool G R) → Type 0 where
    start : p.running ≡ false → Step p (some (started p))
    shutdown : p.running ≡ true → p.queue_closed ≡ false → Step p (some (shut_down p))
    -- close(p.jobQueue) a second time
    shutdown_again : p.running ≡ true → p.queue_closed ≡ true → Step p none
    -- the context of the caller of Start is done
    cancel : p.running ≡ true → Step p (some (record p { cancelled = true }))
    -- Submit: the pool does not run, there is no goal, or a context is done
    submit_refused : Step p (some (refused p))
    -- Submit: the checks are passed
    submit :
        (g : G)
        → p.running ≡ true
        → p.cancelled ≡ false
        → Step p (some (record p { entering = g ∷ p.entering }))
    enqueue :
        (before : List G) (g : G) (after : List G)
        → p.entering ≡ before ++ g ∷ after
        → p.queue_closed ≡ false
        → length p.job_queue < capacity p
        → Step p (some (record (enqueued p g) { entering = before ++ after }))
    -- a send on the closed queue
    enqueue_closed :
        (before : List G) (g : G) (after : List G)
        → p.entering ≡ before ++ g ∷ after
        → p.queue_closed ≡ true
        → Step p none
    give_up :
        (before : List G) (g : G) (after : List G)
        → p.entering ≡ before ++ g ∷ after
        → p.cancelled ≡ true
        → Step p (some (record (refused p) { entering = before ++ after }))
    take_job :
        (n : ℕ) (j : GoalJob G) (rest : List (GoalJob G))
        → p.idle ≡ suc n
        → p.job_queue ≡ j ∷ rest
        → Step p (some (record p { idle = n; job_queue = rest; busy = j ∷ p.busy }))
    -- the loop over the closed queue ends
    exit :
        (n : ℕ)
        → p.idle ≡ suc n
        → p.job_queue ≡ []
        → p.queue_closed ≡ true
        → Step p (some (record p { idle = n }))
    answer :
        (before : List (GoalJob G)) (j : GoalJob G) (after : List (GoalJob G)) (r : R)
        → p.busy ≡ before ++ j ∷ after
        → Step p
            (some (record (settled p j (answered r)) { busy = before ++ after; idle = suc p.idle }))
    abandon :
        (before : List (GoalJob G)) (j : GoalJob G) (after : List (GoalJob G))
        → p.busy ≡ before ++ j ∷ after
        → p.cancelled ≡ true
        → Step p (some (record (settled p j shut) { busy = before ++ after }))

  pub data Reach (p : PluginPool G R) : Option (PluginPool G R) → Type 0 where
    here : Reach p (some p)
    onward :
        {q : PluginPool G R} {r : Option (PluginPool G R)} → Reach p (some q) → Step q r → Reach p r
