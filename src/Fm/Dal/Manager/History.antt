-- ===== src/Fm/Dal/Manager/History.antt =====
-- Histories of requests to the manager of the devices, and what its counters say of them.
use dash_fabric.Base.{
  ℕ, ◌+◌, ◌≤◌, ◌≡◌, ◌⊎◌, Bool, true, false, List, [], ◌∷◌, Option, none, some, length,
  if◌then◌else◌,
}
use dash_fabric.Base.Int.{pos}
use dash_fabric.Fm.Dal.Manager.{
  DpuManager, ManagerError, already_running, not_running, Check, Entry, Wait, Reply, replied,
  errored, start, stop, program, succeeded,
}

pub data Request (G : Type 0) : Type 0 where
  to_start : Request G
  to_stop : Request G
  to_program : Check → Option G → Entry → Wait → Request G

-- What a request gave: the error of a start or a stop, or a reply.
pub data Answer : Type 0 where
  handled : Option ManagerError → Answer
  programmed : Reply → Answer

-- 1 for a reply with a result of this success.
abbrev pub replies : Bool → Answer → ℕ
replies b (handled e) = 0
replies true (programmed (replied r)) = if succeeded r then 1 else 0
replies false (programmed (replied r)) = if succeeded r then 0 else 1
replies b (programmed (errored e)) = 0

abbrev pub count : Bool → List Answer → ℕ
count b [] = 0
count b (a ∷ as') = replies b a + count b as'

-- Neither the start nor the shutdown of the pool failed.
abbrev pub IsOwn : Answer → Type 0
IsOwn (handled none) = Unit
IsOwn (handled (some e)) = (e ≡ already_running) ⊎ (e ≡ not_running)
IsOwn (programmed r) = Unit

abbrev pub AllOwn : List Answer → Type 0
AllOwn [] = Unit
AllOwn (a ∷ as') = IsOwn a × AllOwn as'

-- A panic ends the history.
abbrev pub and_then : {A B : Type 0} → Option A → (A → Option B) → Option B
and_then none k = none
and_then (some a) k = k a

module _ {G : Type 0} where
  abbrev pub handled_stop :
      Option (DpuManager G × Option ManagerError) → Option (DpuManager G × Answer)
  handled_stop none = none
  handled_stop (some (m, e)) = some (m, handled e)

  abbrev pub programmed_reply : Option (DpuManager G × Reply) → Option (DpuManager G × Answer)
  programmed_reply none = none
  programmed_reply (some (m, r)) = some (m, programmed r)

  abbrev pub serve : DpuManager G → Request G → Option (DpuManager G × Answer)
  serve m to_start = let r = start m in some (r.0, handled r.1)
  serve m to_stop = handled_stop (stop m)
  serve m (to_program check goal entry waited) =
      programmed_reply (program m check goal entry waited)

  -- The requests, with the answers so far, the last first; `none` is a panic.
  abbrev pub serve_all :
      DpuManager G × List Answer → List (Request G) → Option (DpuManager G × List Answer)
  serve_all (m, as') [] = some (m, as')
  serve_all (m, as') (q ∷ qs) = and_then (serve m q) λ (m', a). serve_all (m', a ∷ as') qs

  -- The manager runs exactly if its pool does. The counters are those of the answers, and the
  -- requests that were answered with a result were all submitted.
  pub record Tally (m : DpuManager G) (as' : List Answer) : Type 0 where
    pub submitted : ℕ
    pub agrees : m.pool.running ≡ m.running
    pub submitted_is : m.stats.programs_submitted ≡ pos submitted
    pub succeeded_is : m.stats.programs_succeeded ≡ pos (count true as')
    pub failed_is : m.stats.programs_failed ≡ pos (count false as')
    pub replied_le : count true as' + count false as' ≤ submitted
    pub submitted_le : submitted ≤ length as'
    pub own : AllOwn as'

  -- The state after a request that did not panic, with its answer.
  abbrev pub Counted : List Answer → Option (DpuManager G × Answer) → Type 0
  Counted as' none = Unit
  Counted as' (some (m, a)) = Tally m (a ∷ as')

  -- All the requests were served, without a panic, with their answers.
  abbrev pub Served : Option (DpuManager G × List Answer) → Type 0
  Served none = Unit
  Served (some (m, as')) = Tally m as'
