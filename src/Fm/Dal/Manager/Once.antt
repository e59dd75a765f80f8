-- ===== src/Fm/Dal/Manager/Once.antt =====
-- A manager that is not started after it was stopped does not panic.
use dash_fabric.Base.{◌≡◌, Bool, true, false, ◌⊎◌, List, [], ◌∷◌, Option, none, some}
use dash_fabric.Fm.Dal.Manager.{DpuManager}
use dash_fabric.Fm.Dal.Manager.History.{Request, to_start, to_stop, Answer}

module _ {G : Type 0} where
  abbrev stopped_by : Bool → Request G → Bool
  stopped_by s to_stop = true
  stopped_by s q = s

  -- Whether a request may come, if one to stop came before it or not.
  abbrev IsAllowed : Bool → Request G → Type 0
  IsAllowed s to_start = s ≡ false
  IsAllowed s q = Unit

  -- No request to start comes after one to stop.
  abbrev pub NoRestart : Bool → List (Request G) → Type 0
  NoRestart s [] = Unit
  NoRestart s (q ∷ qs) = IsAllowed s q × NoRestart (stopped_by s q) qs

  -- The queue is open, or the manager was stopped for good.
  abbrev IsSafe : Bool → DpuManager G → Type 0
  IsSafe s m =
      (m.pool.running ≡ m.running)
      × ((m.pool.queue_closed ≡ false) ⊎ ((s ≡ true) × (m.running ≡ false)))

  abbrev Going : Bool → Option (DpuManager G × Answer) → Type 0
  Going s none = ⊥
  Going s (some (m, a)) = IsSafe s m
