-- ===== src/Fm/Dal/Pool/Laws.antt =====
-- What holds of the worker pool after every sequence of steps.
use dash_fabric.Base.{
  ℕ, zero, suc, ◌+◌, ◌<◌, ◌≤◌, ◌≡◌, refl, List, [], ◌∷◌, ◌++◌, Option, none, some, length, set,
  if◌then◌else◌, arith, nat_beq, length-append, ap,
}
use dash_fabric.Base.Int.{ℤ}
use dash_fabric.Fm.Dal.Pool.{
  Channel, waiting, answered, shut, GoalJob, PluginPool, new_plugin_pool, capacity, Step, Reach,
  start, shutdown, shutdown_again, cancel, submit_refused, submit, enqueue, enqueue_closed, give_up,
  take_job, exit, answer, abandon, here, onward, started, shut_down, refused, enqueued, settled,
}

-- How many of the jobs answer to the channel `i`.
abbrev pub jobs_of : {G : Type 0} → ℕ → List (GoalJob G) → ℕ
jobs_of i [] = 0
jobs_of i (j ∷ js) = (if nat_beq j.result_chan i then 1 else 0) + jobs_of i js

abbrev is_waiting : {R : Type 0} → Channel R → ℕ
is_waiting waiting = 1
is_waiting (answered r) = 0
is_waiting shut = 0

-- 1 for a channel that is waited on, and 0 for another or for none.
abbrev pub waits : {R : Type 0} → List (Channel R) → ℕ → ℕ
waits [] i = 0
waits (c ∷ cs) zero = is_waiting c
waits (c ∷ cs) (suc i) = waits cs i

jobs_of-append :
    {G : Type 0} (i : ℕ) (js ks : List (GoalJob G))
    → jobs_of i (js ++ ks) ≡ jobs_of i js + jobs_of i ks
jobs_of-append i [] ks = omega arith
jobs_of-append i (j ∷ js) ks = omega (arith, jobs_of-append i js ks)

module _ {R : Type 0} where
  waits-push :
      (cs : List (Channel R)) (c : Channel R) (i : ℕ)
      → waits (cs ++ c ∷ []) i ≡ waits cs i + (if nat_beq (length cs) i then is_waiting c else 0)
  waits-push [] c zero = omega arith
  waits-push [] c (suc i) = ground arith
  waits-push (d ∷ cs) c zero = ground arith
  waits-push (d ∷ cs) c (suc i) = ground (arith, waits-push cs c i)

  waits-set :
      (cs : List (Channel R)) (k i : ℕ) (c : Channel R)
      → is_waiting c ≡ 0
      → waits (set cs k c) i ≡ (if nat_beq k i then 0 else waits cs i)
  waits-set [] k i c h = ground arith
  waits-set (d ∷ cs) zero zero c h = ground arith
  waits-set (d ∷ cs) zero (suc i) c h = ground arith
  waits-set (d ∷ cs) (suc k) zero c h = ground arith
  waits-set (d ∷ cs) (suc k) (suc i) c h = ground (arith, waits-set cs k i c h)

  waits-le-one : (cs : List (Channel R)) (i : ℕ) → waits cs i ≤ 1
  waits-le-one [] i = omega arith
  waits-le-one (waiting ∷ cs) zero = omega arith
  waits-le-one (answered r ∷ cs) zero = omega arith
  waits-le-one (shut ∷ cs) zero = omega arith
  waits-le-one (c ∷ cs) (suc i) = waits-le-one cs i

-- The queue keeps to its capacity; and a channel is waited on exactly if one job, in the queue or
-- with a worker, answers to it, while no job answers to any other.
pub record Inv {G R : Type 0} (p : PluginPool G R) : Type 0 where
  pub bound : length p.job_queue ≤ capacity p
  pub owned : (i : ℕ) → jobs_of i p.job_queue + jobs_of i p.busy ≡ waits p.channels i

module _ {G R : Type 0} where
  refused-Inv : (p : PluginPool G R) → Inv p → Inv (refused p)
  unfolding refused
  refused-Inv p v = record {
    bound = v.bound;
    owned = λ i. ground (arith, v.owned i, waits-push p.channels shut i);
  }

  enqueued-Inv :
      (p : PluginPool G R) (g : G) → length p.job_queue < capacity p → Inv p → Inv (enqueued p g)
  unfolding enqueued
  enqueued-Inv p g h v =
      let j : GoalJob G = record { goal = g; result_chan = length p.channels } in
      record {
        bound = omega (arith, length-append p.job_queue (j ∷ []));
        owned = λ i. ground (
          arith,
          v.owned i,
          waits-push p.channels waiting i,
          jobs_of-append i p.job_queue (j ∷ []),
        );
      }

  settled-Inv :
      (p : PluginPool G R) (before : List (GoalJob G)) (j : GoalJob G) (after : List (GoalJob G))
      (c : Channel R) (n : ℕ)
      → is_waiting c ≡ 0
      → p.busy ≡ before ++ j ∷ after
      → Inv p
      → Inv (record (settled p j c) { busy = before ++ after; idle = n })
  unfolding settled
  settled-Inv p before j after c n h e v = record {
    bound = v.bound;
    owned = λ i. ground (
      arith,
      v.owned i,
      waits-set p.channels j.result_chan i c h,
      waits-le-one p.channels i,
      jobs_of-append i before (j ∷ after),
      jobs_of-append i before after,
      ap (jobs_of i) e,
    );
  }

  -- The property of a pool, or a panic.
  abbrev pub UnlessPanic : (PluginPool G R → Type 0) → Option (PluginPool G R) → Type 0
  UnlessPanic P none = Unit
  UnlessPanic P (some p) = P p

  moved-Inv :
      (p : PluginPool G R) (n : ℕ) (j : GoalJob G) (rest : List (GoalJob G))
      → p.job_queue ≡ j ∷ rest
      → Inv p
      → Inv (record p { idle = n; job_queue = rest; busy = j ∷ p.busy })
  moved-Inv p n j rest e v = record {
    bound = omega (arith, v.bound, ap length e);
    owned = λ i. ground (arith, v.owned i, ap (jobs_of i) e);
  }

  step-Inv :
      {p : PluginPool G R} {r : Option (PluginPool G R)} → Inv p → Step p r → UnlessPanic Inv r
  unfolding started shut_down settled
  step-Inv v (start h) = record { bound = v.bound; owned = v.owned }
  step-Inv v (shutdown h k) = record { bound = v.bound; owned = v.owned }
  step-Inv v (shutdown_again h k) = tt
  step-Inv v (cancel h) = record { bound = v.bound; owned = v.owned }
  step-Inv {p = p} v submit_refused = refused-Inv p v
  step-Inv v (submit g h k) = record { bound = v.bound; owned = v.owned }
  step-Inv {p = p} v (enqueue before g after e h k) =
      let w = enqueued-Inv p g k v in record { bound = w.bound; owned = w.owned }
  step-Inv v (enqueue_closed before g after e h) = tt
  step-Inv {p = p} v (give_up before g after e h) =
      let w = refused-Inv p v in record { bound = w.bound; owned = w.owned }
  step-Inv {p = p} v (take_job n j rest h e) = moved-Inv p n j rest e v
  step-Inv v (exit n h e k) = record { bound = v.bound; owned = v.owned }
  step-Inv {p = p} v (answer before j after r e) =
      settled-Inv p before j after (answered r) (suc p.idle) refl e v
  step-Inv {p = p} v (abandon before j after e h) =
      settled-Inv p before j after shut p.idle refl e v

  new-Inv : (n : ℤ) → Inv (new_plugin_pool {G = G} {R = R} n)
  unfolding new_plugin_pool
  new-Inv n = record { bound = omega arith; owned = λ i. omega arith }

  -- After any steps of the callers, the workers and the owner of a new pool, unless it panicked:
  -- the queue holds at most twice as many jobs as there are workers; and a channel is waited on
  -- exactly if one job answers to it, in the queue or with a worker, while no job answers to a
  -- channel that was answered or closed, so that no worker is ever blocked when it answers.
  pub Reach-Inv :
      (n : ℤ) {r : Option (PluginPool G R)} → Reach (new_plugin_pool n) r → UnlessPanic Inv r
  Reach-Inv n here = new-Inv n
  Reach-Inv n (onward h s) = step-Inv (Reach-Inv n h) s
