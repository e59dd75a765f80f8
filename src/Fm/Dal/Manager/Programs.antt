-- ===== src/Fm/Dal/Manager/Programs.antt =====
-- What Program does to the counters and the pool of the manager.
use dash_fabric.Base.{
  suc, ◌<◌, ◌≡◌, ◌∙◌, ap, refl, true, false, List, ◌∷◌, Option, none, some, length, arith, inl, inr,
  Bool-cases, if-elim, not, if◌then◌else◌,
}
use dash_fabric.Base.Int.{pos, inc64-pos, max64}
use dash_fabric.Fm.Dal.Pool.{PluginPool, refused, enqueued}
use dash_fabric.Fm.Dal.Dispatcher.{ProgramResult}
use dash_fabric.Fm.Dal.Manager.{
  submitted_once, DpuManager, ManagerError, not_running, Entry, gone_before, sent, gone_waiting,
  submit, awaited, Check, caller_done, manager_done, proceed, Wait, received, caller_gone,
  manager_gone, Reply, errored, program, await, succeeded, result_wait_cancelled, manager_stopped,
  programming_cancelled, goal_state_required,
}
use dash_fabric.Fm.Dal.Manager.History.{Answer, programmed, count, Tally, Counted, programmed_reply}
use dash_fabric.Fm.Dal.Manager.Starts.{unnoticed}

module _ {G : Type 0} where
  unanswered :
      (m : DpuManager G) (as' : List Answer) (e : ManagerError)
      → length as' < max64
      → Tally m as'
      → Tally (submitted_once m) (programmed (errored e) ∷ as')
  unanswered m as' e h t = record {
    submitted = suc t.submitted;
    agrees = t.agrees;
    submitted_is = inc64-pos m.stats.programs_submitted t.submitted (omega arith) t.submitted_is;
    succeeded_is = t.succeeded_is ∙ ap pos (omega arith);
    failed_is = t.failed_is ∙ ap pos (omega arith);
    replied_le = omega arith;
    submitted_le = omega arith;
    own = (tt, t.own);
  }

  await-Tally :
      (m : DpuManager G) (as' : List Answer) (w : Wait)
      → length as' < max64
      → Tally m as'
      → Tally (await (submitted_once m) w).0 (programmed (await (submitted_once m) w).1 ∷ as')
  unfolding await
  await-Tally m as' w h t =
      let more = inc64-pos m.stats.programs_submitted t.submitted (omega arith) t.submitted_is in
      elim w
        as (λ w.
          Tally (await (submitted_once m) w).0 (programmed (await (submitted_once m) w).1 ∷ as')) [
            | caller_gone ↦ unanswered m as' result_wait_cancelled h t
            | manager_gone ↦ unanswered m as' manager_stopped h t
            | received result ↦ elim (Bool-cases (succeeded result)) [
              | inl b ↦ record {
                submitted = suc t.submitted;
                agrees = t.agrees;
                submitted_is = rw b more;
                succeeded_is = rw b (
                    inc64-pos m.stats.programs_succeeded (count true as') (omega arith)
                      t.succeeded_is
                    ∙ ap pos (omega arith));
                failed_is = rw b (t.failed_is ∙ ap pos (omega arith));
                replied_le = rw b (omega arith);
                submitted_le = omega arith;
                own = (tt, t.own);
              }
              | inr b ↦ record {
                submitted = suc t.submitted;
                agrees = t.agrees;
                submitted_is = rw b more;
                succeeded_is = rw b (t.succeeded_is ∙ ap pos (omega arith));
                failed_is = rw b (
                    inc64-pos m.stats.programs_failed (count false as') (omega arith) t.failed_is
                    ∙ ap pos (omega arith));
                replied_le = rw b (omega arith);
                submitted_le = omega arith;
                own = (tt, t.own);
              }
            ]
          ]

  unprogrammed :
      (m : DpuManager G) (as' : List Answer) (e : ManagerError)
      → Tally m as'
      → Tally m (programmed (errored e) ∷ as')
  unprogrammed m as' e t = unnoticed m m as' (programmed (errored e)) t.agrees refl refl refl tt t

  -- Submit leaves the pool as it was, but for its queue and its channels; it panics only where the
  -- queue is closed while the pool runs.
  pub submit-keeps :
      (p p' : PluginPool G (Option ProgramResult)) (g : G) (entry : Entry)
      → submit p g entry ≡ some p'
      → (p'.running ≡ p.running) × (p'.queue_closed ≡ p.queue_closed)
  unfolding submit refused enqueued
  submit-keeps p p' g gone_before h = (ground arith, ground arith)
  submit-keeps p p' g sent h = (ground arith, ground arith)
  submit-keeps p p' g gone_waiting h = (ground arith, ground arith)

  awaited-Counted :
      (m : DpuManager G) (as' : List Answer) (w : Wait)
      (o : Option (PluginPool G (Option ProgramResult)))
      → length as' < max64
      → Tally m as'
      → ((p : PluginPool G (Option ProgramResult)) → o ≡ some p → p.running ≡ m.pool.running)
      → Counted as' (programmed_reply (awaited m w o))
  awaited-Counted m as' w none h t k = tt
  awaited-Counted m as' w (some p) h t k =
      await-Tally (record m { pool = p }) as' w h
        (record {
          submitted = t.submitted;
          agrees = k p refl ∙ t.agrees;
          submitted_is = t.submitted_is;
          succeeded_is = t.succeeded_is;
          failed_is = t.failed_is;
          replied_le = t.replied_le;
          submitted_le = t.submitted_le;
          own = t.own;
        })

  -- Program past the test whether the manager runs.
  abbrev pub checked :
      DpuManager G → Check → Option G → Entry → Wait → Option (DpuManager G × Reply)
  checked m caller_done goal entry w = some (m, errored programming_cancelled)
  checked m manager_done goal entry w = some (m, errored manager_stopped)
  checked m proceed none entry w = some (m, errored goal_state_required)
  checked m proceed (some g) entry w = awaited m w (submit m.pool g entry)

  pub program-checked :
      (m : DpuManager G) (check : Check) (goal : Option G) (entry : Entry) (w : Wait)
      → program m check goal entry w
        ≡ (if not m.running then some (m, errored not_running) else checked m check goal entry w)
  unfolding program
  program-checked m caller_done goal entry w = refl
  program-checked m manager_done goal entry w = refl
  program-checked m proceed none entry w = refl
  program-checked m proceed (some g) entry w = refl

  checked-Counted :
      (m : DpuManager G) (as' : List Answer) (check : Check) (goal : Option G) (entry : Entry)
      (w : Wait)
      → length as' < max64
      → Tally m as'
      → Counted as' (programmed_reply (checked m check goal entry w))
  checked-Counted m as' caller_done goal entry w h t = unprogrammed m as' programming_cancelled t
  checked-Counted m as' manager_done goal entry w h t = unprogrammed m as' manager_stopped t
  checked-Counted m as' proceed none entry w h t = unprogrammed m as' goal_state_required t
  checked-Counted m as' proceed (some g) entry w h t =
      awaited-Counted m as' w (submit m.pool g entry) h t
        (λ p e. (submit-keeps m.pool p g entry e).0)

  pub program-Counted :
      (m : DpuManager G) (as' : List Answer) (check : Check) (goal : Option G) (entry : Entry)
      (w : Wait)
      → length as' < max64
      → Tally m as'
      → Counted as' (programmed_reply (program m check goal entry w))
  program-Counted m as' check goal entry w h t = rw (program-checked m check goal entry w) (
      if-elim (λ (r : Option (DpuManager G × Reply)). Counted as' (programmed_reply r))
        (not m.running) (λ _. unprogrammed m as' not_running t)
        (λ _. checked-Counted m as' check goal entry w h t))
