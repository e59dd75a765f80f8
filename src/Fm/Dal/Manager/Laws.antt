-- ===== src/Fm/Dal/Manager/Laws.antt =====
-- The manager of the devices and its pool over a history of requests.
use dash_fabric.Base.{◌+◌, ◌≤◌, ◌<◌, refl, List, [], ◌∷◌, Option, none, some, length, arith}
use dash_fabric.Base.Int.{ℤ, max64}
use dash_fabric.Fm.Dal.Pool.{new_plugin_pool}
use dash_fabric.Fm.Dal.Manager.{DpuManager, new}
use dash_fabric.Fm.Dal.Manager.History.{
  Request, to_start, to_stop, to_program, Answer, serve, serve_all, Tally, Counted, Served,
  and_then,
}
use dash_fabric.Fm.Dal.Manager.Starts.{start-Tally, stop-Counted}
use dash_fabric.Fm.Dal.Manager.Programs.{program-Counted}

module _ {G : Type 0} where
  serve-Counted :
      (m : DpuManager G) (as' : List Answer) (q : Request G)
      → length as' < max64
      → Tally m as'
      → Counted as' (serve m q)
  serve-Counted m as' to_start h t = start-Tally m as' t
  serve-Counted m as' to_stop h t = stop-Counted m as' t
  serve-Counted m as' (to_program check goal entry w) h t =
      program-Counted m as' check goal entry w h t

  and_then-Served :
      (as' : List Answer) (r : Option (DpuManager G × Answer))
      (k : DpuManager G × Answer → Option (DpuManager G × List Answer))
      → Counted as' r
      → ((m : DpuManager G) (a : Answer) → Tally m (a ∷ as') → Served (k (m, a)))
      → Served (and_then r k)
  and_then-Served as' none k c f = tt
  and_then-Served as' (some (m, a)) k c f = f m a c

  serve_all-Served :
      (m : DpuManager G) (as' : List Answer) (qs : List (Request G))
      → length as' + length qs ≤ max64
      → Tally m as'
      → Served (serve_all (m, as') qs)
  serve_all-Served m as' [] h t = t
  serve_all-Served m as' (q ∷ qs) h t =
      and_then-Served as' (serve m q) (λ (m', a). serve_all (m', a ∷ as') qs)
        (serve-Counted m as' q (omega arith) t)
        (λ m' a c. serve_all-Served m' (a ∷ as') qs (omega arith) c)

  -- The counters after a history from a new manager, unless it panicked.
  pub manager-Tally :
      (n : ℤ) (qs : List (Request G)) → length qs ≤ max64 → Served (serve_all (new n, []) qs)
  unfolding new new_plugin_pool
  manager-Tally n qs h = serve_all-Served (new n) [] qs (omega arith) (record {
    submitted = 0;
    agrees = refl;
    submitted_is = refl;
    succeeded_is = refl;
    failed_is = refl;
    replied_le = omega arith;
    submitted_le = omega arith;
    own = tt;
  })
