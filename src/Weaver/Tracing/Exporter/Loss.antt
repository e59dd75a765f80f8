-- ===== src/Weaver/Tracing/Exporter/Loss.antt =====
-- What Close does to the traces that are waiting.
use dash_fabric.Base.{
  ◌+◌, ◌<◌, ◌≤◌, refl, true, false, List, [], ◌∷◌, ◌++◌, some, length, length-append, arith,
}
use dash_fabric.Base.Int.{pos}
use mathlib.Core.List.{append_assoc, append-nil}
use dash_fabric.Weaver.Tracing.Exporter.{
  Worker, idle, ended, Closing, not_begun, draining, returned, capacity, Exporter, new_exporter,
  export, accept, worker_stop, close, close_stop, drain, drained, join, Reach, here, onward,
}

module _ {T : Type 0} where
  -- Before Close, with a worker that has done nothing yet.
  abbrev pub filled : List T → List T → Exporter T
  filled buffer accepted = record {
    buffer = buffer;
    worker = idle;
    exported_count = pos 0;
    stopped = false;
    stop_closed = false;
    entering = [];
    flagged = 0;
    closing = not_begun;
    accepted = accepted;
    sent = [];
    dropped = [];
  }

  -- In the loop of Close, and after it.
  abbrev pub emptied : Worker T → Closing → List T → List T → List T → Exporter T
  emptied worker closing buffer accepted dropped = record {
    buffer = buffer;
    worker = worker;
    exported_count = pos 0;
    stopped = true;
    stop_closed = true;
    entering = [];
    flagged = 0;
    closing = closing;
    accepted = accepted;
    sent = [];
    dropped = dropped;
  }

  export_one :
      (e : Exporter T) (b a : List T) (t : T)
      → length b < capacity
      → Reach e (some (filled b a))
      → Reach e (some (filled (b ++ t ∷ []) (a ++ t ∷ [])))
  export_one e b a t l h = onward (onward h (export t refl)) (accept [] t [] refl l)

  export_all :
      (e : Exporter T) (ts b a : List T)
      → length b + length ts ≤ capacity
      → Reach e (some (filled b a))
      → Reach e (some (filled (b ++ ts) (a ++ ts)))
  export_all e [] b a l h = rw (append-nil, append-nil) h
  export_all e (t ∷ ts) b a l h =
      let n = length-append b (t ∷ []) in
      let ih =
        export_all e ts (b ++ t ∷ []) (a ++ t ∷ []) (omega arith)
          (export_one e b a t (omega arith) h) in
      rw (← append_assoc b (t ∷ []) ts, ← append_assoc a (t ∷ []) ts) ih

  drain_all :
      (e : Exporter T) (b a d : List T)
      → Reach e (some (emptied idle draining b a d))
      → Reach e (some (emptied idle draining [] a (d ++ b)))
  drain_all e [] a d h = rw append-nil h
  drain_all e (t ∷ b) a d h =
      rw (← append_assoc d (t ∷ []) b)
        (drain_all e b a (d ++ t ∷ []) (onward h (drain t b refl refl)))

  -- However many traces, up to the capacity of the buffer, Close may return without a panic after
  -- Export returned no error for each of them, and none was sent: it drops them all.
  pub close_drops :
      (ts : List T)
      → length ts ≤ capacity
      → Reach new_exporter (some (emptied ended returned [] ts ts))
  unfolding new_exporter
  close_drops ts l =
      let full = export_all (filled [] []) ts [] [] (omega arith) here in
      let shut = onward (onward full close) (close_stop 0 refl refl) in
      let empty = drain_all (filled [] []) ts ts [] shut in
      onward (onward (onward empty (drained refl)) (worker_stop refl refl)) (join refl refl)
