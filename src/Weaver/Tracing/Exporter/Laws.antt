-- ===== src/Weaver/Tracing/Exporter/Laws.antt =====
-- Where the traces go that Export accepts.
use dash_fabric.Base.{
  ℕ, ◌+◌, ◌≤◌, ◌≡◌, refl, ◌∙◌, ap, Bool, List, [], ◌∷◌, ◌++◌, Option, none, some, length,
  length-append, if◌then◌else◌, arith,
}
use dash_fabric.Base.Int.{pos, max64, inc64-pos}
use dash_fabric.Weaver.Tracing.Exporter.{
  Worker, idle, sending, ended, capacity, Exporter, new_exporter, Step, export, accept,
  refuse_stopped, refuse_full, receive, count, worker_stop, close, close_stop, close_again, drain,
  drained, join, Reach, here, onward,
}

module _ {T : Type 0} where
  -- How many of the traces pass a test.
  abbrev pub count_if : (T → Bool) → List T → ℕ
  count_if p [] = 0
  count_if p (t ∷ ts) = (if p t then 1 else 0) + count_if p ts

  abbrev pub held : (T → Bool) → Worker T → ℕ
  held p idle = 0
  held p (sending t) = if p t then 1 else 0
  held p ended = 0

  count_if-append :
      (p : T → Bool) (ts us : List T) → count_if p (ts ++ us) ≡ count_if p ts + count_if p us
  count_if-append p [] us = omega arith
  count_if-append p (t ∷ ts) us = omega (arith, count_if-append p ts us)

  -- Each accepted trace is in one place; the buffer keeps to its capacity; the count is of those sent.
  pub record Conserves (e : Exporter T) : Type 0 where
    pub conserved :
        (p : T → Bool)
        → count_if p e.accepted
          ≡ count_if p e.sent + held p e.worker + count_if p e.dropped + count_if p e.buffer
    pub bound : length e.buffer ≤ capacity
    pub counted : length e.sent ≤ max64 → e.exported_count ≡ pos (length e.sent)

  -- The property of an exporter, or a panic.
  abbrev pub UnlessPanic : (Exporter T → Type 0) → Option (Exporter T) → Type 0
  UnlessPanic P none = Unit
  UnlessPanic P (some e) = P e

  step-Conserves :
      {e : Exporter T} {r : Option (Exporter T)} → Conserves e → Step e r → UnlessPanic Conserves r
  step-Conserves v (export t h) = record {
    conserved = v.conserved;
    bound = v.bound;
    counted = v.counted;
  }
  step-Conserves {e} v (accept before t after h l) = record {
    conserved = λ p. omega (
      arith,
      v.conserved p,
      count_if-append p e.accepted (t ∷ []),
      count_if-append p e.buffer (t ∷ []),
    );
    bound = omega (arith, length-append e.buffer (t ∷ []));
    counted = v.counted;
  }
  step-Conserves v (refuse_stopped before t after h c) = record {
    conserved = v.conserved;
    bound = v.bound;
    counted = v.counted;
  }
  step-Conserves v (refuse_full before t after h c) = record {
    conserved = v.conserved;
    bound = v.bound;
    counted = v.counted;
  }
  step-Conserves {e} v (receive t rest h b) = record {
    conserved = λ p. omega (arith, v.conserved p, ap (held p) h, ap (count_if p) b);
    bound = omega (arith, v.bound, ap length b);
    counted = v.counted;
  }
  step-Conserves {e} v (count t h) = record {
    conserved = λ p. omega (arith, v.conserved p, ap (held p) h, count_if-append p e.sent (t ∷ []));
    bound = v.bound;
    counted = λ l.
        let n = length-append e.sent (t ∷ []) in
        inc64-pos e.exported_count (length e.sent) (omega arith) (v.counted (omega arith))
        ∙ ap pos (omega arith);
  }
  step-Conserves v (worker_stop h c) = record {
    conserved = λ p. omega (arith, v.conserved p, ap (held p) h);
    bound = v.bound;
    counted = v.counted;
  }
  step-Conserves v close = record { conserved = v.conserved; bound = v.bound; counted = v.counted }
  step-Conserves v (close_stop n h c) = record {
    conserved = v.conserved;
    bound = v.bound;
    counted = v.counted;
  }
  step-Conserves v (close_again n h c) = tt
  step-Conserves {e} v (drain t rest h b) = record {
    conserved =
        λ p. omega (arith, v.conserved p, ap (count_if p) b, count_if-append p e.dropped (t ∷ []));
    bound = omega (arith, v.bound, ap length b);
    counted = v.counted;
  }
  step-Conserves v (drained h) = record {
    conserved = v.conserved;
    bound = v.bound;
    counted = v.counted;
  }
  step-Conserves v (join h w) = record {
    conserved = v.conserved;
    bound = v.bound;
    counted = v.counted;
  }

  Reach-keeps :
      {e : Exporter T} {r : Option (Exporter T)} → Conserves e → Reach e r → UnlessPanic Conserves r
  Reach-keeps v here = v
  Reach-keeps v (onward h s) = step-Conserves (Reach-keeps v h) s

  -- After any steps of a new exporter, its callers and its worker, unless it panicked: by any test,
  -- the traces that were accepted are as many as those sent, that the worker has, drained and in the
  -- buffer; the buffer holds at most 1000; and the count is of those sent, if it fits an int64.
  pub Reach-Conserves : {r : Option (Exporter T)} → Reach new_exporter r → UnlessPanic Conserves r
  unfolding new_exporter
  Reach-Conserves h =
      Reach-keeps
        (record { conserved = λ p. omega arith; bound = omega arith; counted = λ l. refl }) h
