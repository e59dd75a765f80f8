-- ===== src/Weaver/Tracing/Exporter/Tests.antt =====
-- An exporter that sends one trace, and one that is closed with two traces in its buffer.
use dash_fabric.Base.{ℕ, refl, List, false, [], ◌∷◌, some, arith}
use dash_fabric.Base.Int.{pos}
use dash_fabric.Weaver.Tracing.Exporter.{
  idle, ended, not_begun, returned, Exporter, new_exporter, Reach, here, onward, export, accept,
  receive, count,
}
use dash_fabric.Weaver.Tracing.Exporter.Laws.{Conserves, Reach-Conserves}
use dash_fabric.Weaver.Tracing.Exporter.Loss.{emptied, close_drops}

abbrev one_sent : Exporter ℕ
one_sent = record {
  buffer = [];
  worker = idle;
  exported_count = pos 1;
  stopped = false;
  stop_closed = false;
  entering = [];
  flagged = 0;
  closing = not_begun;
  accepted = 7 ∷ [];
  sent = 7 ∷ [];
  dropped = [];
}

sends_one : Reach new_exporter (some one_sent)
unfolding new_exporter
sends_one =
    onward
      (onward (onward (onward here (export 7 refl)) (accept [] 7 [] refl (omega arith)))
        (receive 7 [] refl refl))
      (count 7 refl)

Reach-Conserves_example : Conserves one_sent
Reach-Conserves_example = Reach-Conserves sends_one

abbrev two : List ℕ
two = 7 ∷ 8 ∷ []

close_drops_example : Reach new_exporter (some (emptied ended returned [] two two))
close_drops_example = close_drops two (omega arith)
