-- ===== src/Weaver/Tracing/Exporter.antt =====
-- JaegerExporter in src/Weaver/pkg/observability/tracing.go. Callers of Export and of Close and the
-- worker interleave, so it is a step relation, in which `none` is a panic. A call of Export with nil
-- and one that finds the exporter stopped change nothing and are no steps.
use dash_fabric.Base.{
  ℕ, zero, suc, ◌<◌, ◌≡◌, Bool, true, false, List, [], ◌∷◌, ◌++◌, Option, none, some, length,
}
use dash_fabric.Base.Int.{ℤ, pos, inc64}
pub mod Laws
pub mod Loss
mod Tests

-- exportWorker: it waits, it has a trace that it sends, or it has returned.
pub data Worker (T : Type 0) : Type 0 where
  idle : Worker T
  sending : T → Worker T
  ended : Worker T

-- The call of Close that closed the channel.
pub data Closing : Type 0 where
  not_begun draining joining returned : Closing

abbrev pub capacity : ℕ
capacity = 1000

pub record Exporter (T : Type 0) : Type 0 where
  pub buffer : List T
  pub worker : Worker T
  pub exported_count : ℤ
  pub stopped : Bool
  -- stopCh is closed
  pub stop_closed : Bool
  -- traces whose Export is past its check and not yet in the select
  pub entering : List T
  -- calls of Close that have set `stopped` and not yet closed stopCh
  pub flagged : ℕ
  pub closing : Closing
  -- the traces for which Export returned no error, those sent to Jaeger and those drained, in order
  pub accepted : List T
  pub sent : List T
  pub dropped : List T

module _ {T : Type 0} where
  unfoldable pub new_exporter : Exporter T
  new_exporter = record {
    buffer = [];
    worker = idle;
    exported_count = pos 0;
    stopped = false;
    stop_closed = false;
    entering = [];
    flagged = 0;
    closing = not_begun;
    accepted = [];
    sent = [];
    dropped = [];
  }

  pub data Step (e : Exporter T) : Option (Exporter T) → Type 0 where
    export : (t : T) → e.stopped ≡ false → Step e (some (record e { entering = t ∷ e.entering }))
    accept :
        (before : List T) (t : T) (after : List T)
        → e.entering ≡ before ++ t ∷ after
        → length e.buffer < capacity
        → Step e (
            some (record e {
              entering = before ++ after;
              buffer = e.buffer ++ t ∷ [];
              accepted = e.accepted ++ t ∷ [];
            }))
    refuse_stopped :
        (before : List T) (t : T) (after : List T)
        → e.entering ≡ before ++ t ∷ after
        → e.stop_closed ≡ true
        → Step e (some (record e { entering = before ++ after }))
    refuse_full :
        (before : List T) (t : T) (after : List T)
        → e.entering ≡ before ++ t ∷ after
        → length e.buffer ≡ capacity
        → Step e (some (record e { entering = before ++ after }))
    receive :
        (t : T) (rest : List T)
        → e.worker ≡ idle
        → e.buffer ≡ t ∷ rest
        → Step e (some (record e { buffer = rest; worker = sending t }))
    count :
        (t : T)
        → e.worker ≡ sending t
        → Step e (
            some (record e {
              worker = idle;
              exported_count = inc64 e.exported_count;
              sent = e.sent ++ t ∷ [];
            }))
    worker_stop :
        e.worker ≡ idle → e.stop_closed ≡ true → Step e (some (record e { worker = ended }))
    close : Step e (some (record e { stopped = true; flagged = suc e.flagged }))
    close_stop :
        (n : ℕ)
        → e.flagged ≡ suc n
        → e.stop_closed ≡ false
        → Step e (some (record e { flagged = n; stop_closed = true; closing = draining }))
    -- close(je.stopCh) a second time
    close_again : (n : ℕ) → e.flagged ≡ suc n → e.stop_closed ≡ true → Step e none
    drain :
        (t : T) (rest : List T)
        → e.closing ≡ draining
        → e.buffer ≡ t ∷ rest
        → Step e (some (record e { buffer = rest; dropped = e.dropped ++ t ∷ [] }))
    -- the buffer is empty, or five seconds are over
    drained : e.closing ≡ draining → Step e (some (record e { closing = joining }))
    join : e.closing ≡ joining → e.worker ≡ ended → Step e (some (record e { closing = returned }))

  pub data Reach (e : Exporter T) : Option (Exporter T) → Type 0 where
    here : Reach e (some e)
    onward : {f : Exporter T} {r : Option (Exporter T)} → Reach e (some f) → Step f r → Reach e r
