-- ===== src/Weaver/Tracing.antt =====
-- src/Weaver/pkg/observability/tracing.go: the manager of traces. A trace is reached by its
-- identifier; a pointer to one that a later StartTrace has replaced is not followed. Each call reads
-- the clock once at most, and has the reading as an argument. The values of tags and the fields of
-- logs are parameters.
use dash_fabric.Base.{
  ℕ, List, [], ◌∷◌, ◌++◌, Option, none, some, Bytes, bytes, bytes_eq, if◌then◌else◌, map, ◌==◌,
}
use dash_fabric.Base.Map.{Map, lookup, insert}
use dash_fabric.Base.Int.{ℤ, pos, since}
pub mod Exporter
pub mod Laws
mod Tests

pub data TraceStatus : Type 0 where
  ok error unknown : TraceStatus

pub record TraceLog (F : Type 0) : Type 0 where
  pub timestamp : ℕ
  pub fields : F

-- A time of `none` is the zero time.
pub record Trace (V F : Type 0) : Type 0 where
  pub trace_id : Bytes
  pub span_id : Bytes
  pub parent_span_id : Bytes
  pub operation : Bytes
  pub start_time : ℕ
  pub end_time : Option ℕ
  pub duration : ℤ
  pub tags : Map Bytes V
  pub logs : List (TraceLog F)
  pub status : TraceStatus
  pub error_message : Bytes

abbrev pub Manager : Type 0 → Type 0 → Type 0
Manager V F = Map Bytes (Trace V F)

module _ {V F : Type 0} where
  unfoldable pub new_manager : Manager V F
  new_manager = []

  abbrev pub new_trace : Bytes → Bytes → Bytes → ℕ → Trace V F
  new_trace trace_id span_id operation now = record {
    trace_id = trace_id;
    span_id = span_id;
    parent_span_id = [];
    operation = operation;
    start_time = now;
    end_time = none;
    duration = pos 0;
    tags = [];
    logs = [];
    status = unknown;
    error_message = [];
  }

  unfoldable pub start_trace : Manager V F → Bytes → Bytes → Bytes → ℕ → Manager V F
  start_trace tm trace_id span_id operation now =
      insert trace_id (new_trace trace_id span_id operation now) tm

  -- What a call does to the trace that it finds; without one it does nothing.
  abbrev pub change :
      (Trace V F → Trace V F) → Manager V F → Bytes → Option (Trace V F) → Manager V F
  change f tm trace_id none = tm
  change f tm trace_id (some t) = insert trace_id (f t) tm

  abbrev pub finished : TraceStatus → Bytes → ℕ → Trace V F → Trace V F
  finished status err_msg now t = record t {
    end_time = some now;
    duration = since now t.start_time;
    status = status;
    error_message = err_msg;
  }

  unfoldable pub end_trace : Manager V F → Bytes → TraceStatus → Bytes → ℕ → Manager V F
  end_trace tm trace_id status err_msg now =
      change (finished status err_msg now) tm trace_id (lookup trace_id tm)

  abbrev pub tagged : Bytes → V → Trace V F → Trace V F
  tagged key value t = record t { tags = insert key value t.tags }

  unfoldable pub add_tag : Manager V F → Bytes → Bytes → V → Manager V F
  add_tag tm trace_id key value = change (tagged key value) tm trace_id (lookup trace_id tm)

  abbrev pub logged : F → ℕ → Trace V F → Trace V F
  logged fields now t = record t {
    logs = t.logs ++ (record { timestamp = now; fields = fields }) ∷ [];
  }

  unfoldable pub add_log : Manager V F → Bytes → F → ℕ → Manager V F
  add_log tm trace_id fields now = change (logged fields now) tm trace_id (lookup trace_id tm)

  unfoldable pub get_trace : Manager V F → Bytes → Option (Trace V F)
  get_trace tm trace_id = lookup trace_id tm

  abbrev pub traces_of : Manager V F → List (Trace V F)
  traces_of [] = []
  traces_of ((trace_id, t) ∷ tm) = t ∷ traces_of tm

  -- in some order
  unfoldable pub export_traces : Manager V F → List (Trace V F)
  export_traces tm = traces_of tm

  unfoldable pub clear : Manager V F → Manager V F
  clear tm = []

-- A call, with the identifier that it names, and the reading of the clock.
pub data Call (V F : Type 0) : Type 0 where
  start : Bytes → Bytes → Bytes → ℕ → Call V F
  finish : Bytes → TraceStatus → Bytes → ℕ → Call V F
  tag : Bytes → Bytes → V → Call V F
  log : Bytes → F → ℕ → Call V F
  clear_all : Call V F

module _ {V F : Type 0} where
  unfoldable pub step : Manager V F → Call V F → Manager V F
  step tm (start i span_id operation now) = start_trace tm i span_id operation now
  step tm (finish i status err_msg now) = end_trace tm i status err_msg now
  step tm (tag i key value) = add_tag tm i key value
  step tm (log i fields now) = add_log tm i fields now
  step tm clear_all = clear tm

  unfoldable pub run : Manager V F → List (Call V F) → Manager V F
  run tm [] = tm
  run tm (c ∷ cs) = run (step tm c) cs
