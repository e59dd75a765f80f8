-- ===== src/Weaver/Tracing/Laws.antt =====
-- A trace is what the calls that name it make of it.
use dash_fabric.Base.{
  ◌≡◌, refl, sym, ◌∙◌, ap, List, [], ◌∷◌, ◌++◌, Option, none, some, Bytes, bytes_eq, bytes_beq_iff,
  if◌then◌else◌, ◌==◌, arith, Bool-cases, inl, inr, false, subst,
}
use dash_fabric.Base.Map.{lookup, insert, lookup-insert}
use dash_fabric.Base.Int.{pos, since}
use dash_fabric.Weaver.Tracing.{
  unknown, Trace, Manager, new_manager, new_trace, change, finished, tagged, logged, start_trace,
  end_trace, add_tag, add_log, get_trace, clear, Call, start, finish, tag, log, clear_all, step,
  run,
}

module _ {V F : Type 0} where
  -- The trace `i` alone, after a call: a start of `i` makes it anew, an end, a tag or a log of `i`
  -- changes it if it is there, a Clear removes it, and no call of another trace matters.
  abbrev pub map_trace : (Trace V F → Trace V F) → Option (Trace V F) → Option (Trace V F)
  map_trace f none = none
  map_trace f (some t) = some (f t)

  abbrev pub life_step : Bytes → Option (Trace V F) → Call V F → Option (Trace V F)
  life_step i t (start j span_id operation now) =
      if j == i
      then some (record {
        trace_id = j;
        span_id = span_id;
        parent_span_id = [];
        operation = operation;
        start_time = now;
        end_time = none;
        duration = pos 0;
        tags = [];
        logs = [];
        status = unknown;
        error_message = [];
      })
      else t
  life_step i t (finish j status err_msg now) =
      if j == i
      then map_trace
          (λ x. record x {
            end_time = some now;
            duration = since now x.start_time;
            status = status;
            error_message = err_msg;
          })
          t
      else t
  life_step i t (tag j key value) =
      if j == i then map_trace (λ x. record x { tags = insert key value x.tags }) t else t
  life_step i t (log j fields now) =
      if j == i
      then map_trace
          (λ x. record x { logs = x.logs ++ (record { timestamp = now; fields = fields }) ∷ [] }) t
      else t
  life_step i t clear_all = none

  abbrev pub life : Bytes → Option (Trace V F) → List (Call V F) → Option (Trace V F)
  life i t [] = t
  life i t (c ∷ cs) = life i (life_step i t c) cs

  lookup-change_other :
      (f : Trace V F → Trace V F) (tm : Manager V F) (i j : Bytes) (o : Option (Trace V F))
      → (j == i) ≡ false
      → lookup i (change f tm j o) ≡ lookup i tm
  lookup-change_other f tm i j none h = refl
  lookup-change_other f tm i j (some t) h = ground (arith, lookup-insert j i (f t) tm)

  lookup-change_self :
      (f : Trace V F → Trace V F) (tm : Manager V F) (i : Bytes) (o : Option (Trace V F))
      → lookup i tm ≡ o
      → lookup i (change f tm i o) ≡ map_trace f o
  lookup-change_self f tm i none h = h
  lookup-change_self f tm i (some t) h =
      ground (arith, lookup-insert i i (f t) tm, bytes_beq_iff i i)

  lookup-change :
      (f : Trace V F → Trace V F) (tm : Manager V F) (i j : Bytes)
      → lookup i (change f tm j (lookup j tm))
        ≡ (if j == i then map_trace f (lookup i tm) else lookup i tm)
  lookup-change f tm i j = elim (Bool-cases (j == i)) [
    | inl e ↦ rw e (
        subst (λ k. lookup i (change f tm k (lookup k tm)) ≡ map_trace f (lookup i tm))
          (sym ((bytes_beq_iff j i).0 e)) (lookup-change_self f tm i (lookup i tm) refl))
    | inr e ↦ rw e (lookup-change_other f tm i j (lookup j tm) e)
  ]

  lookup-step :
      (tm : Manager V F) (i : Bytes) (c : Call V F)
      → lookup i (step tm c) ≡ life_step i (lookup i tm) c
  unfolding step start_trace end_trace add_tag add_log clear lookup
  lookup-step tm i (start j s o now) = lookup-insert j i (new_trace j s o now) tm
  lookup-step tm i (finish j s m now) = lookup-change (finished s m now) tm i j
  lookup-step tm i (tag j k x) = lookup-change (tagged k x) tm i j
  lookup-step tm i (log j f now) = lookup-change (logged f now) tm i j
  lookup-step tm i clear_all = refl

  lookup-run :
      (tm : Manager V F) (i : Bytes) (cs : List (Call V F))
      → lookup i (run tm cs) ≡ life i (lookup i tm) cs
  unfolding run
  lookup-run tm i [] = refl
  lookup-run tm i (c ∷ cs) =
      lookup-run (step tm c) i cs ∙ ap (λ t. life i t cs) (lookup-step tm i c)

  -- After any calls on a new manager GetTrace has, for each identifier, what the calls that name it
  -- and those of Clear make of it: the last start of it that no Clear follows gives a new trace, which
  -- each later end, tag and log of it changes; calls before a start are lost, and calls of other
  -- traces do not matter.
  pub get-run :
      (i : Bytes) (cs : List (Call V F)) → get_trace (run new_manager cs) i ≡ life i none cs
  unfolding get_trace new_manager lookup
  get-run i cs = lookup-run new_manager i cs
