-- ===== src/Fm/Cm/Pipeline.antt =====
-- src/FM/pkg/cm/pipeline.go: the loop over the events of a subscription. The select that forwards
-- an event, or finds the pipeline stopped, is told which of the two happened.
use dash_fabric.Base.{
  ℕ, Bool, true, false, not, List, [], ◌∷◌, ◌++◌, Option, none, some, Bytes, if◌then◌else◌, is_some,
  wrap,
}
use dash_fabric.Base.Int.{ℤ, pos, inc64}
use dash_fabric.Fm.Cm.Cache.{LruCache, check_and_store}
use dash_fabric.Fm.Cm.Event.{Event}
pub mod Laws
pub mod Watched
mod Tests

pub record PipelineStats : Type 0 where
  pub events_received : ℤ
  pub events_duplicated : ℤ
  pub events_validated : ℤ
  pub events_forwarded : ℤ
  pub validation_errors : ℤ
  pub subscription_errors : ℤ

pub record EventPipeline (Float : Type 0) : Type 0 where
  pub running : Bool
  pub cache : LruCache
  pub stats : PipelineStats
  -- doneCh and eventOut are closed
  pub closed : Bool
  -- all that was ever sent, in order
  pub event_out : List (Event Float)

abbrev pub no_stats : PipelineStats
no_stats = record {
  events_received = pos 0;
  events_duplicated = pos 0;
  events_validated = pos 0;
  events_forwarded = pos 0;
  validation_errors = pos 0;
  subscription_errors = pos 0;
}

pub data PipelineError (E : Type 0) : Type 0 where
  already_running : PipelineError E
  not_running : PipelineError E
  failed_to_subscribe : E → PipelineError E
  failed_to_close : E → PipelineError E

unfoldable pub new : {Float : Type 0} → LruCache → EventPipeline Float
new cache = record {
  running = false;
  cache = cache;
  stats = no_stats;
  closed = false;
  event_out = [];
}

module _ {Float E : Type 0} where
  -- Start, with the error of Subscribe
  unfoldable pub start :
      EventPipeline Float → Option E → EventPipeline Float × Option (PipelineError E)
  start p subscribed = if p.running then (p, some already_running) else (elim subscribed [
    | none ↦ (record p { running = true; stats = no_stats }, none)
    | some e ↦ (record p { running = false; stats = no_stats }, some (failed_to_subscribe e))
  ])

  -- Stop, with the error of the subscriber's Close; `none` is the panic of closing twice.
  unfoldable pub stop :
      EventPipeline Float → Option E → Option (EventPipeline Float × Option (PipelineError E))
  stop p err =
      if not p.running
      then some (p, some not_running)
      else (if p.closed
          then none
          else some (record p { running = false; closed = true }, wrap failed_to_close err))

  -- `validate` is the validator, and `stopped` tells that the select did not send: it found the
  -- context or doneCh done, or it sent on eventOut after Stop closed it, a panic that leaves the
  -- pipeline as the other two do. The result tells whether the loop goes on.
  unfoldable pub handle_event :
      (Event Float → Option E)
      → EventPipeline Float
      → Event Float
      → ℕ
      → Bool
      → EventPipeline Float × Bool
  handle_event validate p event now stopped =
      let received : PipelineStats = record p.stats {
        events_received = inc64 p.stats.events_received;
      } in
      let (cache, duplicate) = check_and_store p.cache event.fingerprint now in
      if duplicate
      then (
        record p {
          cache = cache;
          stats = record received { events_duplicated = inc64 received.events_duplicated };
        },
        true,
      )
      else (if is_some (validate event)
          then (
            record p {
              cache = cache;
              stats = record received { validation_errors = inc64 received.validation_errors };
            },
            true,
          )
          else (let validated : PipelineStats = record received {
            events_validated = inc64 received.events_validated;
          } in
              if stopped then (record p { cache = cache; stats = validated }, false) else (
                record p {
                  cache = cache;
                  stats = record validated { events_forwarded = inc64 validated.events_forwarded };
                  event_out = p.event_out ++ event ∷ [];
                },
                true,
              )))

  unfoldable pub handle_event_loop :
      (Event Float → Option E)
      → EventPipeline Float
      → List (Event Float × ℕ × Bool)
      → EventPipeline Float
  handle_event_loop validate p [] = p
  handle_event_loop validate p ((event, now, stopped) ∷ l) =
      let r = handle_event validate p event now stopped in
      let rest = handle_event_loop validate r.0 l in if r.1 then rest else r.0
