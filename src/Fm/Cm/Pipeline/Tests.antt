-- ===== src/Fm/Cm/Pipeline/Tests.antt =====
-- Runs of the event pipeline. SHA-256 is the identity here, and a validator refuses empty names.
use dash_fabric.Base.{
  ℕ, ◌≤◌, Bool, true, false, List, [], ◌∷◌, Option, none, some, arith, Bytes, bytes, length,
  bytes_eq,
}
use dash_fabric.Base.Int.{pos}
use dash_fabric.Fm.Cm.Cache as Cache
use dash_fabric.Fm.Cm.Event.{Event}
use dash_fabric.Fm.Cm.Pipeline.{EventPipeline, new, handle_event_loop}
use dash_fabric.Fm.Cm.Pipeline.Laws.{Tally, loop-conserves}
use dash_fabric.Fm.Cm.Pipeline.Watched.{watched, watched_sends_one}

abbrev validate : Event ℕ → Option Bytes
validate e = elim e.id [ [] ↦ some (bytes "no id") | b ∷ bs ↦ none ]

abbrev sha256_hex : Bytes → Bytes
sha256_hex s = s

abbrev event : Bytes → Bytes → Event ℕ
event id fingerprint = record {
  id = id;
  vnet_id = [];
  kind = [];
  timestamp = 0;
  payload = [];
  fingerprint = fingerprint;
}

abbrev history : List (Event ℕ × ℕ × Bool)
history =
    (event (bytes "a") (bytes "x"), 1, false)
    ∷ (event (bytes "b") (bytes "x"), 2, false)
    ∷ (event [] (bytes "y"), 3, false)
    ∷ (event (bytes "c") (bytes "z"), 4, false)
    ∷ []

loop-conserves_example :
    (n : ℕ) × (n ≤ 4) × Tally (handle_event_loop validate (new (Cache.new (pos 2))) history) n
loop-conserves_example = loop-conserves validate (Cache.new (pos 2)) history (omega arith)

abbrev changes : List (Bytes × ℕ × Bool)
changes = (bytes "vnet/1", 1, false) ∷ (bytes "vnet/2", 2, false) ∷ (bytes "eni/7", 3, false) ∷ []

watched_sends_one_example :
    length
      (handle_event_loop validate
        (new (Cache.new (pos 10000)))
        (watched validate (λ f. []) sha256_hex changes)).event_out
    ≤ 1
watched_sends_one_example =
    watched_sends_one validate (λ f. []) sha256_hex 10000 changes (omega arith)

abbrev running : EventPipeline ℕ
running = record (new (Cache.new (pos 2))) { running = true }
