-- ===== src/Fm/Cm/Subscriber.antt =====
-- EtcdSubscriber in src/FM/pkg/cm/subscriber.go: one goroutine for each topic forwards the events that
-- etcd reports to a channel that all share. The goroutines, the reader of the channel and Close
-- interleave, so it is a step relation, in which `none` is a panic. Of an event, which
-- Event.watched_event makes, the order alone matters here. The client of etcd is not modelled; its
-- answers are chosen by the steps.
use dash_fabric.Base.{
  ℕ, ◌<◌, ◌≡◌, ◌⊎◌, Bool, true, false, List, [], ◌∷◌, ◌++◌, Option, none, some, Bytes, length,
  nat_beq, if◌then◌else◌,
}
pub mod Order
mod Tests

-- watchTopic: it waits for etcd, it has events left to forward, or it has returned, with the events
-- that it did not forward.
pub data Phase (E : Type 0) : Type 0 where
  listening : Phase E
  forwarding : E → List E → Phase E
  ended : List E → Phase E

-- What is left of an answer.
abbrev pub after : {E : Type 0} → List E → Phase E
after [] = listening
after (e ∷ es) = forwarding e es

abbrev pub capacity : ℕ
capacity = 100

pub record Subscriber (E : Type 0) : Type 0 where
  pub topics : List Bytes
  -- by the place of the topic
  pub phase : ℕ → Phase E
  -- eventCh, each event with the place of its topic
  pub event_ch : List (ℕ × E)
  pub stop_closed : Bool
  pub ctx_done : Bool
  -- all that etcd reported, and all that was read from eventCh, in order
  pub reported : List (ℕ × E)
  pub delivered : List (ℕ × E)

abbrev pub update : {A : Type 0} → (ℕ → A) → ℕ → A → ℕ → A
update f i a j = if nat_beq i j then a else f j

abbrev pub tagged : {E : Type 0} → ℕ → List E → List (ℕ × E)
tagged i [] = []
tagged i (e ∷ es) = (i, e) ∷ tagged i es

module _ {E : Type 0} where
  unfoldable pub new_subscriber : List Bytes → Subscriber E
  new_subscriber topics = record {
    topics = topics;
    phase = λ i. listening;
    event_ch = [];
    stop_closed = false;
    ctx_done = false;
    reported = [];
    delivered = [];
  }

  -- `none` without a topic, which is an error
  unfoldable pub subscribe : List Bytes → Option (Subscriber E)
  subscribe [] = none
  subscribe (topic ∷ topics) = some (new_subscriber (topic ∷ topics))

  pub data Step (s : Subscriber E) : Option (Subscriber E) → Type 0 where
    -- an answer of etcd; one with an error has no events
    answer :
        (i : ℕ) (es : List E)
        → i < length s.topics
        → s.phase i ≡ listening
        → Step s (
            some (record s {
              phase = update s.phase i (after es);
              reported = s.reported ++ tagged i es;
            }))
    forward :
        (i : ℕ) (e : E) (es : List E)
        → s.phase i ≡ forwarding e es
        → length s.event_ch < capacity
        → Step s (
            some (record s {
              phase = update s.phase i (after es);
              event_ch = s.event_ch ++ (i, e) ∷ [];
            }))
    -- a goroutine that forwards does not look at its context
    stop_forwarding :
        (i : ℕ) (e : E) (es : List E)
        → s.phase i ≡ forwarding e es
        → s.stop_closed ≡ true
        → Step s (some (record s { phase = update s.phase i (ended (e ∷ es)) }))
    stop_listening :
        (i : ℕ)
        → s.phase i ≡ listening
        → (s.stop_closed ≡ true) ⊎ (s.ctx_done ≡ true)
        → Step s (some (record s { phase = update s.phase i (ended []) }))
    read :
        (i : ℕ) (e : E) (rest : List (ℕ × E))
        → s.event_ch ≡ (i, e) ∷ rest
        → Step s (some (record s { event_ch = rest; delivered = s.delivered ++ (i, e) ∷ [] }))
    cancel : Step s (some (record s { ctx_done = true }))
    close : s.stop_closed ≡ false → Step s (some (record s { stop_closed = true }))
    -- close(s.stopCh) a second time
    close_again : s.stop_closed ≡ true → Step s none

  pub data Reach (s : Subscriber E) : Option (Subscriber E) → Type 0 where
    here : Reach s (some s)
    onward :
        {t : Subscriber E} {r : Option (Subscriber E)} → Reach s (some t) → Step t r → Reach s r
