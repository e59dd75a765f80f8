-- ===== src/Weaver/Discovery/Tests.antt =====
-- A watcher that was sent the first list, after which there is an update.
use dash_fabric.Base.{ℕ, refl, false, List, [], ◌∷◌, some, Bytes, bytes}
use dash_fabric.Weaver.Discovery.{
  Watch, waiting, new_static_discovery, static_replicas, update_replicas, discover, new_watch, read,
  send, update, Reach, here, onward,
}
use dash_fabric.Weaver.Discovery.Watchers.{SentAsRead, lists_read, static_sends_once}

abbrev digits : ℕ → Bytes
digits n = n ∷ []

abbrev addresses : List Bytes
addresses = bytes "10.0.0.1:80" ∷ []

abbrev updated : Watch
updated = record {
  discovery = update_replicas (new_static_discovery digits addresses) [];
  phase = waiting;
  ctx_done = false;
  sent = static_replicas digits 0 addresses ∷ [];
}

history : Reach (new_watch (new_static_discovery digits addresses)) (some updated)
unfolding new_static_discovery discover
history =
    onward (onward (onward here (read refl)) (send (static_replicas digits 0 addresses) refl))
      (update [])

static_sends_once_example : SentAsRead (lists_read history) updated
static_sends_once_example = static_sends_once digits addresses history
