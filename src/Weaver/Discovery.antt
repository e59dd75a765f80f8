-- ===== src/Weaver/Discovery.antt =====
-- src/Weaver/pkg/discovery: the static discovery and that of etcd (static.go), and those of Consul,
-- Kubernetes and DNS (advanced.go), which keep a list of replicas and send it to a watcher. A
-- watcher interleaves with updates, so it is a step relation, in which `none` is a panic. Decimal
-- digits and the answers of DNS are arguments.
use dash_fabric.Base.{
  ℕ, suc, ◌+◌, ◌≡◌, ◌≢◌, ◌⊎◌, Bool, true, false, List, [], ◌∷◌, ◌++◌, Option, none, some, Bytes,
  bytes, if◌then◌else◌, map,
}
use dash_fabric.Base.Int.{ℤ, pos, beq_ℤ}
use dash_fabric.Weaver.Gateway.{ReplicaInfo}
pub mod Watchers
mod Tests

pub data Kind : Type 0 where
  static etcd consul kubernetes dns_srv : Kind

pub record Discovery : Type 0 where
  pub kind : Kind
  pub replicas : List ReplicaInfo
  -- the channel of changes, which has room for one and which nothing reads
  pub changes : List (List ReplicaInfo)
  -- `done` is closed
  pub closed : Bool

abbrev pub new_discovery : Kind → List ReplicaInfo → Discovery
new_discovery kind replicas = record {
  kind = kind;
  replicas = replicas;
  changes = [];
  closed = false;
}

module _ (format_int : ℕ → Bytes) where
  abbrev pub static_replicas : ℕ → List Bytes → List ReplicaInfo
  static_replicas i [] = []
  static_replicas i (addr ∷ addrs) =
      record { name = bytes "replica-" ++ format_int (i + 1); address = addr; healthy = true }
      ∷ static_replicas (i + 1) addrs

  unfoldable pub new_static_discovery : List Bytes → Discovery
  new_static_discovery addresses = new_discovery static (static_replicas 0 addresses)

  -- targets of an SRV record: names and ports
  abbrev pub srv_replicas : List (Bytes × ℕ) → List ReplicaInfo
  srv_replicas [] = []
  srv_replicas ((target, port) ∷ rest) =
      record { name = target; address = target ++ bytes ":" ++ format_int port; healthy = true }
      ∷ srv_replicas rest

unfoldable pub discover : Discovery → List ReplicaInfo
discover d = d.replicas

-- A change that finds room is kept.
abbrev pub notify : List (List ReplicaInfo) → List ReplicaInfo → List (List ReplicaInfo)
notify [] rs = rs ∷ []
notify (c ∷ cs) rs = c ∷ cs

unfoldable pub update_replicas : Discovery → List ReplicaInfo → Discovery
update_replicas d rs = record d { replicas = rs; changes = notify d.changes rs }

unfoldable pub close : Discovery → Option Discovery
close d = if d.closed then none else some (record d { closed = true })

-- The goroutine of Watch: before it reads the list, with a list to send, waiting, and ended.
pub data Phase : Type 0 where
  reading : Phase
  offering : List ReplicaInfo → Phase
  waiting : Phase
  ended : Phase

pub record Watch : Type 0 where
  pub discovery : Discovery
  pub phase : Phase
  pub ctx_done : Bool
  -- all that was sent to the watcher, in order
  pub sent : List (List ReplicaInfo)

abbrev pub new_watch : Discovery → Watch
new_watch d = record { discovery = d; phase = reading; ctx_done = false; sent = [] }

pub data Step (w : Watch) : Option Watch → Type 0 where
  update :
      (rs : List ReplicaInfo)
      → Step w (some (record w { discovery = update_replicas w.discovery rs }))
  cancel : Step w (some (record w { ctx_done = true }))
  close_it :
      (d : Discovery) → close w.discovery ≡ some d → Step w (some (record w { discovery = d }))
  close_again : close w.discovery ≡ none → Step w none
  read : w.phase ≡ reading → Step w (some (record w { phase = offering (discover w.discovery) }))
  send :
      (rs : List ReplicaInfo)
      → w.phase ≡ offering rs
      → Step w (some (record w { phase = waiting; sent = w.sent ++ rs ∷ [] }))
  stop_offering :
      (rs : List ReplicaInfo)
      → w.phase ≡ offering rs
      → (w.ctx_done ≡ true) ⊎ (w.discovery.closed ≡ true)
      → Step w (some (record w { phase = ended }))
  -- a static watcher waits for its context alone
  stop_static :
      w.phase ≡ waiting
      → w.discovery.kind ≡ static
      → w.ctx_done ≡ true
      → Step w (some (record w { phase = ended }))
  stop_polling :
      w.phase ≡ waiting
      → w.discovery.kind ≢ static
      → (w.ctx_done ≡ true) ⊎ (w.discovery.closed ≡ true)
      → Step w (some (record w { phase = ended }))
  tick :
      w.phase ≡ waiting
      → w.discovery.kind ≢ static
      → w.discovery.kind ≢ dns_srv
      → Step w (some (record w { phase = reading }))
  -- a query of DNS that fails, and one that is answered
  tick_failed :
      w.phase ≡ waiting → w.discovery.kind ≡ dns_srv → Step w (some (record w { phase = reading }))
  tick_answered :
      (rs : List ReplicaInfo)
      → w.phase ≡ waiting
      → w.discovery.kind ≡ dns_srv
      → Step w (some (record w { phase = reading; discovery = update_replicas w.discovery rs }))

pub data Reach (w : Watch) : Option Watch → Type 0 where
  here : Reach w (some w)
  onward : {v : Watch} {r : Option Watch} → Reach w (some v) → Step v r → Reach w r
