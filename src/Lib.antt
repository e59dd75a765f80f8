-- ===== src/Lib.antt =====
-- DashFabric: a control plane for programmable network devices. Two programs are modelled here.
--
-- The Fleet Manager (src/FM) takes events of configuration from a control broker, drops duplicates,
-- keeps the shared objects that they name in reference-counted registries, and programs the devices
-- through plugins of their vendors. Weaver (src/Weaver) is a gateway that spreads requests over the
-- replicas of a service.
--
--   Base            shared names: Boolean tests, keys, lists, maps, Go's int64, order and parts of
--                   strings
--   Fm.Registry     src/FM/pkg/registry/semantics.go and refcount.go: Acquire, Release, Add, Get,
--                   Ready, Refcount, Len and Snapshot of the generic registry
--   Fm.Typed        what vnet, nic, mapping, route, acl and meter under src/FM/pkg/registry share:
--                   a validation and a normal form around the generic registry
--   Fm.Kinds        the state and the validation of each of the six
--   Fm.Aliasing     the registry of VNETs again, over a store of objects and arrays: Clone, Add, Get
--                   and sortDedupPeers of vnet.go, beside a client that writes to what it holds
--   Fm.SortDedup    sortDedupPeers and sortDedupAclGroups
--   Fm.Ids          src/FM/pkg/types/ids.go and versions.go
--   Fm.Resilience   src/FM/pkg/resilience: Breaker (circuit_breaker.go), Retry (Attempt of
--                   retry.go), Classify (timeout.go)
--   Fm.Dal          src/FM/pkg/dal: Plugins (registry.go), Dispatcher (dispatcher.go), which uses
--                   the breaker and the retry loop of Fm.Resilience, Pool (pool.go, a step
--                   relation), Manager (manager.go), Factory (custom.go and factory.go)
--   Fm.Gm           src/FM/pkg/gm: Types, Generate (aggregator.go and composer.go), Cache, Manager
--   Fm.Cm           src/FM/pkg/cm: Cache (cache.go), Event (types.go and subscriber.go),
--                   Subscriber (subscriber.go, a step relation), Pipeline (pipeline.go), which asks
--                   the cache for each event
--   Fm.Errors       src/FM/pkg/errors: Codes (codes.go), the catalogue and Classify (classify.go)
--   Fm.Config       src/FM/pkg/config: the defaults, and the factory that wires Fm.Gm and Fm.Dal
--   Fm.Health       src/FM/pkg/observability/health.go: readiness
--   Fm.Service      src/FM/cmd/fm/main.go: all services together, started and shut down, and
--                   main around them (Main)
--   Fm.Api          src/FM/pkg/api: the handlers and the checks of requests
--   Fm.Lint         src/FM/tools/fm-lint: Rule (noregistrybypass/check.go), Paths and Tool (main.go)
--   Weaver.Balancer src/Weaver/pkg/loadbalancer/strategies.go
--   Weaver.Breaker  src/Weaver/pkg/reliability/circuit_breaker.go
--   Weaver.Timeout  src/Weaver/pkg/reliability/timeout.go: the time of an attempt
--   Weaver.Retry    src/Weaver/pkg/reliability/retry.go: Execute and isRetryable
--   Weaver.Health   src/Weaver/pkg/health/monitor.go: a processed check, the panic mode
--   Weaver.Checkers src/Weaver/pkg/health/checkers.go: the checkers and their factory
--   Weaver.Plugins  src/Weaver/pkg/plugins/manager.go: loading with hooks, factories
--   Weaver.Gateway  src/Weaver/pkg/gateway: replicas, routing and changes of the discovery
--   Weaver.Discovery src/Weaver/pkg/discovery/static.go and advanced.go: the lists of replicas and
--                   their watchers, a step relation
--   Weaver.Ratelimit src/Weaver/pkg/ratelimit/limiter.go: token buckets and the limiter over several
--                   dimensions
--   Weaver.Tracing  src/Weaver/pkg/observability/tracing.go: the traces, and Exporter
--                   (JaegerExporter, a step relation)
--   Weaver.Auth     src/Weaver/pkg/auth: authenticators (auth.go), roles and scopes (rbac.go)
--
-- How code is modelled. A Go map is an association list, of which only lookups are used; a string
-- is its bytes. An int64 is an integer whose operations wrap around (Base.Int). A pointer that may
-- be nil is an Option. A panic is `none`. A call that holds a mutex throughout is one step, so that
-- a history is a sequence of calls, in any order. Channels that are only closed are numbers with a
-- list of those that are closed. Time is a number of nanoseconds that is read off a world; a
-- context is two functions on worlds, which ask whether it is done and wait. The plugins of
-- vendors, net.ParseMAC, SHA-256, JSON, strconv.FormatFloat and the float64 of Weaver.Ratelimit are
-- arguments. Where goroutines interleave within a call (Fm.Dal.Pool, Fm.Cm.Subscriber,
-- Weaver.Discovery, Weaver.Tracing.Exporter), a state has a step relation, in which `none` is a
-- panic, and a theorem speaks of every state that is reached. Values are immutable, and a copy is
-- the value itself, but for Fm.Aliasing, where pointers are numbers into a store.
--
-- Loops are recursive in the list that they range over, or in the number of rounds that are left:
-- Attempt has MaxRetries + 1 rounds, the deduplication in place one for each element, and the scan
-- of LeastConnections one for each replica after the first. The search for go.mod has one round more
-- than its path has bytes, as a parent's path is shorter.
--
-- Not modelled: log lines, metrics, the tracing of the Fleet Manager and servers, which are input
-- and output; the length of a back-off, a float64 with a random part.
pub mod Base
pub mod Fm
pub mod Weaver
